-- ===== src/Coroutine/Running.antt =====
-- src/coroutine.cc: which coroutines are in the state RUNNING.
use tiger.Base.{ℕ, zero, suc, ◌<◌, Bool, true, false, List, [], ◌∷◌, ◌++◌}
use tiger.Base.{none, some, ◌==◌, if◌then◌else◌, length, get_elem?, ◌≡◌, refl, ap, arith}
use tiger.Coroutine.States.{
  State, init_state, terminal_state, except_state, running_state, yield_state, Coroutine, update,
}

abbrev pub is_running : State → Bool
is_running running_state = true
is_running init_state = false
is_running terminal_state = false
is_running except_state = false
is_running yield_state = false

-- Whether the coroutine at a place is running.
unfoldable pub runs : List Coroutine → ℕ → Bool
runs [] i = false
runs (c ∷ cs) zero = is_running c.state
runs (c ∷ cs) (suc i) = runs cs i

pub runs-get_elem? :
    (cs : List Coroutine) (i : ℕ) (c : Coroutine)
    → get_elem? cs i ≡ some c
    → (i < length cs) × (runs cs i ≡ is_running c.state)
unfolding runs
runs-get_elem? [] i c e = absurd (cc)
runs-get_elem? (d ∷ cs) zero c e =
    (omega arith, ap (λ o. elim o [ none ↦ is_running d.state | some a ↦ is_running a.state ]) e)
runs-get_elem? (d ∷ cs) (suc i) c e = let h = runs-get_elem? cs i c e in (omega (arith, h.0), h.1)

pub below-runs : (cs : List Coroutine) (i : ℕ) → runs cs i ≡ true → i < length cs
unfolding runs
below-runs [] i e = absurd (cc)
below-runs (c ∷ cs) zero e = omega arith
below-runs (c ∷ cs) (suc i) e = omega (arith, below-runs cs i e)

pub length-update :
    (f : Coroutine → Coroutine) (i : ℕ) (cs : List Coroutine) → length (update f i cs) ≡ length cs
length-update f i [] = refl
length-update f zero (c ∷ cs) = refl
length-update f (suc i) (c ∷ cs) = omega (arith, length-update f i cs)

-- A change that makes the coroutine running, or not, for all coroutines alike.
pub runs-update :
    (f : Coroutine → Coroutine) (b : Bool) (i : ℕ) (cs : List Coroutine) (j : ℕ)
    → ((c : Coroutine) → is_running ((f c).state) ≡ b)
    → i < length cs
    → runs (update f i cs) j ≡ (if j == i then b else runs cs j)
unfolding runs
runs-update f b i [] j h lt = absurd (omega arith)
runs-update f b zero (c ∷ cs) zero h lt = ground (arith, h c)
runs-update f b zero (c ∷ cs) (suc j) h lt = ground arith
runs-update f b (suc i) (c ∷ cs) zero h lt = ground arith
runs-update f b (suc i) (c ∷ cs) (suc j) h lt =
    ground (arith, runs-update f b i cs j h (omega arith))

pub runs-append :
    (cs : List Coroutine) (c : Coroutine) (j : ℕ)
    → is_running c.state ≡ false
    → runs (cs ++ (c ∷ [])) j ≡ runs cs j
unfolding runs
runs-append [] c zero e = e
runs-append [] c (suc j) e = refl
runs-append (d ∷ cs) c zero e = refl
runs-append (d ∷ cs) c (suc j) e = runs-append cs c j e
