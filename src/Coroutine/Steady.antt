-- ===== src/Coroutine/Steady.antt =====
-- src/coroutine.cc: threads with one running coroutine, and what each operation makes of them.
use tiger.Base.{ℕ, zero, suc, ◌+◌, ◌<◌, Bool, true, false, not, List, [], ◌∷◌, ◌++◌}
use tiger.Base.{Option, none, some, ◌==◌, length, get_elem?, ◌≡◌, refl, ap, sym, ◌∙◌, arith}
use tiger.Base.{Option-cases, Bool-cases, inl, inr}
use tiger.Coroutine.States.{
  State, init_state, terminal_state, except_state, running_state, yield_state, Coroutine, Thread,
  update, with_state, new_thread, with_main, main_co, create, can_resume, can_reset, resume,
  switch_back, yield, finished, finish_run, reset,
}
use tiger.Coroutine.Running.{
  is_running, runs, runs-get_elem?, below-runs, length-update, runs-update, runs-append,
}

-- The main coroutine is the first. The coroutine whose stack is in use is s_t_running_co, and the only
-- one in the state RUNNING; the stack of the main coroutine is the one that is saved.
pub record IsSteady (t : Thread) : Type 0 where
  pub first : t.main ≡ some 0
  pub current : t.running ≡ some t.executing
  pub one : (j : ℕ) → runs t.cos j ≡ (j == t.executing)
  pub return_to : t.saved ≡ 0

-- Where no assertion fails.
abbrev pub Steady : Option Thread → Type 0
Steady none = Unit
Steady (some t) = IsSteady t

pub executing-length : (t : Thread) → IsSteady t → t.executing < length t.cos
executing-length t s = below-runs t.cos t.executing (ground (arith, s.one t.executing))

pub first-length : (t : Thread) → IsSteady t → 0 < length t.cos
first-length t s = omega (arith, executing-length t s)

runs-start :
    (configured fn size j : ℕ) → runs ((create configured fn size new_thread).cos) j ≡ (j == 0)
unfolding create with_main main_co runs
runs-start configured fn size zero = ground arith
runs-start configured fn size (suc zero) = ground arith
runs-start configured fn size (suc (suc j)) = ground arith

pub start-IsSteady : (configured fn size : ℕ) → IsSteady (create configured fn size new_thread)
unfolding create with_main
start-IsSteady configured fn size = record {
  first = refl;
  current = refl;
  one = runs-start configured fn size;
  return_to = refl;
}

with_main_same : (t : Thread) (k : ℕ) → t.main ≡ some k → with_main t ≡ t
unfolding with_main
with_main_same t k e =
    ap
      (λ o. elim o [
        | some k ↦ t
        | none ↦ record t {
          cos = t.cos ++ (main_co (t.last_id + 1) ∷ []);
          running = some (length t.cos);
          main = some (length t.cos);
          last_id = t.last_id + 1;
        }
      ])
      e

pub create-IsSteady :
    (configured fn size : ℕ) (t : Thread) → IsSteady t → IsSteady (create configured fn size t)
unfolding create
create-IsSteady configured fn size t s =
    rw (create, with_main_same t 0 s.first)
      (record {
        first = s.first;
        current = s.current;
        one = λ j. runs-append t.cos _ j refl ∙ s.one j;
        return_to = s.return_to;
      })

runs-resume :
    (i : ℕ) (t : Thread) (c : Coroutine)
    → IsSteady t
    → t.executing ≡ 0
    → get_elem? t.cos i ≡ some c
    → (j : ℕ)
    → runs (update (with_state running_state) i (update (with_state yield_state) 0 t.cos)) j
      ≡ (j == i)
runs-resume i t c s main e j =
    let inner = update (with_state yield_state) 0 t.cos in
    ground (
      arith,
      main,
      s.one j,
      runs-update (with_state running_state) true i inner j (λ d. refl)
          (omega (
            arith,
            length-update (with_state yield_state) 0 t.cos,
            (runs-get_elem? t.cos i c e).0,
          )),
      runs-update (with_state yield_state) false 0 t.cos j (λ d. refl) (first-length t s),
    )

pub resume-Steady : (i : ℕ) (t : Thread) → IsSteady t → t.executing ≡ 0 → Steady (resume i t)
unfolding resume
resume-Steady i t s main = elim (Option-cases (get_elem? t.cos i)) [
  | inl e ↦ rw (Steady, resume, e) tt
  | inr (c, e) ↦ elim (Bool-cases (can_resume c.state)) [
    | inl h ↦
        rw (Steady, resume, e, s.first, h)
          (record {
            first = s.first;
            current = refl;
            one = runs-resume i t c s main e;
            return_to = main;
          })
    | inr h ↦ rw (Steady, resume, e, s.first, h) tt
  ]
]

-- Back on the main coroutine, after one that was running is so no more.
runs-back :
    (f : Coroutine → Coroutine) (t : Thread)
    → IsSteady t
    → ((c : Coroutine) → is_running ((f c).state) ≡ false)
    → (j : ℕ) → runs (update (with_state running_state) 0 (update f t.executing t.cos)) j ≡ (j == 0)
runs-back f t s h j = ground (
  arith,
  s.one j,
  runs-update (with_state running_state) true 0 (update f t.executing t.cos) j (λ d. refl)
      (omega (arith, length-update f t.executing t.cos, first-length t s)),
  runs-update f false t.executing t.cos j h (executing-length t s),
)

finished-not_running :
    (thrown : Bool) (c : Coroutine) → is_running ((finished thrown c).state) ≡ false
finished-not_running true c = refl
finished-not_running false c = refl

pub finish_run-Steady : (thrown : Bool) (t : Thread) → IsSteady t → Steady (finish_run thrown t)
unfolding finish_run switch_back
finish_run-Steady thrown t s =
    rw (Steady, finish_run, s.current, s.first)
      (record {
        first = s.first;
        current = ap some (sym s.return_to);
        one = λ j.
            runs-back (finished thrown) t s (finished-not_running thrown) j
            ∙ ap (λ k. j == k) (sym s.return_to);
        return_to = s.return_to;
      })

runs-again :
    (cs : List Coroutine) (j : ℕ)
    → 0 < length cs
    → runs (update (with_state running_state) 0 cs) j ≡ (j == 0)
    → runs (update (with_state running_state) 0 (update (with_state running_state) 0 cs)) j
      ≡ (j == 0)
runs-again cs j lt h = ground (
  arith,
  h,
  runs-update (with_state running_state) true 0 (update (with_state running_state) 0 cs) j
      (λ d. refl) (omega (arith, length-update (with_state running_state) 0 cs, lt)),
)

pub yield-Steady : (t : Thread) → IsSteady t → Steady (yield t)
unfolding yield switch_back
yield-Steady t s = elim (Bool-cases (t.executing == 0)) [
  | inl h ↦ rw (Steady, yield, s.current, s.first, h) tt
  | inr h ↦
      let left = update (with_state yield_state) t.executing t.cos in
      rw (Steady, yield, s.current, s.first, h)
        (record {
          first = s.first;
          current = ap some (sym s.return_to);
          one = λ j.
              runs-again left j
                (omega (
                  arith,
                  length-update (with_state yield_state) t.executing t.cos,
                  first-length t s,
                ))
                (runs-back (with_state yield_state) t s (λ c. refl) j)
              ∙ ap (λ k. j == k) (sym s.return_to);
          return_to = s.return_to;
        })
]

-- What reset leaves.
abbrev pub WasReset : Option (Bool × Thread) → Type 0
WasReset none = Unit
WasReset (some (b, u)) = IsSteady u

can_reset-not_running : (s : State) → can_reset s ≡ true → is_running s ≡ false
can_reset-not_running init_state e = refl
can_reset-not_running terminal_state e = refl
can_reset-not_running except_state e = refl
can_reset-not_running running_state e = absurd (cc)
can_reset-not_running yield_state e = refl

pub reset-WasReset : (i fn : ℕ) (t : Thread) → IsSteady t → WasReset (reset i fn t)
unfolding reset
reset-WasReset i fn t s = elim (Option-cases (get_elem? t.cos i)) [
  | inl e ↦ rw (WasReset, reset, e) tt
  | inr (c, e) ↦ elim (Bool-cases (not c.has_stack)) [
    | inl n ↦ rw (WasReset, reset, e, n) tt
    | inr n ↦ elim (Bool-cases (can_reset c.state)) [
      | inl r ↦
          let at = runs-get_elem? t.cos i c e in
          let off = can_reset-not_running c.state r in
          rw (WasReset, reset, e, n, r)
            (record {
              first = s.first;
              current = s.current;
              one = λ j. ground (
                arith,
                s.one j,
                s.one i,
                at.1,
                off,
                runs-update (λ d. record d { fn = some fn; id = t.last_id + 1; state = init_state })
                    false i t.cos j (λ d. refl) at.0,
              );
              return_to = s.return_to;
            })
      | inr r ↦ rw (WasReset, reset, e, n, r) s
    ]
  ]
]
