-- ===== src/IoManager/Counted.antt =====
-- src/iomanager.cc: m_appending_event_cnt and the bits of the contexts.
use tiger.Base.{ℕ, zero, suc, ◌+◌, ◌-◌, ◌≤◌, Bool, true, false, List, [], ◌∷◌, ◌++◌}
use tiger.Base.{none, some, leb, if◌then◌else◌, length, get_elem?, set, arith, ◌≡◌, refl, ap}
use tiger.Base.{Bool-cases, inl, inr, length-append, length-set, leb→le}
use tiger.IoManager.Events.{
  EventStatus, read_event, write_event, has, with, without, EventContext, Context, Work, IoManager,
  put_event_context, new_contexts, fd_context_resize,
}

abbrev pub bit : Bool → ℕ
bit b = if b then 1 else 0

module _ {ℓ} {C : Type ℓ} where
  -- The events of a context, and those of all contexts.
  abbrev pub count : Context C → ℕ
  count c = bit c.statuses.read + bit c.statuses.write

  abbrev pub waiting : List (Context C) → ℕ
  waiting [] = 0
  waiting (c ∷ cs) = count c + waiting cs

  -- m_appending_event_cnt is the number of bits, and there is room for 128 descriptors.
  pub record IsCounted (m : IoManager C) : Type 0 where
    pub counted : m.appending ≡ waiting m.contexts
    pub room : 128 ≤ length m.contexts

  waiting-append : (cs ds : List (Context C)) → waiting (cs ++ ds) ≡ waiting cs + waiting ds
  waiting-append [] ds = omega arith
  waiting-append (c ∷ cs) ds = omega (arith, waiting-append cs ds)

waiting-new_contexts {ℓ} : (C : Type ℓ) (n fd : ℕ) → waiting (new_contexts {C = C} n fd) ≡ 0
unfolding new_contexts
waiting-new_contexts C zero fd = refl
waiting-new_contexts C (suc n) fd = omega (arith, waiting-new_contexts C n (fd + 1))

length-new_contexts {ℓ} : (C : Type ℓ) (n fd : ℕ) → length (new_contexts {C = C} n fd) ≡ n
unfolding new_contexts
length-new_contexts C zero fd = refl
length-new_contexts C (suc n) fd = omega (arith, length-new_contexts C n (fd + 1))

module _ {ℓ} {C : Type ℓ} where
  -- A context that is replaced changes the sum by its own events.
  pub waiting-set :
      (cs : List (Context C)) (fd : ℕ) (c d : Context C)
      → get_elem? cs fd ≡ some c
      → waiting (set cs fd d) + count c ≡ waiting cs + count d
  waiting-set [] fd c d e = absurd (cc)
  waiting-set (b ∷ cs) zero c d e =
      let h : count b ≡ count c = ap (λ x. elim x [ none ↦ 0 | some a ↦ count a ]) e in
      omega (arith, h)
  waiting-set (b ∷ cs) (suc fd) c d e = omega (arith, waiting-set cs fd c d e)

  pub fd_context_resize-IsCounted :
      (size : ℕ) (m : IoManager C)
      → m.appending ≡ waiting m.contexts
      → let m' = fd_context_resize size m in
        (m'.appending ≡ waiting m'.contexts)
        × (size ≤ length m'.contexts)
        × (length m.contexts ≤ length m'.contexts)
        × (m'.appending ≡ m.appending)
        × (m'.scheduled ≡ m.scheduled)
  unfolding fd_context_resize
  fd_context_resize-IsCounted size m e = elim (Bool-cases (leb size (length m.contexts))) [
    | inl t ↦ rw t (e, leb→le size (length m.contexts) t, omega arith, refl, refl)
    | inr t ↦
        let n = size - length m.contexts in
        let le : length m.contexts ≤ size = ground arith in
        rw t (
          omega (
            arith,
            waiting-append m.contexts (new_contexts n (length m.contexts)),
            waiting-new_contexts C n (length m.contexts),
          ),
          omega (
            arith,
            length-append m.contexts (new_contexts {C = C} n (length m.contexts)),
            length-new_contexts C n (length m.contexts),
          ),
          omega (arith, length-append m.contexts (new_contexts {C = C} n (length m.contexts))),
          refl,
          refl,
        )
  ]

  -- A bit that is set or cleared.
  pub count-with :
      (c : Context C) (s : EventStatus) (e : EventContext C)
      → has c.statuses s ≡ false
      → count (put_event_context s e (record c { statuses = with c.statuses s })) ≡ count c + 1
  count-with c read_event e h = ground arith
  count-with c write_event e h = ground arith

  pub count-without :
      (c : Context C) (s : EventStatus) (e : EventContext C)
      → has c.statuses s ≡ true
      → count (put_event_context s e (record c { statuses = without c.statuses s })) + 1 ≡ count c
  count-without c read_event e h = ground arith
  count-without c write_event e h = ground arith

  -- Storing a context with `n` events more or less, and the counter with it.
  pub stored-IsCounted :
      (m : IoManager C) (fd n : ℕ) (c d : Context C) (work : List (Work C))
      → IsCounted m
      → get_elem? m.contexts fd ≡ some c
      → m.appending + count d ≡ n + count c
      → IsCounted (record m { contexts = set m.contexts fd d; appending = n; scheduled = work })
  stored-IsCounted m fd n c d work v e h = record {
    counted = omega (arith, waiting-set m.contexts fd c d e, v.counted);
    room = omega (arith, length-set m.contexts fd d, v.room);
  }
