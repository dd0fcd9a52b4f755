-- ===== src/IoManager/Good.antt =====
-- src/iomanager.cc: contexts that are counted and ready, kept by add_event and del_event.
use tiger.Base.{Option-cases, All, All-set, All-append, All-get_elem?, get_elem?-some}
use tiger.Base.{ℕ, zero, suc, ◌+◌, ◌-◌, ◌*◌, ◌/◌, ◌≤◌, ◌<◌, Bool, true, false, ◌||◌, List, [], ◌∷◌}
use tiger.Base.{Option, none, some, leb, ltb, length, get_elem?, set, arith, ◌≡◌, refl}
use tiger.Base.{Bool-cases, inl, inr, ltb→lt}
use tiger.IoManager.Events.{
  EventStatus, read_event, write_event, has, with, Context, IoManager, Outcome, result, fault,
  get_event_context, put_event_context, new_contexts, fd_context_resize, arm, room_for, add_waiter,
  add_to_context, add_event, del_from_context, del_event, is_waiting, del_tested,
}
use tiger.IoManager.Counted.{
  IsCounted, count, waiting, waiting-set, fd_context_resize-IsCounted, count-with, stored-IsCounted,
}

module _ {ℓ} {C : Type ℓ} where
  -- Unless `lax`, a context whose bit is set has the scheduler to resume its waiter.
  abbrev pub IsReady : Bool → Context C → Type 0
  IsReady lax c =
      lax ≡ false
      → (c.statuses.read ≡ true → c.reading.armed ≡ true)
        × (c.statuses.write ≡ true → c.writing.armed ≡ true)

  pub record IsGood (lax : Bool) (m : IoManager C) : Type 0 where
    pub counts : IsCounted m
    pub ready : All (IsReady lax) m.contexts

  -- A good outcome is a good manager, or a fault where `lax`.
  abbrev pub Good : Bool → Outcome C → Type 0
  Good lax (result b m) = IsGood lax m
  Good lax fault = lax ≡ true

  pub get_elem?-set :
      (cs : List (Context C)) (i : ℕ) (c d : Context C)
      → get_elem? cs i ≡ some c
      → get_elem? (set cs i d) i ≡ some d
  get_elem?-set [] i c d e = absurd (cc)
  get_elem?-set (b ∷ cs) zero c d e = refl
  get_elem?-set (b ∷ cs) (suc i) c d e = get_elem?-set cs i c d e

new_contexts-IsReady {ℓ} :
    (C : Type ℓ) (lax : Bool) (n fd : ℕ) → All (IsReady lax) (new_contexts {C = C} n fd)
unfolding new_contexts
new_contexts-IsReady C lax zero fd = tt
new_contexts-IsReady C lax (suc n) fd =
    (λ d. (λ h. absurd (cc), λ h. absurd (cc)), new_contexts-IsReady C lax n (fd + 1))

module _ {ℓ} {C : Type ℓ} where
  pub fd_context_resize-IsReady :
      (lax : Bool) (size : ℕ) (m : IoManager C)
      → m.appending ≡ waiting m.contexts
      → All (IsReady lax) m.contexts
      → All (IsReady lax) ((fd_context_resize size m).contexts)
  unfolding fd_context_resize
  fd_context_resize-IsReady lax size m e h = elim (Bool-cases (leb size (length m.contexts))) [
    | inl t ↦ rw t h
    | inr t ↦ rw t (All-append _ m.contexts _ h (new_contexts-IsReady C lax _ _))
  ]

  add_to_context-IsReady :
      (lax : Bool) (s : EventStatus) (cb : Option C) (co thread : ℕ) (sched : Bool) (c : Context C)
      → (lax ≡ false → sched ≡ true)
      → IsReady lax c
      → IsReady lax (
          put_event_context s
            (arm cb co thread sched (get_event_context s c))
            (record c { statuses = with c.statuses s }))
  unfolding arm
  add_to_context-IsReady lax read_event (some cb) co thread sched c ok r = λ d. (λ h. ok d, (r d).1)
  add_to_context-IsReady lax read_event none co thread sched c ok r = λ d. (λ h. ok d, (r d).1)
  add_to_context-IsReady lax write_event (some cb) co thread sched c ok r =
      λ d. ((r d).0, λ h. ok d)
  add_to_context-IsReady lax write_event none co thread sched c ok r = λ d. ((r d).0, λ h. ok d)

  -- An operation that cannot fault.
  abbrev pub Returns : Bool → Outcome C → Type 0
  Returns lax (result b m) = IsGood lax m
  Returns lax fault = ⊥

  add_waiter-Returns :
      (lax : Bool) (fd : ℕ) (s : EventStatus) (cb : Option C) (co thread : ℕ) (sched failed : Bool)
      (m : IoManager C)
      → (lax ≡ false → sched ≡ true)
      → IsGood lax m
      → fd < length m.contexts
      → Returns lax (add_waiter fd s cb co thread sched failed m)
  unfolding add_waiter add_to_context
  add_waiter-Returns lax fd s cb co thread sched failed m ok g room =
      let (c, e) = get_elem?-some m.contexts fd room in
      let ready = All-get_elem? _ m.contexts fd g.ready e in
      elim (Bool-cases (has c.statuses s || failed)) [
        | inl t ↦
            rw (e, t, Returns, add_waiter, add_to_context)
              (record {
                counts = stored-IsCounted m fd m.appending c c m.scheduled g.counts e refl;
                ready = All-set _ m.contexts fd c g.ready ready;
              })
        | inr t ↦
            let off : has c.statuses s ≡ false = ground arith in
            rw (e, t, Returns, add_waiter, add_to_context)
              (record {
                counts = stored-IsCounted m fd (m.appending + 1) c _ m.scheduled g.counts e (
                    omega
                      (arith, count-with c s (arm cb co thread sched (get_event_context s c)) off));
                ready =
                    All-set _ m.contexts fd _ g.ready
                      (add_to_context-IsReady lax s cb co thread sched c ok ready);
              })
      ]

  room_for-IsGood :
      (lax : Bool) (fd : ℕ) (m : IoManager C)
      → IsGood lax m
      → IsGood lax (room_for fd m) × (fd < length ((room_for fd m).contexts))
  unfolding room_for
  room_for-IsGood lax fd m g = elim (Bool-cases (ltb fd (length m.contexts))) [
    | inl t ↦ rw t (g, ltb→lt fd (length m.contexts) t)
    | inr t ↦
        let h = fd_context_resize-IsCounted (3 * fd / 2) m g.counts.counted in
        let big : length m.contexts ≤ fd = ground arith in
        rw t (
          record {
            counts = record { counted = h.0; room = omega (arith, h.2, g.counts.room) };
            ready = fd_context_resize-IsReady lax (3 * fd / 2) m g.counts.counted g.ready;
          },
          omega (arith, h.1, big, g.counts.room),
        )
  ]

  pub add_event-Returns :
      (lax : Bool) (fd : ℕ) (s : EventStatus) (cb : Option C) (co thread : ℕ) (sched failed : Bool)
      (m : IoManager C)
      → (lax ≡ false → sched ≡ true)
      → IsGood lax m
      → Returns lax (add_event fd s cb co thread sched failed m)
  unfolding add_event
  add_event-Returns lax fd s cb co thread sched failed m ok g =
      let h = room_for-IsGood lax fd m g in
      add_waiter-Returns lax fd s cb co thread sched failed (room_for fd m) ok h.0 h.1

  -- A context with an event counts in the sum.
  pub counted-positive :
      (m : IoManager C) (fd : ℕ) (c d : Context C)
      → IsCounted m
      → get_elem? m.contexts fd ≡ some c
      → count d + 1 ≡ count c
      → 1 ≤ m.appending
  counted-positive m fd c d v e h = omega (arith, waiting-set m.contexts fd c d e, v.counted, h)

  count-del_from_context :
      (s : EventStatus) (c : Context C)
      → has c.statuses s ≡ true
      → count (del_from_context s c) + 1 ≡ count c
  unfolding del_from_context
  count-del_from_context read_event c on = ground arith
  count-del_from_context write_event c on = ground arith

  pub del_event-Good :
      (fd : ℕ) (s : EventStatus) (failed : Bool) (m : IoManager C)
      → IsGood true m
      → Good true (del_event fd s failed m)
  unfolding del_event is_waiting del_tested
  del_event-Good fd s failed m g = elim (Option-cases (get_elem? m.contexts fd)) [
    | inl e ↦ rw (e, Good, del_event, is_waiting) g
    | inr (c, e) ↦ elim (Bool-cases (has c.statuses s)) [
      | inr off ↦ rw (e, off, Good, del_event, is_waiting) g
      | inl on ↦ elim (Bool-cases failed) [
        | inl t ↦ rw (e, on, t, Good, del_event, is_waiting, del_tested) g
        | inr t ↦
            rw (e, on, t, Good, del_event, is_waiting, del_tested)
              (record {
                counts = stored-IsCounted m fd (m.appending - 1) c _ m.scheduled g.counts e (
                    omega (
                      arith,
                      count-del_from_context s c on,
                      g.counts.counted,
                      counted-positive m fd c (del_from_context s c) g.counts e
                          (count-del_from_context s c on),
                    ));
                ready = All-set _ m.contexts fd _ g.ready (λ d. absurd (cc));
              })
      ]
    ]
  ]
