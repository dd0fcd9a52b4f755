-- ===== src/IoManager/Cancel.antt =====
-- src/iomanager.cc: contexts that are counted and ready, kept by the operations that trigger events.
use tiger.Base.{Option-cases, All-set, All-get_elem?, get_elem?-some}
use mathlib.Core.Logic.{Lift}
use tiger.Base.{ℕ, ◌-◌, ◌<◌, Bool, true, false, not, ◌||◌}
use tiger.Base.{Option, none, some, length, get_elem?, arith, ◌≡◌, refl, ap, ◌∙◌}
use tiger.Base.{Bool-cases, inl, inr}
use tiger.IoManager.Events.{
  empty_context, EventStatus, read_event, write_event, has, without, is_none, EventContext, Context,
  IoManager, get_event_context, put_event_context, trigger_event, fire, fire_if, finish,
  cancel_event, cancel_all_event, real_status, handle_event, is_waiting, cancel_tested,
  is_waiting_any, cancel_all_tested,
}
use tiger.IoManager.Counted.{count-without, stored-IsCounted}
use tiger.IoManager.Good.{IsReady, IsGood, Good, counted-positive, get_elem?-set}

module _ {ℓ} {C : Type ℓ} where
  -- What a trigger leaves, when the bit is set.
  abbrev Fired : Bool → ℕ → EventStatus → Context C → Option (Context C × IoManager C) → Type ℓ
  Fired lax fd s c none = Lift (lax ≡ true)
  Fired lax fd s c (some (c', m')) =
      IsGood lax m' × (get_elem? m'.contexts fd ≡ some c') × (c'.statuses ≡ without c.statuses s)

  trigger_event-IsReady :
      (lax : Bool) (s : EventStatus) (c : Context C)
      → IsReady lax c
      → IsReady lax
          (put_event_context s empty_context (record c { statuses = without c.statuses s }))
  trigger_event-IsReady lax read_event c r = λ d. (λ h. absurd (cc), (r d).1)
  trigger_event-IsReady lax write_event c r = λ d. ((r d).0, λ h. absurd (cc))

  disarmed :
      (lax : Bool) (s : EventStatus) (c : Context C)
      → IsReady lax c
      → has c.statuses s ≡ true
      → (get_event_context s c).armed ≡ false
      → lax ≡ true
  disarmed true s c r on off = refl
  disarmed false read_event c r on off = absurd (cc ((r refl).0 on))
  disarmed false write_event c r on off = absurd (cc ((r refl).1 on))

  put_statuses :
      (s : EventStatus) (e : EventContext C) (c : Context C)
      → (put_event_context s e c).statuses ≡ c.statuses
  put_statuses read_event e c = refl
  put_statuses write_event e c = refl

  fire-Fired :
      (lax : Bool) (fd : ℕ) (s : EventStatus) (c : Context C) (m : IoManager C)
      → IsGood lax m
      → get_elem? m.contexts fd ≡ some c
      → has c.statuses s ≡ true
      → Fired lax fd s c (fire fd s c m)
  unfolding fire trigger_event
  fire-Fired lax fd s c m g e on =
      let ready = All-get_elem? _ m.contexts fd g.ready e in
      elim (Bool-cases (get_event_context s c).armed) [
        | inl t ↦
            rw (on, t, Fired, fire, trigger_event)
              (
                record {
                  counts = stored-IsCounted m fd (m.appending - 1) c _ _ g.counts e (
                      omega (
                        arith,
                        count-without c s (empty_context {C = C}) on,
                        counted-positive m fd c _ g.counts e
                            (count-without c s (empty_context {C = C}) on),
                      ));
                  ready = All-set _ m.contexts fd _ g.ready (trigger_event-IsReady lax s c ready);
                },
                get_elem?-set m.contexts fd c _ e,
                put_statuses s _ _,
              )
        | inr t ↦
            rw (on, t, Fired, fire, trigger_event) (record { lower = disarmed lax s c ready on t })
      ]

  finish-Good :
      (lax : Bool) (fd : ℕ) (s : EventStatus) (c : Context C) (x : Option (Context C × IoManager C))
      → Fired lax fd s c x
      → Good lax (finish x)
  finish-Good lax fd s c none f = f.lower
  finish-Good lax fd s c (some (c', m')) f = f.0

  pub cancel_event-Good :
      (lax : Bool) (fd : ℕ) (s : EventStatus) (failed : Bool) (m : IoManager C)
      → IsGood lax m
      → Good lax (cancel_event fd s failed m)
  unfolding cancel_event is_waiting cancel_tested
  cancel_event-Good lax fd s failed m g = elim (Option-cases (get_elem? m.contexts fd)) [
    | inl e ↦ rw (e, Good, cancel_event, is_waiting) g
    | inr (c, e) ↦ elim (Bool-cases (has c.statuses s)) [
      | inr off ↦ rw (e, off, Good, cancel_event, is_waiting) g
      | inl on ↦ elim (Bool-cases failed) [
        | inl t ↦ rw (e, on, t, Good, cancel_event, is_waiting, cancel_tested) g
        | inr t ↦
            rw (e, on, t, cancel_event, is_waiting, cancel_tested)
              (finish-Good lax fd s c _ (fire-Fired lax fd s c m g e on))
      ]
    ]
  ]

  pub handle_event-Good :
      (lax : Bool) (fd : ℕ) (epoll_in epoll_out hang_up failed : Bool) (m : IoManager C)
      → IsGood lax m
      → fd < length m.contexts
      → Good lax (handle_event fd epoll_in epoll_out hang_up failed m)
  unfolding handle_event
  handle_event-Good lax fd epoll_in epoll_out hang_up failed m g room =
      let (c, e) = get_elem?-some m.contexts fd room in
      elim (Option-cases (real_status epoll_in epoll_out hang_up)) [
        | inl r ↦ rw (e, r, Good, handle_event) g
        | inr (s, r) ↦ elim (Bool-cases (not (has c.statuses s) || failed)) [
          | inl t ↦ rw (e, r, t, Good, handle_event) g
          | inr t ↦
              let on : has c.statuses s ≡ true = ground arith in
              rw (e, r, t, handle_event) (finish-Good lax fd s c _ (fire-Fired lax fd s c m g e on))
        ]
      ]

  -- What the first trigger of cancel_all_event leaves for the second.
  abbrev Half : Bool → ℕ → Context C → Option (Context C × IoManager C) → Type ℓ
  Half lax fd c none = Lift (lax ≡ true)
  Half lax fd c (some (c', m')) =
      IsGood lax m' × (get_elem? m'.contexts fd ≡ some c') × (c'.statuses.write ≡ c.statuses.write)

  Fired-Half :
      (lax : Bool) (fd : ℕ) (c : Context C) (x : Option (Context C × IoManager C))
      → Fired lax fd read_event c x
      → Half lax fd c x
  Fired-Half lax fd c none f = f
  Fired-Half lax fd c (some (c', m')) f = (f.0, f.1, ap (λ s. s.write) f.2)

  first-Half :
      (lax : Bool) (fd : ℕ) (c : Context C) (m : IoManager C)
      → IsGood lax m
      → get_elem? m.contexts fd ≡ some c
      → (b : Bool) → c.statuses.read ≡ b
      → Half lax fd c (fire_if b fd read_event (some (c, m)))
  first-Half lax fd c m g e true r = Fired-Half lax fd c _ (fire-Fired lax fd read_event c m g e r)
  first-Half lax fd c m g e false r = (g, e, refl)

  second-Good :
      (lax : Bool) (fd : ℕ) (c : Context C) (x : Option (Context C × IoManager C))
      → Half lax fd c x
      → Good lax (finish (fire_if c.statuses.write fd write_event x))
  second-Good lax fd c none f = f.lower
  second-Good lax fd c (some (c', m')) f = elim (Bool-cases c.statuses.write) [
    | inl t ↦
        rw (t, finish)
          (finish-Good lax fd write_event c' _
            (fire-Fired lax fd write_event c' m' f.0 f.1 (f.2 ∙ t)))
    | inr t ↦ rw (t, finish, Good) f.0
  ]

  pub cancel_all_event-Good :
      (lax : Bool) (fd : ℕ) (failed : Bool) (m : IoManager C)
      → IsGood lax m
      → Good lax (cancel_all_event fd failed m)
  unfolding cancel_all_event is_waiting_any cancel_all_tested
  cancel_all_event-Good lax fd failed m g = elim (Option-cases (get_elem? m.contexts fd)) [
    | inl e ↦ rw (e, Good, cancel_all_event, is_waiting_any) g
    | inr (c, e) ↦ elim (Bool-cases (is_none c.statuses)) [
      | inl off ↦ rw (e, off, Good, cancel_all_event, is_waiting_any) g
      | inr on ↦ elim (Bool-cases failed) [
        | inl t ↦ rw (e, on, t, Good, cancel_all_event, is_waiting_any, cancel_all_tested) g
        | inr t ↦
            rw (e, on, t, cancel_all_event, is_waiting_any, cancel_all_tested)
              (second-Good lax fd c _ (first-Half lax fd c m g e c.statuses.read refl))
      ]
    ]
  ]
