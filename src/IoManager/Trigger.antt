-- ===== src/IoManager/Trigger.antt =====
-- src/iomanager.cc: an event from add_event to the work that its trigger schedules.
use tiger.Base.{ℕ, ◌+◌, ◌-◌, ◌<◌, Bool, true, false, ◌||◌, [], ◌∷◌, ◌++◌}
use tiger.Base.{Option, none, some, ap₂, length, get_elem?, set, arith, ◌≡◌, refl, ap, sym}
use tiger.Base.{lt→ltb, set-set_back, get_elem?-below}
use tiger.IoManager.Events.{
  Statuses, no_events, empty_context, EventStatus, read_event, write_event, has, with, EventContext,
  Context, Work, IoManager, result, fault, resume_co, call_back, get_event_context,
  put_event_context, trigger_event, work_of, fire, arm, room_for, add_waiter, add_to_context,
  add_event, del_from_context, del_event, cancel_event, real_status, handle_event, is_waiting,
  del_tested, cancel_tested,
}
use tiger.IoManager.Good.{get_elem?-set}

module _ {ℓ} {C : Type ℓ} where
  -- What a waiter is resumed by: its callback, on any thread, or the coroutine on its thread.
  abbrev pub waiter : Option C → ℕ → ℕ → Work C
  waiter (some cb) co thread = call_back (some cb) 0
  waiter none co thread = resume_co co thread

  abbrev pub statuses_of : Option (Context C) → Option Statuses
  statuses_of none = none
  statuses_of (some c) = some c.statuses

  -- The context with the waiter.
  abbrev armed_context : EventStatus → Option C → ℕ → ℕ → Context C → Context C
  armed_context s cb co thread c =
      put_event_context s (arm cb co thread true (get_event_context s c))
        (record c { statuses = with c.statuses s })

  has-armed_context :
      (s : EventStatus) (cb : Option C) (co thread : ℕ) (c : Context C)
      → has ((armed_context s cb co thread c).statuses) s ≡ true
  has-armed_context read_event cb co thread c = refl
  has-armed_context write_event cb co thread c = refl

  work_of-arm :
      (cb : Option C) (co thread : ℕ) (e : EventContext C)
      → e ≡ empty_context
      → work_of (arm cb co thread true e) ≡ waiter cb co thread
  unfolding work_of arm
  work_of-arm (some cb) co thread e h =
      ap
        (λ x. elim x.co [
          | some co ↦ resume_co co x.thread_id
          | none ↦ call_back (some cb) x.thread_id
        ])
        h
  work_of-arm none co thread e h = refl

  armed-arm :
      (cb : Option C) (co thread : ℕ) (e : EventContext C) → (arm cb co thread true e).armed ≡ true
  unfolding arm
  armed-arm (some cb) co thread e = refl
  armed-arm none co thread e = refl

  -- The trigger undoes what add_event did to the context.
  trigger_event-armed_context :
      (s : EventStatus) (cb : Option C) (co thread : ℕ) (c : Context C)
      → has c.statuses s ≡ false
      → get_event_context s c ≡ empty_context
      → trigger_event s (armed_context s cb co thread c) ≡ some (c, waiter cb co thread ∷ [])
  unfolding trigger_event
  trigger_event-armed_context read_event cb co thread c off e =
      rw (armed-arm cb co thread c.reading, work_of-arm cb co thread c.reading e)
        (ap₂
          (λ b x. some (
            record c { statuses = record { read = b; write = c.statuses.write }; reading = x },
            waiter cb co thread ∷ [],
          ))
          (sym off) (sym e))
  trigger_event-armed_context write_event cb co thread c off e =
      rw (armed-arm cb co thread c.writing, work_of-arm cb co thread c.writing e)
        (ap₂
          (λ b x. some (
            record c { statuses = record { read = c.statuses.read; write = b }; writing = x },
            waiter cb co thread ∷ [],
          ))
          (sym off) (sym e))

  -- The manager in which the waiter stands in the context.
  abbrev with_waiter : ℕ → EventStatus → Option C → ℕ → ℕ → Context C → IoManager C → IoManager C
  with_waiter fd s cb co thread c m = record m {
    contexts = set m.contexts fd (armed_context s cb co thread c);
    appending = m.appending + 1;
  }

  room_for_self : (fd : ℕ) (m : IoManager C) → fd < length m.contexts → room_for fd m ≡ m
  unfolding room_for
  room_for_self fd m h = rw (lt→ltb fd (length m.contexts) h) refl

  add_event_lem :
      (fd : ℕ) (s : EventStatus) (cb : Option C) (co thread : ℕ) (m : IoManager C) (c : Context C)
      → get_elem? m.contexts fd ≡ some c
      → has c.statuses s ≡ false
      → add_event fd s cb co thread true false m ≡ result true (with_waiter fd s cb co thread c m)
  unfolding add_event
  add_event_lem fd s cb co thread m c e off =
      rw (add_event, room_for_self fd m (get_elem?-below m.contexts fd c e))
        (rw (e, off, add_waiter, add_to_context) refl)

  fire-with_waiter :
      (fd : ℕ) (s : EventStatus) (cb : Option C) (co thread : ℕ) (m : IoManager C) (c : Context C)
      → get_elem? m.contexts fd ≡ some c
      → has c.statuses s ≡ false
      → get_event_context s c ≡ empty_context
      → fire fd s (armed_context s cb co thread c) (with_waiter fd s cb co thread c m)
        ≡ some (c, record m { scheduled = m.scheduled ++ (waiter cb co thread ∷ []) })
  unfolding fire
  fire-with_waiter fd s cb co thread m c e off free =
      let n : m.appending + 1 - 1 ≡ m.appending = omega arith in
      rw (trigger_event-armed_context s cb co thread c off free, fire)
        (ap₂
          (λ cs n. some (
            c,
            record m {
              contexts = cs;
              appending = n;
              scheduled = m.scheduled ++ (waiter cb co thread ∷ []);
            },
          ))
          (set-set_back m.contexts fd _ c e) n)

  get_elem?-with_waiter :
      (fd : ℕ) (s : EventStatus) (cb : Option C) (co thread : ℕ) (m : IoManager C) (c : Context C)
      → get_elem? m.contexts fd ≡ some c
      → get_elem? ((with_waiter fd s cb co thread c m).contexts) fd
        ≡ some (armed_context s cb co thread c)
  get_elem?-with_waiter fd s cb co thread m c e = get_elem?-set m.contexts fd c _ e

  -- When a descriptor has a context in which an event is not set and its EventContext is empty, and
  -- epoll_ctl succeeds, add_event on a thread of a scheduler followed by cancel_event of the event schedules the waiter exactly
  -- once, at the end: the callback if one was given, otherwise the coroutine on its thread. All else is
  -- as it was before add_event.
  pub add_event-cancel_event :
      (fd : ℕ) (s : EventStatus) (cb : Option C) (co thread : ℕ) (m : IoManager C) (c : Context C)
      → get_elem? m.contexts fd ≡ some c
      → has c.statuses s ≡ false
      → get_event_context s c ≡ empty_context
      → (m' : IoManager C) × (add_event fd s cb co thread true false m ≡ result true m')
        × (cancel_event fd s false m'
            ≡ result true (record m { scheduled = m.scheduled ++ (waiter cb co thread ∷ []) }))
  unfolding cancel_event is_waiting cancel_tested
  add_event-cancel_event fd s cb co thread m c e off free = (
    with_waiter fd s cb co thread c m,
    add_event_lem fd s cb co thread m c e off,
    rw
        (
          get_elem?-with_waiter fd s cb co thread m c e,
          has-armed_context s cb co thread c,
          fire-with_waiter fd s cb co thread m c e off free,
          cancel_event,
          is_waiting,
          cancel_tested,
        )
        refl,
  )

  -- When a descriptor has a context in which an event is not set and its EventContext is empty, and
  -- epoll_ctl succeeds, add_event on a thread of a scheduler followed by an epoll event from which the code derives the event that
  -- was added schedules the waiter exactly once, at the end: the callback if one was given, otherwise
  -- the coroutine on its thread. All else is as it was before add_event.
  pub add_event-handle_event :
      (fd : ℕ) (s : EventStatus) (cb : Option C) (co thread : ℕ) (m : IoManager C) (c : Context C)
      (epoll_in epoll_out hang_up : Bool)
      → get_elem? m.contexts fd ≡ some c
      → has c.statuses s ≡ false
      → get_event_context s c ≡ empty_context
      → real_status epoll_in epoll_out hang_up ≡ some s
      → (m' : IoManager C) × (add_event fd s cb co thread true false m ≡ result true m')
        × (handle_event fd epoll_in epoll_out hang_up false m'
            ≡ result true (record m { scheduled = m.scheduled ++ (waiter cb co thread ∷ []) }))
  unfolding handle_event
  add_event-handle_event fd s cb co thread m c epoll_in epoll_out hang_up e off free real = (
    with_waiter fd s cb co thread c m,
    add_event_lem fd s cb co thread m c e off,
    rw
        (
          get_elem?-with_waiter fd s cb co thread m c e,
          real,
          has-armed_context s cb co thread c,
          fire-with_waiter fd s cb co thread m c e off free,
          handle_event,
        )
        refl,
  )

  -- When neither event of a descriptor is set, add_event of READ followed by an epoll event with
  -- EPOLLERR, EPOLLHUP or EPOLLOUT, with or without EPOLLIN, schedules nothing and leaves READ set.
  add_event-handle_event_lost :
      (fd : ℕ) (cb : Option C) (co thread : ℕ) (m : IoManager C) (c : Context C)
      (epoll_in epoll_out hang_up failed : Bool)
      → get_elem? m.contexts fd ≡ some c
      → c.statuses ≡ no_events
      → epoll_out || hang_up ≡ true
      → (m' : IoManager C) × (add_event fd read_event cb co thread true false m ≡ result true m')
        × (handle_event fd epoll_in epoll_out hang_up failed m' ≡ result false m')
        × (m'.scheduled ≡ m.scheduled)
        × (statuses_of (get_elem? m'.contexts fd) ≡ some (with no_events read_event))
  unfolding handle_event real_status
  add_event-handle_event_lost fd cb co thread m c epoll_in epoll_out hang_up failed e none_set
        wrote =
      let off : c.statuses.read ≡ false = ap (λ s. s.read) none_set in
      let w : c.statuses.write ≡ false = ap (λ s. s.write) none_set in
      let found = get_elem?-with_waiter fd read_event cb co thread m c e in
      (
        with_waiter fd read_event cb co thread c m,
        add_event_lem fd read_event cb co thread m c e off,
        rw (found, wrote, w, handle_event, real_status) refl,
        refl,
        rw (found, w) refl,
      )

  -- When both events of a descriptor are set, del_event of READ succeeds and leaves WRITE set, but the
  -- cancel_event of WRITE that follows calls `schedule` through a null pointer.
  pub del_event-cancel_event :
      (fd : ℕ) (m : IoManager C) (c : Context C)
      → get_elem? m.contexts fd ≡ some c
      → has c.statuses read_event ≡ true
      → has c.statuses write_event ≡ true
      → (m' : IoManager C) × (del_event fd read_event false m ≡ result true m')
        × (cancel_event fd write_event false m' ≡ fault)
  unfolding del_event del_tested is_waiting del_from_context cancel_event cancel_tested fire
      trigger_event
  del_event-cancel_event fd m c e r w = (
    record m {
      contexts = set m.contexts fd (record c {
        statuses = record { read = false; write = c.statuses.write };
        writing = empty_context;
      });
      appending = m.appending - 1;
    },
    rw (e, r, w, del_event, is_waiting, del_tested, del_from_context) refl,
    rw
        (
          get_elem?-set m.contexts fd c _ e,
          w,
          cancel_event,
          is_waiting,
          cancel_tested,
          fire,
          trigger_event,
        )
        refl,
  )
