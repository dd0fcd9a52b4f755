-- ===== src/Tests/IoManager.antt =====
-- Concrete runs of the events of src/iomanager.cc. Callbacks are numbers here.
use tiger.Base.{ℕ, ◌+◌, ◌∷◌, [], true, false, ◌≡◌, refl, none, some}
use tiger.IoManager.Events.{
  IoManager, Context, Outcome, read_event, write_event, result, fault, resume_co, new_context,
  add_event, del_event, cancel_event, new_manager, at_fd, work_of, is_waiting, cancel_tested,
  call_back,
}
use tiger.Base.Int.{pos}
use tiger.IoManager.Counted.{IsCounted, waiting}
use tiger.IoManager.Race.{cancel_event_twice}
use tiger.IoManager.Reach.{add, start, next, Reach-IsCounted}
use tiger.IoManager.Trigger.{add_event-cancel_event, del_event-cancel_event}

abbrev both_set : Context ℕ
both_set = record {
  fd = 1;
  statuses = record { read = true; write = true };
  reading = record { armed = true; thread_id = 0; co = none; cb = some 7 };
  writing = record { armed = true; thread_id = 3; co = some 9; cb = none };
}

abbrev two : IoManager ℕ
two = record { contexts = new_context 0 ∷ both_set ∷ []; appending = 2; scheduled = [] }

abbrev outcome_of : Outcome ℕ → IoManager ℕ
outcome_of (result b m) = m
outcome_of fault = two

abbrev grown : IoManager ℕ
grown = outcome_of (add_event 200 read_event (some 5) 0 0 true false new_manager)

grown_added : add_event 200 read_event (some 5) 0 0 true false new_manager ≡ result true grown
unfolding new_manager add_event
grown_added = refl

Reach-IsCounted_example : IsCounted grown
unfolding at_fd
Reach-IsCounted_example =
    Reach-IsCounted {lax = false} grown (
      next true start (add (pos 200) read_event (some 5) 0 0 true false tt (λ d. refl)) grown_added)

cancel_event_twice_example :
    (m' : IoManager ℕ) × (m'' : IoManager ℕ) × (is_waiting 1 read_event two ≡ true)
    × (cancel_tested 1 read_event false two ≡ result true m')
    × (cancel_event 1 read_event false m' ≡ result false m')
    × (cancel_tested 1 read_event false m' ≡ result true m'')
    × (m''.scheduled ≡ call_back (some 7) 0 ∷ [])
    × (m''.appending + 1 ≡ waiting m''.contexts)
unfolding work_of
cancel_event_twice_example = cancel_event_twice 1 read_event two both_set refl refl refl refl refl

add_event-cancel_event_example :
    (m' : IoManager ℕ) × (add_event 0 read_event none 4 2 true false two ≡ result true m')
    × (cancel_event 0 read_event false m'
        ≡ result true (record two { scheduled = resume_co 4 2 ∷ [] }))
add_event-cancel_event_example =
    add_event-cancel_event 0 read_event none 4 2 two (new_context 0) refl refl refl

del_event-cancel_event_example :
    (m' : IoManager ℕ) × (del_event 1 read_event false two ≡ result true m')
    × (cancel_event 1 write_event false m' ≡ fault)
del_event-cancel_event_example = del_event-cancel_event 1 two both_set refl refl refl
