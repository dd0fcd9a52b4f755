-- ===== src/Tests/Coroutine.antt =====
-- Concrete runs of src/coroutine.cc.
use tiger.Base.{true, Option, none, some, ◌≡◌, refl, arith}
use tiger.Coroutine.States.{
  Coroutine, Thread, new_thread, create, resume, yield, with_main, init_state,
}
use tiger.Coroutine.Running.{runs}
use tiger.Coroutine.Steady.{IsSteady}
use tiger.Coroutine.Reach.{Reach, start, next, created, resumed, Reach-IsSteady}
use tiger.Coroutine.Nested.{yield-resume_nested}

abbrev two_cos : Thread
two_cos = create 128 6 0 (create 128 5 0 new_thread)

two_cos_reached : Reach two_cos
two_cos_reached = next (start 128 5 0) (created 128 6 0) refl

abbrev thread_of : Option Thread → Thread
thread_of none = new_thread
thread_of (some t) = t

abbrev first_co : Coroutine
first_co = record { id = 2; state = init_state; has_stack = true; stack_size = 128; fn = some 5 }

abbrev second_co : Coroutine
second_co = record { id = 3; state = init_state; has_stack = true; stack_size = 128; fn = some 6 }

abbrev in_first : Thread
in_first = thread_of (resume 1 two_cos)

in_first_reached : Reach in_first
unfolding create with_main resume
in_first_reached = next two_cos_reached (resumed 1 refl) refl

Reach-IsSteady_example : IsSteady in_first
Reach-IsSteady_example = Reach-IsSteady in_first in_first_reached

yield-resume_nested_example :
    (u : Thread) × (v : Thread) × (resume 2 in_first ≡ some u)
    × (runs u.cos 2 ≡ true)
    × (runs u.cos in_first.executing ≡ true)
    × (yield u ≡ some v)
    × (v.executing ≡ in_first.executing)
    × (v.running ≡ some 0)
    × (yield v ≡ none)
unfolding create with_main resume
yield-resume_nested_example =
    yield-resume_nested in_first 2 second_co in_first_reached (ground arith) (ground arith) refl
      refl
