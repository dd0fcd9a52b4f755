-- ===== src/Tests/Timer.antt =====
-- src/timer.cc on concrete inputs: the callbacks are numbers.
use tiger.Base.{ℕ, true, false, List, [], ◌∷◌, some, ◌≡◌, refl}
use tiger.Timer.Manager.{
  TimerManager, new_timer, comparator, add_timer, all_expired_cbs, next_timer_left_time,
  expired_timers, expire,
}
use tiger.Timer.Sorted.{IsSorted, Without, add_timer-IsSorted, all_expired_cbs-IsSorted}
use tiger.Timer.Expired.{Split, expired_timers_lem}

abbrev empty : TimerManager ℕ
empty = record { timers = []; heap = λ p. new_timer 0 0 false 0 0; timer_id = 0; refreshes = 0 }

-- A timer of 10 ms that loops, at the address 2, and one of 30 ms at the address 1.
abbrev two : TimerManager ℕ
two = add_timer 1 30 7 false 100 (add_timer 2 10 8 true 100 empty)

two_timers : two.timers ≡ 2 ∷ 1 ∷ []
unfolding add_timer comparator
two_timers = refl

one-Without : Without 1 ((add_timer 2 10 8 true 100 empty).timers)
unfolding add_timer
one-Without = (refl, tt)

seven_left : next_timer_left_time 103 two ≡ some 7
unfolding next_timer_left_time add_timer comparator new_timer
seven_left = refl

two-IsSorted : IsSorted two.heap two.timers
two-IsSorted =
    add_timer-IsSorted 1 30 7 false 100 (add_timer 2 10 8 true 100 empty) one-Without
      (add_timer-IsSorted 2 10 8 true 100 empty tt (unfold IsSorted in tt))

expired_run : (all_expired_cbs 110 [] two).0 ≡ some 8 ∷ []
unfolding all_expired_cbs add_timer comparator expire
expired_run = refl

all_expired_cbs-IsSorted_example :
    let s = (all_expired_cbs 120 [] two).1 in IsSorted s.heap s.timers
all_expired_cbs-IsSorted_example = all_expired_cbs-IsSorted 120 [] two two-IsSorted

expired_timers_lem_example :
    (rest : List ℕ) × Split two.heap 110 two.timers (expired_timers two.heap 110 two.timers) rest
expired_timers_lem_example = expired_timers_lem two.heap 110 two.timers two-IsSorted
