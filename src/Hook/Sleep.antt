-- ===== src/Hook/Sleep.antt =====
-- src/hook.cc: sleep, usleep and nanosleep. A coroutine and its thread are what a timer schedules; `p` is
-- the address of the new timer and `now` the time.
use tiger.Base.{ℕ, zero, suc, ◌+◌, ◌*◌, ◌/◌, ◌%◌, ◌^◌, ◌<◌, Bool, true, false, not, if◌then◌else◌}
use tiger.Base.{◌≡◌, refl, ap, arith}
use tiger.Timer.Manager.{TimerManager, add_timer}

-- The system's function is called, or the coroutine has yielded with its timer set.
pub data Sleep : Type 0 where
  native : Sleep
  sleeping : TimerManager (ℕ × ℕ) → Sleep
  endless : Sleep

-- The timer of any of the three.
unfoldable pub sleep_for : ℕ → ℕ × ℕ → ℕ → ℕ → TimerManager (ℕ × ℕ) → Sleep
unfolding add_timer
sleep_for interval waiter p now timers = sleeping (add_timer p interval waiter false now timers)

-- An unsigned int of 32 bits.
unfoldable pub sleep : Bool → ℕ → ℕ × ℕ → ℕ → ℕ → TimerManager (ℕ × ℕ) → Sleep
unfolding sleep_for
sleep enabled seconds waiter p now timers =
    if not enabled then native else sleep_for (seconds * 1000 % 2 ^ 32) waiter p now timers

unfoldable pub usleep : Bool → ℕ → ℕ × ℕ → ℕ → ℕ → TimerManager (ℕ × ℕ) → Sleep
unfolding sleep_for
usleep enabled usec waiter p now timers =
    if not enabled then native else sleep_for usec waiter p now timers

-- Without the hook the function calls itself; the fuel is the number of calls.
unfoldable pub nanosleep : ℕ → Bool → ℕ × ℕ → ℕ × ℕ → ℕ → ℕ → TimerManager (ℕ × ℕ) → Sleep
unfolding sleep_for
nanosleep zero enabled time waiter p now timers = endless
nanosleep (suc fuel) enabled time waiter p now timers =
    let again = nanosleep fuel enabled time waiter p now timers in
    if not enabled then again else sleep_for (time.0 * 1000 + time.1 / 10000000) waiter p now timers

-- With the hook, for n with 1000 * n below 2^32: nanosleep of n seconds sets the same timer as sleep of
-- n seconds; but so does usleep of 1000 * n microseconds, which are n milliseconds; and nanosleep of
-- n times ten milliseconds sets the timer that usleep sets for n.
sleep_units :
    (n fuel : ℕ) (waiter : ℕ × ℕ) (p now : ℕ) (timers : TimerManager (ℕ × ℕ))
    → 1000 * n < 2 ^ 32
    → (nanosleep (suc fuel) true (n, 0) waiter p now timers ≡ sleep true n waiter p now timers)
      × (usleep true (1000 * n) waiter p now timers ≡ sleep true n waiter p now timers)
      × (nanosleep (suc fuel) true (0, n * 10000000) waiter p now timers
          ≡ usleep true n waiter p now timers)
unfolding sleep usleep nanosleep
sleep_units n fuel waiter p now timers h = (
  ap (λ i. sleep_for i waiter p now timers) (omega arith),
  ap (λ i. sleep_for i waiter p now timers) (omega arith),
  ap (λ i. sleep_for i waiter p now timers) (omega arith),
)

-- Without the hook nanosleep never returns: no number of calls is enough.
nanosleep_unhooked :
    (fuel : ℕ) (time waiter : ℕ × ℕ) (p now : ℕ) (timers : TimerManager (ℕ × ℕ))
    → nanosleep fuel false time waiter p now timers ≡ endless
unfolding nanosleep
nanosleep_unhooked zero time waiter p now timers = refl
nanosleep_unhooked (suc fuel) time waiter p now timers =
    nanosleep_unhooked fuel time waiter p now timers
