-- ===== src/Coroutine/Reach.antt =====
-- src/coroutine.cc: the threads that are reached when only the main coroutine resumes others.
use mathlib.Core.Path.{subst}
use tiger.Base.{ℕ, Bool}
use tiger.Base.{Option, some, ◌≡◌, ◌≢◌}
use tiger.Coroutine.States.{Thread, new_thread, create, resume, yield, finish_run, reset}
use tiger.Coroutine.Steady.{
  IsSteady, Steady, WasReset, start-IsSteady, create-IsSteady, resume-Steady, finish_run-Steady,
  yield-Steady, reset-WasReset,
}

-- What a thread does: the main coroutine resumes another, which yields, ends or throws; any creates
-- and resets coroutines.
pub data Step (t : Thread) : Option Thread → Type 0 where
  created : (configured fn size : ℕ) → Step t (some (create configured fn size t))
  resumed : (i : ℕ) → t.executing ≡ 0 → Step t (resume i t)
  yielded : Step t (yield t)
  ended : (thrown : Bool) → t.executing ≢ 0 → Step t (finish_run thrown t)
  was_reset : (i fn : ℕ) (b : Bool) (u : Thread) → reset i fn t ≡ some (b, u) → Step t (some u)

-- A thread that has created a coroutine, and went on.
pub data Reach : Thread → Type 0 where
  start : (configured fn size : ℕ) → Reach (create configured fn size new_thread)
  next : {t u : Thread} {o : Option Thread} → Reach t → Step t o → o ≡ some u → Reach u

Step-Steady : {t : Thread} {o : Option Thread} → IsSteady t → Step t o → Steady o
Step-Steady {t} s (created configured fn size) = create-IsSteady configured fn size t s
Step-Steady {t} s (resumed i main) = resume-Steady i t s main
Step-Steady {t} s yielded = yield-Steady t s
Step-Steady {t} s (ended thrown other) = finish_run-Steady thrown t s
Step-Steady {t} s (was_reset i fn b u e) = subst WasReset e (reset-WasReset i fn t s)

-- In every thread that has created a coroutine and in which only the main coroutine resumes others,
-- whatever yields, ends, throws, is created or reset, and as long as no assertion fails: exactly one
-- coroutine is in the state RUNNING, it is s_t_running_co, and its stack is the one in use.
pub Reach-IsSteady : (t : Thread) → Reach t → IsSteady t
Reach-IsSteady t (start configured fn size) = start-IsSteady configured fn size
Reach-IsSteady t (next r s e) = subst Steady e (Step-Steady (Reach-IsSteady _ r) s)
