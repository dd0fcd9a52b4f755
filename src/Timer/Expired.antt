-- ===== src/Timer/Expired.antt =====
-- src/timer.cc: which timers are due, and how long the next one is away.
use tiger.Base.{ℕ, suc, ◌+◌, ◌≤◌, ◌<◌, false, List, [], ◌∷◌, ◌++◌, All, arith}
use tiger.Base.{some, ltb, Bool-cases, ltb→lt}
use tiger.Base.{◌≡◌, refl, ap, inl, inr}
use tiger.Timer.Manager.{Timer, TimerManager, expired_timers, left_time, next_timer_left_time}
use tiger.Timer.Sorted.{Behind, IsSorted}

module _ {ℓ} {C : Type ℓ} where
  Behind-later :
      (heap : ℕ → Timer C) (t now : ℕ) (ps : List ℕ)
      → now < t
      → Behind heap t ps
      → All (λ q. now < (heap q).next_time) ps
  unfolding Behind
  Behind-later heap t now [] h b = tt
  Behind-later heap t now (p ∷ ps) h b = (omega (arith, b.0), Behind-later heap t now ps h b.1)

  -- A list that a time splits into what is due and what is not.
  pub Split : (ℕ → Timer C) → ℕ → List ℕ → List ℕ → List ℕ → Type 0
  Split heap now ps due rest =
      (ps ≡ due ++ rest)
      × All (λ q. (heap q).next_time ≤ now) due
      × All (λ q. now < (heap q).next_time) rest

  -- In a set in order, all_expired_cbs takes the timers whose time has come, and no other.
  pub expired_timers_lem :
      (heap : ℕ → Timer C) (now : ℕ) (ps : List ℕ)
      → IsSorted heap ps
      → (rest : List ℕ) × Split heap now ps (expired_timers heap now ps) rest
  unfolding expired_timers IsSorted Split
  expired_timers_lem heap now [] h = ([], (refl, tt, tt))
  expired_timers_lem heap now (p ∷ ps) h = elim (Bool-cases (ltb now ((heap p).next_time))) [
    | inl e ↦
        let lt = ltb→lt now ((heap p).next_time) e in
        rw e (p ∷ ps, (refl, tt, (lt, Behind-later heap _ now ps lt h.0)))
    | inr e ↦
        let (rest, (same, due, later)) = expired_timers_lem heap now ps h.1 in
        rw e (rest, (ap (◌∷◌ p) same, (due_now p e, due), later))
  ]
    where
      due_now : (p : ℕ) → ltb now ((heap p).next_time) ≡ false → (heap p).next_time ≤ now
      due_now p e = ground arith

  ahead :
      (heap : ℕ → Timer C) (t u : ℕ) (ps : List ℕ)
      → u ≤ t
      → Behind heap t ps
      → All (λ q. u ≤ (heap q).next_time) ps
  unfolding Behind
  ahead heap t u [] h b = tt
  ahead heap t u (p ∷ ps) h b = (omega (arith, b.0), ahead heap t u ps h b.1)

  left_time_lem :
      (heap : ℕ → Timer C) (now k : ℕ) (ps : List ℕ)
      → IsSorted heap ps
      → left_time heap now ps ≡ some (suc k)
      → All (λ q. now + suc k ≤ (heap q).next_time) ps
  unfolding left_time IsSorted
  left_time_lem heap now k [] h e = tt
  left_time_lem heap now k (p ∷ ps) h e =
      let le : now + suc k ≤ (heap p).next_time = ground arith in (le, ahead heap _ _ ps le h.0)

  -- When next_timer_left_time gives a time above 0, no timer of a set in order is due before it.
  next_timer_left_time_lem :
      (now k : ℕ) (s : TimerManager C)
      → IsSorted s.heap s.timers
      → next_timer_left_time now s ≡ some (suc k)
      → All (λ q. now + suc k ≤ (s.heap q).next_time) s.timers
  unfolding next_timer_left_time
  next_timer_left_time_lem now k s h e = left_time_lem s.heap now k s.timers h e
