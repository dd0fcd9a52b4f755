-- ===== src/Timer/Sorted.antt =====
-- src/timer.cc: the set stays in the order of the timers' next times.
use tiger.Base.{ℕ, ◌≤◌, Bool, true, false, List, [], ◌∷◌, All, arith}
use tiger.Base.{Option, ◌==◌, Bool-cases, inl, inr}
use tiger.Base.{◌≡◌, refl}
use tiger.Timer.Manager.{
  Timer, TimerManager, found, erase, comparator, insert, update, add_timer, reset_timer,
  cancel_timer, expire, expire_loop, all_expired_cbs, expired_timers,
}

-- The pointer `p` is not in the list.
abbrev pub Without : ℕ → List ℕ → Type 0
Without p = All (λ q. (q == p) ≡ false)

erase-Without : (p : ℕ) (ps : List ℕ) → Without p (erase ps p)
unfolding erase
erase-Without p [] = tt
erase-Without p (q ∷ qs) = elim (Bool-cases (q == p)) [
  | inl e ↦ rw e (erase-Without p qs)
  | inr e ↦ rw e (e, erase-Without p qs)
]

found-Without : (ps : List ℕ) (p : ℕ) → found ps p ≡ false → Without p ps
unfolding found
found-Without [] p h = tt
found-Without (q ∷ qs) p h = elim (Bool-cases (q == p)) [
  | inl e ↦ absurd (cc)
  | inr e ↦ (e, found-Without qs p (rw e at h))
]

module _ {ℓ} {C : Type ℓ} where
  -- No timer of the list is before `t`.
  unfoldable pub Behind : (ℕ → Timer C) → ℕ → List ℕ → Type 0
  Behind heap t ps = All (λ q. t ≤ (heap q).next_time) ps

  unfoldable pub IsSorted : (ℕ → Timer C) → List ℕ → Type 0
  unfolding Behind
  IsSorted heap [] = Unit {0}
  IsSorted heap (p ∷ ps) = Behind heap ((heap p).next_time) ps × IsSorted heap ps

  Behind-weaken :
      (heap : ℕ → Timer C) (t u : ℕ) (ps : List ℕ) → u ≤ t → Behind heap t ps → Behind heap u ps
  unfolding Behind
  Behind-weaken heap t u [] h b = tt
  Behind-weaken heap t u (p ∷ ps) h b = (omega (arith, b.0), Behind-weaken heap t u ps h b.1)

  comparator_le :
      (heap : ℕ → Timer C) (p q : ℕ)
      → ((comparator heap p q ≡ true) → (heap p).next_time ≤ (heap q).next_time)
        × ((comparator heap p q ≡ false) → (heap q).next_time ≤ (heap p).next_time)
  unfolding comparator
  comparator_le heap p q = (λ e. ground arith, λ e. ground arith)

  insert-Behind :
      (heap : ℕ → Timer C) (t p : ℕ) (ps : List ℕ)
      → t ≤ (heap p).next_time
      → Behind heap t ps
      → Behind heap t (insert heap p ps)
  unfolding Behind insert
  insert-Behind heap t p [] h b = (h, tt)
  insert-Behind heap t p (q ∷ qs) h b = elim (Bool-cases (comparator heap p q)) [
    | inl e ↦ rw e (h, b)
    | inr e ↦ elim (Bool-cases (q == p)) [
      | inl f ↦ rw e (rw f b)
      | inr f ↦ rw e (rw f (b.0, insert-Behind heap t p qs h b.1))
    ]
  ]

  pub insert-IsSorted :
      (heap : ℕ → Timer C) (p : ℕ) (ps : List ℕ)
      → IsSorted heap ps
      → IsSorted heap (insert heap p ps)
  unfolding insert IsSorted
  insert-IsSorted heap p [] h = (unfold Behind in tt, tt)
  insert-IsSorted heap p (q ∷ qs) h = elim (Bool-cases (comparator heap p q)) [
    | inl e ↦
        let le = (comparator_le heap p q).0 e in
        rw e ((unfold Behind in (le, Behind-weaken heap _ _ qs le h.0)), h)
    | inr e ↦ elim (Bool-cases (q == p)) [
      | inl f ↦ rw e (rw f h)
      | inr f ↦ rw e (
          rw f (
            insert-Behind heap _ p qs ((comparator_le heap p q).1 e) h.0,
            insert-IsSorted heap p qs h.1,
          ))
    ]
  ]

  erase-Behind :
      (heap : ℕ → Timer C) (t p : ℕ) (ps : List ℕ) → Behind heap t ps → Behind heap t (erase ps p)
  unfolding Behind erase
  erase-Behind heap t p [] b = tt
  erase-Behind heap t p (q ∷ qs) b = elim (Bool-cases (q == p)) [
    | inl e ↦ rw e (erase-Behind heap t p qs b.1)
    | inr e ↦ rw e (b.0, erase-Behind heap t p qs b.1)
  ]

  erase-IsSorted :
      (heap : ℕ → Timer C) (p : ℕ) (ps : List ℕ) → IsSorted heap ps → IsSorted heap (erase ps p)
  unfolding IsSorted erase
  erase-IsSorted heap p [] h = tt
  erase-IsSorted heap p (q ∷ qs) h = elim (Bool-cases (q == p)) [
    | inl e ↦ rw e (erase-IsSorted heap p qs h.1)
    | inr e ↦ rw e (erase-Behind heap _ p qs h.0, erase-IsSorted heap p qs h.1)
  ]

  -- The two heaps have the same next times for the pointers of the list.
  abbrev Agree : (ℕ → Timer C) → (ℕ → Timer C) → List ℕ → Type 0
  Agree heap heap' = All (λ q. (heap' q).next_time ≡ (heap q).next_time)

  Agree-Behind :
      (heap heap' : ℕ → Timer C) (t : ℕ) (ps : List ℕ)
      → Agree heap heap' ps
      → Behind heap t ps
      → Behind heap' t ps
  unfolding Behind
  Agree-Behind heap heap' t [] a b = tt
  Agree-Behind heap heap' t (p ∷ ps) a b =
      (omega (arith, a.0, b.0), Agree-Behind heap heap' t ps a.1 b.1)

  Agree-IsSorted :
      (heap heap' : ℕ → Timer C) (ps : List ℕ)
      → Agree heap heap' ps
      → IsSorted heap ps
      → IsSorted heap' ps
  unfolding IsSorted
  Agree-IsSorted heap heap' [] a h = tt
  Agree-IsSorted heap heap' (p ∷ ps) a h =
      (rw (a.0) (Agree-Behind heap heap' _ ps a.1 h.0), Agree-IsSorted heap heap' ps a.1 h.1)

  update-Without :
      (heap : ℕ → Timer C) (p : ℕ) (t : Timer C) (ps : List ℕ)
      → Without p ps
      → Agree heap (update heap p t) ps
  unfolding update
  update-Without heap p t [] w = tt
  update-Without heap p t (q ∷ qs) w = (
    elim (Bool-cases (q == p)) [ inl e ↦ absurd (cc) | inr e ↦ rw e refl ],
    update-Without heap p t qs w.1,
  )

  -- The timer at `p` is set again, not in the set or in its place.
  changed-IsSorted :
      (heap : ℕ → Timer C) (p : ℕ) (t : Timer C) (ps : List ℕ)
      → Without p ps
      → IsSorted heap ps
      → IsSorted (update heap p t) (insert (update heap p t) p ps)
  changed-IsSorted heap p t ps w h =
      insert-IsSorted (update heap p t) p ps
        (Agree-IsSorted heap (update heap p t) ps (update-Without heap p t ps w) h)

  erased-IsSorted :
      (heap : ℕ → Timer C) (p : ℕ) (t : Timer C) (ps : List ℕ)
      → IsSorted heap ps
      → IsSorted (update heap p t) (erase ps p)
  erased-IsSorted heap p t ps h =
      Agree-IsSorted heap (update heap p t) (erase ps p)
        (update-Without heap p t (erase ps p) (erase-Without p ps)) (erase-IsSorted heap p ps h)

  -- add_timer keeps the set in the order of the next times; the timer's address is new.
  pub add_timer-IsSorted :
      (p interval : ℕ) (cb : C) (loop : Bool) (now : ℕ) (s : TimerManager C)
      → Without p s.timers
      → IsSorted s.heap s.timers
      → let s' = add_timer p interval cb loop now s in IsSorted s'.heap s'.timers
  unfolding add_timer
  add_timer-IsSorted p interval cb loop now s w h = changed-IsSorted s.heap p _ s.timers w h

  -- reset_timer keeps the set in order, for a timer in the set and for one that it puts back.
  pub reset_timer-IsSorted :
      (p interval : ℕ) (s : TimerManager C)
      → IsSorted s.heap s.timers
      → let s' = reset_timer p interval s in IsSorted s'.heap s'.timers
  unfolding reset_timer
  reset_timer-IsSorted p interval s h = elim (Bool-cases ((s.heap p).interval == interval)) [
    | inl e ↦ rw e h
    | inr e ↦ elim (Bool-cases (found s.timers p)) [
      | inl f ↦ rw e (
          rw f (
            changed-IsSorted s.heap p _ (erase s.timers p) (erase-Without p s.timers)
              (erase-IsSorted s.heap p s.timers h)))
      | inr f ↦ rw e (rw f (changed-IsSorted s.heap p _ s.timers (found-Without s.timers p f) h))
    ]
  ]

  -- cancel_timer keeps the set in order; when it says that it cancelled, the timer is out of the set.
  pub cancel_timer-IsSorted :
      (p : ℕ) (s : TimerManager C)
      → IsSorted s.heap s.timers
      → let s' = (cancel_timer p s).1 in IsSorted s'.heap s'.timers × Without p s'.timers
  unfolding cancel_timer
  cancel_timer-IsSorted p s h = elim (Bool-cases (found s.timers p)) [
    | inl f ↦ rw f (erased-IsSorted s.heap p _ s.timers h, erase-Without p s.timers)
    | inr f ↦ rw f (h, found-Without s.timers p f)
  ]

  expire-IsSorted :
      (now p : ℕ) (s : TimerManager C)
      → IsSorted s.heap s.timers
      → let s' = expire now p s in IsSorted s'.heap s'.timers
  unfolding expire
  expire-IsSorted now p s h = elim (Bool-cases ((s.heap p).loop)) [
    | inl e ↦ rw e (
        changed-IsSorted s.heap p _ (erase s.timers p) (erase-Without p s.timers)
          (erase-IsSorted s.heap p s.timers h))
    | inr e ↦ rw e (erased-IsSorted s.heap p _ s.timers h)
  ]

  expire_loop-IsSorted :
      (now : ℕ) (ps : List ℕ) (cbs : List (Option C)) (s : TimerManager C)
      → IsSorted s.heap s.timers
      → let s' = (expire_loop now ps cbs s).1 in IsSorted s'.heap s'.timers
  unfolding expire_loop
  expire_loop-IsSorted now [] cbs s h = h
  expire_loop-IsSorted now (p ∷ ps) cbs s h =
      expire_loop-IsSorted now ps _ (expire now p s) (expire-IsSorted now p s h)

  -- all_expired_cbs keeps the set in order, with the timers that loop put in again.
  pub all_expired_cbs-IsSorted :
      (now : ℕ) (cbs : List (Option C)) (s : TimerManager C)
      → IsSorted s.heap s.timers
      → let s' = (all_expired_cbs now cbs s).1 in IsSorted s'.heap s'.timers
  unfolding all_expired_cbs
  all_expired_cbs-IsSorted now cbs s h =
      expire_loop-IsSorted now (expired_timers s.heap now s.timers) cbs s h
