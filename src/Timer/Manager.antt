-- ===== src/Timer/Manager.antt =====
-- src/timer.h and src/timer.cc: TimerManager, its set of timers and the heap that they live in.
-- A pointer to a timer is a number, and `m_timers` a list in the order of the Comparator. `now` is what
-- Millisecond() gives at the call. Each method holds `m_lock`, and is one step.
use tiger.Base.{ℕ, suc, ◌+◌, ◌-◌, Bool, true, false, List, [], ◌∷◌, ◌++◌}
use tiger.Base.{Option, none, some, ltb, leb, ◌==◌, if◌then◌else◌}

-- `cb` is `none` for an empty std::function.
pub record Timer {ℓ} (C : Type ℓ) : Type ℓ where
  pub id : ℕ
  pub interval : ℕ
  pub loop : Bool
  pub next_time : ℕ
  pub cb : Option C

-- `refreshes` counts the calls of on_timer_refresh, and `timer_id` is s_timer_id.
pub record TimerManager {ℓ} (C : Type ℓ) : Type ℓ where
  pub timers : List ℕ
  pub heap : ℕ → Timer C
  pub timer_id : ℕ
  pub refreshes : ℕ

-- `m_timers.find(timer) != m_timers.end()`: two pointers are equivalent for the Comparator when they
-- are the same.
unfoldable pub found : List ℕ → ℕ → Bool
found [] p = false
found (q ∷ qs) p = if q == p then true else found qs p

-- `m_timers.find(timer) == m_timers.begin()`, for a timer in the set.
unfoldable pub is_first : List ℕ → ℕ → Bool
is_first [] p = false
is_first (q ∷ qs) p = q == p

unfoldable pub erase : List ℕ → ℕ → List ℕ
erase [] p = []
erase (q ∷ qs) p = let rest = erase qs p in if q == p then rest else q ∷ rest

module _ {ℓ} {C : Type ℓ} where
  -- Timer::Timer.
  unfoldable pub new_timer : ℕ → ℕ → Bool → C → ℕ → Timer C
  new_timer id ms loop cb now = record {
    id = id;
    interval = ms;
    loop = loop;
    next_time = now + ms;
    cb = some cb;
  }

  -- The Comparator, for pointers that are not null.
  unfoldable pub comparator : (ℕ → Timer C) → ℕ → ℕ → Bool
  comparator heap l r =
      if ltb ((heap r).next_time) ((heap l).next_time)
      then false
      else if ltb ((heap l).next_time) ((heap r).next_time)
      then true
      else ltb l r

  unfoldable pub insert : (ℕ → Timer C) → ℕ → List ℕ → List ℕ
  unfolding comparator
  insert heap p [] = p ∷ []
  insert heap p (q ∷ qs) =
      let rest = insert heap p qs in
      if comparator heap p q then p ∷ q ∷ qs else if q == p then q ∷ qs else q ∷ rest

  unfoldable pub update : (ℕ → Timer C) → ℕ → Timer C → ℕ → Timer C
  update heap p t q = if q == p then t else heap q

  abbrev pub refresh_if : Bool → TimerManager C → TimerManager C
  refresh_if b s = record s { refreshes = if b then suc s.refreshes else s.refreshes }

  -- add_timer; `p` is the address of the new timer.
  unfoldable pub add_timer : ℕ → ℕ → C → Bool → ℕ → TimerManager C → TimerManager C
  unfolding new_timer insert update is_first
  add_timer p interval cb loop now s =
      let heap' = update s.heap p (new_timer (suc s.timer_id) interval loop cb now) in
      let timers' = insert heap' p s.timers in
      refresh_if (is_first timers' p)
        (record s { timers = timers'; heap = heap'; timer_id = suc s.timer_id })

  -- add_cond_timer does not pass `loop` on; `guarded cond cb` is the bound cond_timer_callback.
  unfoldable pub add_cond_timer :
      {D : Type 0} → (D → C → C) → ℕ → ℕ → C → D → Bool → ℕ → TimerManager C → TimerManager C
  add_cond_timer guarded p interval cb cond loop now s =
      add_timer p interval (guarded cond cb) false now s

  unfoldable pub is_valid_timer : ℕ → TimerManager C → Bool
  unfolding found
  is_valid_timer p s = found s.timers p

  unfoldable pub reset_timer : ℕ → ℕ → TimerManager C → TimerManager C
  unfolding found insert update is_first erase
  reset_timer p interval s =
      let t = s.heap p in
      let heap' = update s.heap p (record t { interval = interval }) in
      let timers' =
        if found s.timers p then insert heap' p (erase s.timers p) else insert heap' p s.timers in
      if t.interval == interval
      then s
      else refresh_if (is_first timers' p) (record s { timers = timers'; heap = heap' })

  -- The null pointer is not found.
  unfoldable pub cancel_timer : ℕ → TimerManager C → Bool × TimerManager C
  unfolding found update is_first erase
  cancel_timer p s =
      let t = s.heap p in
      if found s.timers p
      then (
        true,
        refresh_if (is_first s.timers p) (record s {
          timers = erase s.timers p;
          heap = update s.heap p (record t { cb = none });
        }),
      )
      else (false, s)

  -- The loop of cancel_all_timer.
  unfoldable pub clear_callbacks : List ℕ → (ℕ → Timer C) → ℕ → Timer C
  unfolding update
  clear_callbacks [] heap = heap
  clear_callbacks (p ∷ ps) heap =
      let t = heap p in clear_callbacks ps (update heap p (record t { cb = none }))

  unfoldable pub cancel_all_timer : TimerManager C → TimerManager C
  unfolding clear_callbacks
  cancel_all_timer s =
      refresh_if true (record s { timers = []; heap = clear_callbacks s.timers s.heap })

  -- `~0` is -1 as a time_t, which `none` stands for.
  unfoldable pub left_time : (ℕ → Timer C) → ℕ → List ℕ → Option ℕ
  left_time heap now [] = none
  left_time heap now (p ∷ ps) =
      if leb ((heap p).next_time) now then some 0 else some ((heap p).next_time - now)

  unfoldable pub next_timer_left_time : ℕ → TimerManager C → Option ℕ
  unfolding left_time
  next_timer_left_time now s = left_time s.heap now s.timers

  -- The timers that all_expired_cbs takes.
  unfoldable pub expired_timers : (ℕ → Timer C) → ℕ → List ℕ → List ℕ
  expired_timers heap now [] = []
  expired_timers heap now (p ∷ ps) =
      let rest = expired_timers heap now ps in if ltb now ((heap p).next_time) then [] else p ∷ rest

  -- One round of its second loop, without the callback.
  unfoldable pub expire : ℕ → ℕ → TimerManager C → TimerManager C
  unfolding insert update erase
  expire now p s =
      let t = s.heap p in
      let heap' = update s.heap p (record t { next_time = t.interval + now }) in
      if t.loop
      then record s { timers = insert heap' p (erase s.timers p); heap = heap' }
      else record s { timers = erase s.timers p; heap = update s.heap p (record t { cb = none }) }

  unfoldable pub expire_loop :
      ℕ → List ℕ → List (Option C) → TimerManager C → List (Option C) × TimerManager C
  expire_loop now [] cbs s = (cbs, s)
  expire_loop now (p ∷ ps) cbs s = expire_loop now ps (cbs ++ (s.heap p).cb ∷ []) (expire now p s)

  -- all_expired_cbs, with what it appends to `cbs`.
  unfoldable pub all_expired_cbs :
      ℕ → List (Option C) → TimerManager C → List (Option C) × TimerManager C
  unfolding expired_timers expire_loop
  all_expired_cbs now cbs s = expire_loop now (expired_timers s.heap now s.timers) cbs s
