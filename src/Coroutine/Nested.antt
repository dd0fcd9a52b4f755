-- ===== src/Coroutine/Nested.antt =====
-- src/coroutine.cc: a coroutine that is resumed and yields, and one that resumes another.
use tiger.Base.{ℕ, ◌<◌, true, false}
use tiger.Base.{
  none, some, ◌==◌, if◌then◌else◌, length, get_elem?, ◌≡◌, ◌≢◌, refl, ap, sym, ◌∙◌, arith,
}
use tiger.Coroutine.States.{
  State, running_state, yield_state, Coroutine, Thread, update, with_state, can_resume, resume,
  switch_back, yield,
}
use tiger.Coroutine.Running.{is_running, runs, runs-get_elem?, runs-update, length-update}
use tiger.Coroutine.Steady.{IsSteady, first-length}
use tiger.Coroutine.Reach.{Reach, Reach-IsSteady, next, resumed, yielded}

-- The threads behind resume and yield.
abbrev resumed_thread : ℕ → Thread → Thread
resumed_thread i t = record t {
  cos = update (with_state running_state) i (update (with_state yield_state) 0 t.cos);
  running = some i;
  executing = i;
  saved = t.executing;
}

abbrev yielded_thread : ℕ → Thread → Thread
yielded_thread i t = record t {
  cos =
      update (with_state running_state) 0
        (update (with_state running_state) 0 (update (with_state yield_state) i t.cos));
  running = some 0;
  executing = t.saved;
}

resume_lem :
    (t : Thread) (i : ℕ) (c : Coroutine)
    → t.main ≡ some 0
    → get_elem? t.cos i ≡ some c
    → can_resume c.state ≡ true
    → resume i t ≡ some (resumed_thread i t)
unfolding resume
resume_lem t i c first e h =
    rw (resume, e, first, h) (ap (λ m. some (record (resumed_thread i t) { main = m })) first)

yield_lem :
    (t : Thread) (i : ℕ)
    → t.running ≡ some i
    → t.main ≡ some 0
    → i ≢ 0
    → yield t ≡ some (yielded_thread i t)
unfolding yield switch_back
yield_lem t i running first other =
    let h : (i == 0) ≡ false = ground arith in
    rw (yield, running, first, h) (ap (λ m. some (record (yielded_thread i t) { main = m })) first)

yield-main : (t : Thread) → t.running ≡ some 0 → t.main ≡ some 0 → yield t ≡ none
unfolding yield
yield-main t running first = rw (yield, running, first) refl

can_resume-not_running : (s : State) → can_resume s ≡ true → is_running s ≡ false
can_resume-not_running State.init_state e = refl
can_resume-not_running State.terminal_state e = refl
can_resume-not_running State.except_state e = refl
can_resume-not_running State.running_state e = absurd (cc)
can_resume-not_running State.yield_state e = refl

-- A coroutine that can be resumed is not the one that is executing.
resumed-other :
    (t : Thread) (i : ℕ) (c : Coroutine)
    → IsSteady t
    → get_elem? t.cos i ≡ some c
    → can_resume c.state ≡ true
    → i ≢ t.executing
resumed-other t i c s e h =
    let off = can_resume-not_running c.state h in
    let at = runs-get_elem? t.cos i c e in ground (arith, s.one i, at.1, off)

runs-resumed :
    (t : Thread) (i j : ℕ)
    → i < length t.cos
    → 0 < length t.cos
    → runs (update (with_state running_state) i (update (with_state yield_state) 0 t.cos)) j
      ≡ (if j == i then true else if j == 0 then false else runs t.cos j)
runs-resumed t i j lt first =
    runs-update (with_state running_state) true i (update (with_state yield_state) 0 t.cos) j
      (λ c. refl) (omega (arith, length-update (with_state yield_state) 0 t.cos, lt))
    ∙ ap (λ b. if j == i then true else b)
        (runs-update (with_state yield_state) false 0 t.cos j (λ c. refl) first)

-- When the main coroutine of a reached thread resumes one that is INIT or YIELD, that one executes as
-- s_t_running_co; and when it yields, the main coroutine is executing again, s_t_running_co is what it
-- was, and the coroutines in the state RUNNING are those that were before.
yield-resume :
    (t : Thread) (i : ℕ) (c : Coroutine)
    → Reach t
    → t.executing ≡ 0
    → get_elem? t.cos i ≡ some c
    → can_resume c.state ≡ true
    → (u : Thread) × (v : Thread) × (resume i t ≡ some u)
      × (u.executing ≡ i)
      × (u.running ≡ some i)
      × (yield u ≡ some v)
      × (v.executing ≡ 0)
      × (v.running ≡ t.running)
      × ((j : ℕ) → runs v.cos j ≡ runs t.cos j)
yield-resume t i c r main e h =
    let s = Reach-IsSteady t r in
    let u = resumed_thread i t in
    let resumes = resume_lem t i c s.first e h in
    let other : i ≢ 0 = ground (arith, resumed-other t i c s e h) in
    let yields = yield_lem u i refl s.first other in
    let v = yielded_thread i u in
    let after = Reach-IsSteady v (next (next r (resumed i main) resumes) yielded yields) in
    (
      u,
      v,
      resumes,
      refl,
      refl,
      yields,
      main,
      sym (s.current ∙ ap some main),
      λ j. after.one j ∙ sym (s.one j),
    )

-- When a coroutine that is not the main one, in a reached thread, resumes another that is not the main
-- one either, both are in the state RUNNING; and when the other yields, the first is executing again,
-- but s_t_running_co is the main coroutine, so the assertion in its own next yield fails.
pub yield-resume_nested :
    (t : Thread) (i : ℕ) (c : Coroutine)
    → Reach t
    → t.executing ≢ 0
    → i ≢ 0
    → get_elem? t.cos i ≡ some c
    → can_resume c.state ≡ true
    → (u : Thread) × (v : Thread) × (resume i t ≡ some u)
      × (runs u.cos i ≡ true)
      × (runs u.cos t.executing ≡ true)
      × (yield u ≡ some v)
      × (v.executing ≡ t.executing)
      × (v.running ≡ some 0)
      × (yield v ≡ none)
yield-resume_nested t i c r nested other e h =
    let s = Reach-IsSteady t r in
    let u = resumed_thread i t in
    let v = yielded_thread i u in
    let lt = (runs-get_elem? t.cos i c e).0 in
    let first = first-length t s in
    (
      u,
      v,
      resume_lem t i c s.first e h,
      ground (arith, runs-resumed t i i lt first),
      ground (arith, runs-resumed t i t.executing lt first, s.one t.executing),
      yield_lem u i refl s.first other,
      refl,
      refl,
      yield-main v refl s.first,
    )
