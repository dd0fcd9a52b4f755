-- ===== src/Scheduler/Order.antt =====
-- src/scheduler.cc: which task a thread picks, and that none is lost.
use tiger.Base.{ℕ, ◌+◌, Bool, true, false, not, ◌&&◌, ◌||◌, List, [], ◌∷◌, ◌++◌}
use tiger.Base.{some, ltb, ◌==◌, if◌then◌else◌, ◌≡◌, ◌⊎◌, refl, ap, ◌∙◌}
use tiger.Base.{Bool-cases, inl, inr, All}
use tiger.Scheduler.Tasks.{
  Task, Scheduler, is_empty, tickle, schedule, picked, nothing, is_for_other, pick, resumes,
  tickle_if, run_round,
}

abbrev pub IsForOther : ℕ → Task → Type 0
IsForOther current t = is_for_other current t ≡ true

-- A task with a coroutine.
abbrev pub HasCo : Task → Type 0
HasCo t = (co : ℕ) × (t.co ≡ some co)

-- The first task that is not for another thread, with what stands before and behind it.
pub record First (current : ℕ) (tasks : List Task) : Type 0 where
  pub before : List Task
  pub task : Task
  pub co : ℕ
  pub behind : List Task
  pub split : tasks ≡ before ++ (task ∷ behind)
  pub others : All (IsForOther current) before
  pub mine : is_for_other current task ≡ false
  pub has_co : task.co ≡ some co

-- Of tasks that all have a coroutine, run picks the first that is not for another thread and leaves all
-- the others in their order, and wants a tickle if it has passed one; or all are for other threads, it
-- picks nothing, and wants a tickle unless there is none.
pub pick_lem :
    (current : ℕ) (tasks : List Task)
    → All HasCo tasks
    → (All (IsForOther current) tasks × (pick current tasks ≡ nothing (not (is_empty tasks))))
      ⊎ ((f : First current tasks) × (pick current tasks
            ≡ picked f.task f.co (f.before ++ f.behind) (not (is_empty f.before))))
unfolding pick
pick_lem current [] h = inl (tt, refl)
pick_lem current (t ∷ ts) h = elim (Bool-cases (is_for_other current t)) [
  | inr mine ↦ inr (
    record {
      before = [];
      task = t;
      co = h.0.0;
      behind = ts;
      split = refl;
      others = tt;
      mine = mine;
      has_co = h.0.1;
    },
    rw (mine, h.0.1)
        (ap (λ o. picked (record { co = o; thread_id = t.thread_id }) h.0.0 ts false) h.0.1),
  )
  | inl other ↦ elim (pick_lem current ts h.1) [
    | inl n ↦ inl ((other, n.0), rw (other, n.1) refl)
    | inr (f, e) ↦ inr (
      record {
        before = t ∷ f.before;
        task = f.task;
        co = f.co;
        behind = f.behind;
        split = ap (λ l. t ∷ l) f.split;
        others = (other, f.others);
        mine = f.mine;
        has_co = f.has_co;
      },
      rw (other, e) refl,
    )
  ]
]

pick-append :
    (current co thread : ℕ) (tasks : List Task)
    → All (IsForOther current) tasks
    → is_for_other current (record { co = some co; thread_id = thread }) ≡ false
    → pick current (tasks ++ (record { co = some co; thread_id = thread } ∷ []))
      ≡ picked (record { co = some co; thread_id = thread }) co tasks (not (is_empty tasks))
unfolding pick
pick-append current co thread [] others mine = rw mine refl
pick-append current co thread (t ∷ ts) others mine =
    rw (others.0, pick-append current co thread ts others.1 mine) refl

-- A tickle changes the semaphore alone.
tickle-posts : (s : Scheduler) → (n : ℕ) × (tickle s ≡ record s { posts = n })
unfolding tickle
tickle-posts s = elim (Bool-cases (s.idle_cnt == 0)) [
  | inl e ↦ (s.posts, rw e refl)
  | inr e ↦ (s.posts + 1, rw e refl)
]

tickle_if-posts : (b : Bool) (s : Scheduler) → (n : ℕ) × (tickle_if b s ≡ record s { posts = n })
tickle_if-posts true s = tickle-posts s
tickle_if-posts false s = (s.posts, refl)

schedule_lem :
    (co thread : ℕ) (s : Scheduler)
    → s.is_stopping ≡ false
    → (n : ℕ) × (schedule (some co) thread s ≡ (
      true,
      record s { tasks = s.tasks ++ (record { co = some co; thread_id = thread } ∷ []); posts = n },
    ))
unfolding schedule
schedule_lem co thread s running =
    let s' : Scheduler = record s {
      tasks = s.tasks ++ (record { co = some co; thread_id = thread } ∷ []);
    } in
    let (n, e) = tickle_if-posts (is_empty s.tasks && ltb 0 s.idle_cnt) s' in
    (
      n,
      ap
            (λ b.
              if b then (false, s) else (true, tickle_if (is_empty s.tasks && ltb 0 s.idle_cnt) s'))
            running
          ∙ ap (λ u. (true, u)) e,
    )

run_round-picked :
    (ready : ℕ → Bool) (current co : ℕ) (t : Task) (rest : List Task) (need : Bool) (s : Scheduler)
    → pick current s.tasks ≡ picked t co rest need
    → ready co ≡ true
    → (n : ℕ) × (run_round ready current s
        ≡ some (resumes co, record s { tasks = rest; posts = n }))
unfolding run_round
run_round-picked ready current co t rest need s e can =
    let (n, h) =
      tickle_if-posts (need || (not (is_empty rest) && ltb 0 s.idle_cnt))
        (record s { tasks = rest }) in
    (n, rw (run_round, e, can) (ap (λ u. some (resumes co, u)) h))

-- When a scheduler is not stopping and all its tasks are for other threads than the current one, a
-- coroutine that is scheduled for any thread or the current one, and can be resumed, is what the
-- current thread resumes in its next round of run; after that only the semaphore may differ from
-- before.
run_round-schedule :
    (ready : ℕ → Bool) (current co thread : ℕ) (s : Scheduler)
    → s.is_stopping ≡ false
    → All (IsForOther current) s.tasks
    → is_for_other current (record { co = some co; thread_id = thread }) ≡ false
    → ready co ≡ true
    → (n : ℕ) × (run_round ready current ((schedule (some co) thread s).1)
        ≡ some (resumes co, record s { posts = n }))
run_round-schedule ready current co thread s running others mine can =
    let (n, e) = schedule_lem co thread s running in
    let (m, h) =
      run_round-picked ready current co _ s.tasks _
        (record s {
          tasks = s.tasks ++ (record { co = some co; thread_id = thread } ∷ []);
          posts = n;
        })
        (pick-append current co thread s.tasks others mine) can in
    (m, ap (λ p. run_round ready current p.1) e ∙ h)
