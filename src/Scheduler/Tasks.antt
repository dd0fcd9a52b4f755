-- ===== src/Scheduler/Tasks.antt =====
-- src/scheduler.h and src/scheduler.cc: Scheduler. A coroutine is a number, `none` a null pointer, and
-- a thread is its number, 0 for any. `posts` is how often m_semaphore was posted. The lock makes the
-- search for a task one step; a size_t wraps where it is decremented.
use tiger.Base.{ℕ, ◌+◌, ◌-◌, ◌%◌, ◌^◌, Bool, true, false, not, ◌&&◌, ◌||◌, List, [], ◌∷◌, ◌++◌}
use tiger.Base.{Option, none, some, map, ltb, ◌==◌, if◌then◌else◌}

pub record Task : Type 0 where
  pub co : Option ℕ
  pub thread_id : ℕ

pub record Scheduler : Type 0 where
  pub use_main_thread : Bool
  pub thread_cnt : ℕ
  pub main_thread_id : ℕ
  pub is_stopping : Bool
  pub is_stopped : Bool
  pub idle_cnt : ℕ
  pub tasks : List Task
  pub posts : ℕ

abbrev pub is_empty : List Task → Bool
is_empty [] = true
is_empty (t ∷ ts) = false

-- `--` on a size_t.
abbrev pub decrement : ℕ → ℕ
decrement n = (n + (2 ^ 64 - 1)) % 2 ^ 64

unfoldable pub new_scheduler : Bool → ℕ → ℕ → Scheduler
new_scheduler use_main_thread thread_cnt current = record {
  use_main_thread = use_main_thread;
  thread_cnt = if use_main_thread then decrement thread_cnt else thread_cnt;
  main_thread_id = current;
  is_stopping = false;
  is_stopped = true;
  idle_cnt = 0;
  tasks = [];
  posts = 0;
}

unfoldable pub tickle : Scheduler → Scheduler
tickle s = if s.idle_cnt == 0 then s else record s { posts = s.posts + 1 }

-- start: how many threads it creates, and whether this thread goes on with `run`.
unfoldable pub start : Scheduler → (ℕ × Bool) × Scheduler
start s =
    if not s.is_stopped || s.is_stopping
    then ((0, false), s)
    else ((s.thread_cnt, s.use_main_thread), record s { is_stopped = false; is_stopping = false })

unfoldable pub stop : Scheduler → Scheduler
unfolding tickle
stop s = if s.is_stopped then s else tickle (record s { is_stopping = true })

unfoldable pub schedules : List (Option ℕ) → ℕ → Scheduler → Bool × Scheduler
unfolding tickle
schedules cos thread s =
    let s' = record s {
      tasks = s.tasks ++ map (λ co. record { co = co; thread_id = thread }) cos;
    } in
    if s.is_stopping
    then (false, s)
    else (true, if is_empty s.tasks && ltb 0 s.idle_cnt then tickle s' else s')

unfoldable pub schedule : Option ℕ → ℕ → Scheduler → Bool × Scheduler
unfolding tickle
schedule co thread s =
    let s' = record s { tasks = s.tasks ++ (record { co = co; thread_id = thread } ∷ []) } in
    if s.is_stopping
    then (false, s)
    else (true, if is_empty s.tasks && ltb 0 s.idle_cnt then tickle s' else s')

-- What run finds in m_tasks: a task, the others and need_tickle; nothing; or a task without a
-- coroutine, behind which the erased iterator is used.
pub data Picked : Type 0 where
  picked : Task → ℕ → List Task → Bool → Picked
  nothing : Bool → Picked
  undefined : Picked

abbrev pub is_for_other : ℕ → Task → Bool
is_for_other current t = not (t.thread_id == 0) && not (t.thread_id == current)

abbrev pub pass : Task → Picked → Picked
pass t (picked u co rest need) = picked u co (t ∷ rest) true
pass t (nothing need) = nothing true
pass t undefined = undefined

unfoldable pub pick : ℕ → List Task → Picked
pick current [] = nothing false
pick current (t ∷ ts) =
    let later = pick current ts in
    if is_for_other current t
    then pass t later
    else elim t.co [ none ↦ undefined | some co ↦ picked t co ts false ]

-- What a round of run goes on to do. At `leaves` the loop has ended.
pub data Decision : Type 0 where
  resumes : ℕ → Decision
  refuses : ℕ → Decision
  idles again leaves : Decision

abbrev pub tickle_if : Bool → Scheduler → Scheduler
tickle_if need s = if need then tickle s else s

-- One round of run on the thread `current`; `ready` is whether the state of a coroutine is INIT or
-- YIELD.
unfoldable pub run_round : (ℕ → Bool) → ℕ → Scheduler → Option (Decision × Scheduler)
unfolding tickle pick
run_round ready current s = elim (pick current s.tasks) [
  | undefined ↦ none
  | picked t co rest need ↦
      let need' = need || (not (is_empty rest) && ltb 0 s.idle_cnt) in
      some
        (if ready co then resumes co else refuses co, tickle_if need' (record s { tasks = rest }))
  | nothing need ↦
      let need' = need || (not (is_empty s.tasks) && ltb 0 s.idle_cnt) in
      let s' = tickle_if need' s in
      if s.is_stopping
      then (if (current == s.main_thread_id) && not (s.thread_cnt == 0)
          then some (idles, s')
          else some (leaves, tickle (record s' { thread_cnt = decrement s'.thread_cnt })))
      else if need'
      then some (again, s')
      else some (idles, s')
]
