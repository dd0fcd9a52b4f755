-- ===== src/Tests/Scheduler.antt =====
-- Concrete runs of src/scheduler.cc.
use tiger.Base.{List, ◌∷◌, [], false, not, some, ◌≡◌, ◌⊎◌, ◌++◌, refl, All}
use tiger.Scheduler.Tasks.{Task, Scheduler, picked, nothing, pick, is_empty}
use tiger.Scheduler.Order.{First, IsForOther, pick_lem}

abbrev tasks : List Task
tasks = record { co = some 1; thread_id = 8 } ∷ record { co = some 2; thread_id = 0 } ∷ []

abbrev pinned : Scheduler
pinned = record {
  use_main_thread = false;
  thread_cnt = 2;
  main_thread_id = 1;
  is_stopping = false;
  is_stopped = false;
  idle_cnt = 1;
  tasks = record { co = some 1; thread_id = 8 } ∷ [];
  posts = 0;
}

pick_lem_example :
    (All (IsForOther 7) tasks × (pick 7 tasks ≡ nothing (not (is_empty tasks))))
    ⊎ ((f : First 7 tasks) × (pick 7 tasks
          ≡ picked f.task f.co (f.before ++ f.behind) (not (is_empty f.before))))
pick_lem_example = pick_lem 7 tasks ((1, refl), ((2, refl), tt))
