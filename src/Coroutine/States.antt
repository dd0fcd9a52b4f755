-- ===== src/Coroutine/States.antt =====
-- src/coroutine.h and src/coroutine.cc: the coroutines of a thread and what switches between them.
-- A coroutine is known by its place in `cos`, and none is destroyed. A function is a number. What
-- swapcontext saves and restores is `executing`, the coroutine whose stack is in use, and `saved`, the
-- one whose stack stands in the context of the main coroutine. A failed assertion is `none`.
use tiger.Base.{ℕ, zero, suc, ◌+◌, Bool, true, false, not, List, [], ◌∷◌, ◌++◌}
use tiger.Base.{Option, none, some, ◌==◌, if◌then◌else◌, length, get_elem?}

pub data State : Type 0 where
  init_state terminal_state except_state running_state yield_state : State

pub record Coroutine : Type 0 where
  pub id : ℕ
  pub state : State
  pub has_stack : Bool
  pub stack_size : ℕ
  pub fn : Option ℕ

-- s_t_running_co, s_t_main_co and s_co_id are `running`, `main` and `last_id`.
pub record Thread : Type 0 where
  pub cos : List Coroutine
  pub running : Option ℕ
  pub main : Option ℕ
  pub last_id : ℕ
  pub executing : ℕ
  pub saved : ℕ

abbrev pub new_thread : Thread
new_thread = record { cos = []; running = none; main = none; last_id = 0; executing = 0; saved = 0 }

-- A change of the coroutine at a place.
abbrev pub update : (Coroutine → Coroutine) → ℕ → List Coroutine → List Coroutine
update f i [] = []
update f zero (c ∷ cs) = f c ∷ cs
update f (suc i) (c ∷ cs) = c ∷ update f i cs

abbrev pub with_state : State → Coroutine → Coroutine
with_state s c = record c { state = s }

-- Coroutine(): the main coroutine.
unfoldable pub main_co : ℕ → Coroutine
main_co id = record { id = id; state = running_state; has_stack = false; stack_size = 0; fn = none }

unfoldable pub with_main : Thread → Thread
unfolding main_co
with_main t = elim t.main [
  | some k ↦ t
  | none ↦ record t {
    cos = t.cos ++ (main_co (t.last_id + 1) ∷ []);
    running = some (length t.cos);
    main = some (length t.cos);
    last_id = t.last_id + 1;
  }
]

-- Coroutine(fn, stack_size); `configured` is "tiger.coroutine.stackSize".
unfoldable pub create : ℕ → ℕ → ℕ → Thread → Thread
unfolding with_main
create configured fn stack_size t =
    let t' = with_main t in
    record t' {
      cos =
          t'.cos
          ++ (record {
            id = t'.last_id + 1;
            state = init_state;
            has_stack = true;
            stack_size = if stack_size == 0 then configured else stack_size;
            fn = some fn;
          }
              ∷ []);
      last_id = t'.last_id + 1;
    }

unfoldable pub cur_coroutine_id : Thread → ℕ
cur_coroutine_id t = elim t.running [
  | none ↦ 0
  | some r ↦ elim (get_elem? t.cos r) [ none ↦ 0 | some c ↦ c.id ]
]

unfoldable pub get_running_co : Thread → Option ℕ
get_running_co t = elim t.running [ none ↦ t.main | some r ↦ some r ]

abbrev pub can_resume : State → Bool
can_resume init_state = true
can_resume yield_state = true
can_resume terminal_state = false
can_resume except_state = false
can_resume running_state = false

abbrev pub can_reset : State → Bool
can_reset init_state = true
can_reset terminal_state = true
can_reset except_state = true
can_reset running_state = false
can_reset yield_state = false

-- resume up to its swapcontext, on a coroutine that is not the main one.
unfoldable pub resume : ℕ → Thread → Option Thread
resume i t = elim (get_elem? t.cos i) [
  | none ↦ none
  | some c ↦ elim t.main [
    | none ↦ none
    | some k ↦
        if can_resume c.state
        then some (record t {
          cos = update (with_state running_state) i (update (with_state yield_state) k t.cos);
          running = some i;
          executing = i;
          saved = t.executing;
        })
        else none
  ]
]

-- swapcontext to the context of the main coroutine `k`, and what resume does behind its swapcontext.
unfoldable pub switch_back : ℕ → Thread → Thread
switch_back k t = record t {
  cos = update (with_state running_state) k t.cos;
  running = some k;
  executing = t.saved;
}

-- Coroutine::Yield and yield.
unfoldable pub yield : Thread → Option Thread
unfolding switch_back
yield t = elim t.running [
  | none ↦ some t
  | some r ↦ elim t.main [
    | none ↦ none
    | some k ↦
        if r == k
        then none
        else some (
            switch_back k (record t {
              cos = update (with_state running_state) k (update (with_state yield_state) r t.cos);
              running = some k;
            }))
  ]
]

abbrev pub finished : Bool → Coroutine → Coroutine
finished true c = record c { state = except_state }
finished false c = record c { state = terminal_state; fn = none }

-- The end of Run, when the function has returned or thrown.
unfoldable pub finish_run : Bool → Thread → Option Thread
unfolding switch_back
finish_run thrown t = elim t.running [
  | none ↦ none
  | some r ↦ elim t.main [
    | none ↦ none
    | some k ↦ some (switch_back k (record t { cos = update (finished thrown) r t.cos }))
  ]
]

unfoldable pub reset : ℕ → ℕ → Thread → Option (Bool × Thread)
reset i fn t = elim (get_elem? t.cos i) [
  | none ↦ none
  | some c ↦
      let started : Coroutine → Coroutine =
        λ c. record c { fn = some fn; id = t.last_id + 1; state = init_state } in
      if not c.has_stack
      then none
      else if can_reset c.state
      then some (true, record t { cos = update started i t.cos; last_id = t.last_id + 1 })
      else some (false, t)
]
