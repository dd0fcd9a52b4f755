-- ===== src/IoManager/Events.antt =====
-- src/iomanager.h and src/iomanager.cc: the contexts of IOManager and the operations on events.
-- `failed` is whether epoll_ctl gave an error. The set of bits EventStatus is a record of its bits
-- READ and WRITE. `m_contexts[fd]` with a negative descriptor is `at_fd`. cancel_event, del_event and
-- cancel_all_event test the bits before they take the context's lock (del_event takes none): each is the
-- test and what stands behind it, two steps between which other threads may run. An operation itself is
-- a call that no other one overlaps. Log lines are left out, and `scheduled` is what `schedule` got.
use tiger.Base.{
  ℕ, zero, suc, ◌+◌, ◌-◌, ◌*◌, ◌/◌, Bool, true, false, not, ◌&&◌, ◌||◌, List, [], ◌∷◌, ◌++◌,
}
use tiger.Base.Int.{ℤ, pos, negsuc}
use tiger.Base.{Option, none, some, leb, ltb, if◌then◌else◌, length, get_elem?, set}

pub record Statuses : Type 0 where
  pub read : Bool
  pub write : Bool

abbrev pub no_events : Statuses
no_events = record { read = false; write = false }

-- One of the two events.
pub data EventStatus : Type 0 where
  read_event write_event : EventStatus

-- `statuses & status`, `statuses | status` and `statuses & ~status`.
abbrev pub has : Statuses → EventStatus → Bool
has s read_event = s.read
has s write_event = s.write

abbrev pub with : Statuses → EventStatus → Statuses
with s read_event = record s { read = true }
with s write_event = record s { write = true }

abbrev pub without : Statuses → EventStatus → Statuses
without s read_event = record s { read = false }
without s write_event = record s { write = false }

abbrev pub is_none : Statuses → Bool
is_none s = not s.read && not s.write

-- EventContext: a coroutine and its thread, or a callback of type C. `armed` is that the pointer to
-- the scheduler is set.
pub record EventContext {ℓ} (C : Type ℓ) : Type ℓ where
  pub armed : Bool
  pub thread_id : ℕ
  pub co : Option ℕ
  pub cb : Option C

pub record Context {ℓ} (C : Type ℓ) : Type ℓ where
  pub fd : ℕ
  pub statuses : Statuses
  pub reading : EventContext C
  pub writing : EventContext C

-- What is passed to `schedule`: a coroutine or a callback (maybe empty), for a thread.
pub data Work {ℓ} (C : Type ℓ) : Type ℓ where
  resume_co : ℕ → ℕ → Work C
  call_back : Option C → ℕ → Work C

pub record IoManager {ℓ} (C : Type ℓ) : Type ℓ where
  pub contexts : List (Context C)
  pub appending : ℕ
  pub scheduled : List (Work C)

-- A call of `schedule` through a null pointer, or a context behind the vector, is `fault`.
pub data Outcome {ℓ} (C : Type ℓ) : Type ℓ where
  result : Bool → IoManager C → Outcome C
  fault : Outcome C

-- `real_status` of an epoll event: EPOLLERR and EPOLLHUP count as both, and the second test
-- overwrites the first.
unfoldable pub real_status : Bool → Bool → Bool → Option EventStatus
real_status epoll_in epoll_out hang_up =
    if epoll_out || hang_up then some write_event else if epoll_in then some read_event else none

module _ {ℓ} {C : Type ℓ} where
  abbrev pub empty_context : EventContext C
  empty_context = record { armed = false; thread_id = 0; co = none; cb = none }

  abbrev pub new_context : ℕ → Context C
  new_context fd = record {
    fd = fd;
    statuses = no_events;
    reading = empty_context;
    writing = empty_context;
  }

  abbrev pub get_event_context : EventStatus → Context C → EventContext C
  get_event_context read_event c = c.reading
  get_event_context write_event c = c.writing

  abbrev pub put_event_context : EventStatus → EventContext C → Context C → Context C
  put_event_context read_event e c = record c { reading = e }
  put_event_context write_event e c = record c { writing = e }

  unfoldable pub work_of : EventContext C → Work C
  work_of e = elim e.co [ some co ↦ resume_co co e.thread_id | none ↦ call_back e.cb e.thread_id ]

  -- trigger_event: the context after it, and the work, which is none when the bit is not set.
  unfoldable pub trigger_event : EventStatus → Context C → Option (Context C × List (Work C))
  unfolding work_of
  trigger_event status c =
      let e = get_event_context status c in
      let c' =
        put_event_context status empty_context
          (record c { statuses = without c.statuses status }) in
      if has c.statuses status
      then (if e.armed then some (c', work_of e ∷ []) else none)
      else some (c, [])

  -- New contexts from the number `fd` on.
  unfoldable pub new_contexts : ℕ → ℕ → List (Context C)
  new_contexts zero fd = []
  new_contexts (suc n) fd = new_context fd ∷ new_contexts n (fd + 1)

  unfoldable pub fd_context_resize : ℕ → IoManager C → IoManager C
  unfolding new_contexts
  fd_context_resize size m = if leb size (length m.contexts) then m else record m {
    contexts = m.contexts ++ new_contexts (size - length m.contexts) (length m.contexts);
  }

  -- IOManager's own part of its constructor.
  unfoldable pub new_manager : IoManager C
  unfolding fd_context_resize
  new_manager = fd_context_resize 128 (record { contexts = []; appending = 0; scheduled = [] })

  -- `waiter` is the callback, or else the running coroutine and its thread.
  -- GetThreadScheduler() is null on a thread that is no scheduler's.
  unfoldable pub arm : Option C → ℕ → ℕ → Bool → EventContext C → EventContext C
  arm (some cb) co thread on_scheduler e = record e { armed = on_scheduler; cb = some cb }
  arm none co thread on_scheduler e = record e {
    armed = on_scheduler;
    co = some co;
    thread_id = thread;
  }

  unfoldable pub add_to_context :
      EventStatus → Option C → ℕ → ℕ → Bool → Bool → Context C → Bool × Context C
  unfolding arm
  add_to_context status cb co thread on_scheduler failed c =
      if has c.statuses status || failed then (false, c) else (
        true,
        put_event_context status (arm cb co thread on_scheduler (get_event_context status c))
            (record c { statuses = with c.statuses status }),
      )

  -- add_event's vector: it grows to one and a half times the descriptor where it is too short.
  unfoldable pub room_for : ℕ → IoManager C → IoManager C
  unfolding fd_context_resize
  room_for fd m = if ltb fd (length m.contexts) then m else fd_context_resize (3 * fd / 2) m

  unfoldable pub add_waiter :
      ℕ → EventStatus → Option C → ℕ → ℕ → Bool → Bool → IoManager C → Outcome C
  unfolding add_to_context
  add_waiter fd status cb co thread on_scheduler failed m = elim (get_elem? m.contexts fd) [
    | none ↦ fault
    | some c ↦
        let (done, c') = add_to_context status cb co thread on_scheduler failed c in
        result done (record m {
          contexts = set m.contexts fd c';
          appending = if done then m.appending + 1 else m.appending;
        })
  ]

  unfoldable pub add_event :
      ℕ → EventStatus → Option C → ℕ → ℕ → Bool → Bool → IoManager C → Outcome C
  unfolding room_for add_waiter
  add_event fd status cb co thread on_scheduler failed m =
      add_waiter fd status cb co thread on_scheduler failed (room_for fd m)

  -- `get_event_context(new_status)` is asked for the bits that are left, and gives the read context
  -- only if they are exactly READ.
  unfoldable pub del_from_context : EventStatus → Context C → Context C
  del_from_context status c =
      let left = without c.statuses status in
      let c' = record c { statuses = left } in
      if left.read && not left.write
      then put_event_context read_event empty_context c'
      else put_event_context write_event empty_context c'

  -- The test of cancel_event and del_event, before the context's lock.
  unfoldable pub is_waiting : ℕ → EventStatus → IoManager C → Bool
  is_waiting fd status m = elim (get_elem? m.contexts fd) [
    | none ↦ false
    | some c ↦ has c.statuses status
  ]

  -- del_event behind its test; the statuses are read again.
  unfoldable pub del_tested : ℕ → EventStatus → Bool → IoManager C → Outcome C
  unfolding del_from_context
  del_tested fd status failed m = elim (get_elem? m.contexts fd) [
    | none ↦ fault
    | some c ↦
        if failed
        then result false m
        else result true (record m {
          contexts = set m.contexts fd (del_from_context status c);
          appending = m.appending - 1;
        })
  ]

  unfoldable pub del_event : ℕ → EventStatus → Bool → IoManager C → Outcome C
  unfolding is_waiting del_tested
  del_event fd status failed m =
      if is_waiting fd status m then del_tested fd status failed m else result false m

  -- One trigger_event of the context `fd`, and `--m_appending_event_cnt`.
  unfoldable pub fire : ℕ → EventStatus → Context C → IoManager C → Option (Context C × IoManager C)
  unfolding trigger_event
  fire fd status c m = elim (trigger_event status c) [
    | none ↦ none
    | some (c', work) ↦ some (
      c',
      record m {
        contexts = set m.contexts fd c';
        appending = m.appending - 1;
        scheduled = m.scheduled ++ work;
      },
    )
  ]

  abbrev pub finish : Option (Context C × IoManager C) → Outcome C
  finish none = fault
  finish (some (c, m)) = result true m

  abbrev pub fire_if :
      Bool → ℕ → EventStatus → Option (Context C × IoManager C) → Option (Context C × IoManager C)
  fire_if b fd status none = none
  fire_if b fd status (some (c, m)) = if b then fire fd status c m else some (c, m)

  -- cancel_event behind its test, with the context's lock held; the statuses are read again.
  unfoldable pub cancel_tested : ℕ → EventStatus → Bool → IoManager C → Outcome C
  unfolding fire
  cancel_tested fd status failed m = elim (get_elem? m.contexts fd) [
    | none ↦ fault
    | some c ↦ if failed then result false m else finish (fire fd status c m)
  ]

  unfoldable pub cancel_event : ℕ → EventStatus → Bool → IoManager C → Outcome C
  unfolding is_waiting cancel_tested
  cancel_event fd status failed m =
      if is_waiting fd status m then cancel_tested fd status failed m else result false m

  -- The test of cancel_all_event, before the context's lock.
  unfoldable pub is_waiting_any : ℕ → IoManager C → Bool
  is_waiting_any fd m = elim (get_elem? m.contexts fd) [
    | none ↦ false
    | some c ↦ not (is_none c.statuses)
  ]

  -- cancel_all_event behind its test, with the context's lock held.
  unfoldable pub cancel_all_tested : ℕ → Bool → IoManager C → Outcome C
  unfolding fire
  cancel_all_tested fd failed m = elim (get_elem? m.contexts fd) [
    | none ↦ fault
    | some c ↦
        if failed
        then result false m
        else finish (
            fire_if c.statuses.write fd write_event
              (fire_if c.statuses.read fd read_event (some (c, m))))
  ]

  unfoldable pub cancel_all_event : ℕ → Bool → IoManager C → Outcome C
  unfolding is_waiting_any cancel_all_tested
  cancel_all_event fd failed m =
      if is_waiting_any fd m then cancel_all_tested fd failed m else result false m

  -- A descriptor is an int, and a negative one passes the test `size <= fd`: `m_contexts[fd]` is then
  -- before the vector.
  unfoldable pub at_fd : ℤ → (ℕ → Outcome C) → Outcome C
  at_fd (pos fd) operation = operation fd
  at_fd (negsuc n) operation = fault

  -- The handling of one epoll event in `idle`; `continue` is `result false`.
  unfoldable pub handle_event : ℕ → Bool → Bool → Bool → Bool → IoManager C → Outcome C
  unfolding real_status fire
  handle_event fd epoll_in epoll_out hang_up failed m = elim (get_elem? m.contexts fd) [
    | none ↦ fault
    | some c ↦ elim (real_status epoll_in epoll_out hang_up) [
      | none ↦ result false m
      | some status ↦
          if not (has c.statuses status) || failed
          then result false m
          else finish (fire fd status c m)
    ]
  ]
