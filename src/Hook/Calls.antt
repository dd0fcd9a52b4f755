-- ===== src/Hook/Calls.antt =====
-- src/hook.cc: do_socket_io, connect, accept and the calls that go through do_socket_io. The system's
-- calls, and what IOManager and the scheduler do with a coroutine that waits, are parameters over the
-- state `S` of what is behind them. A hooked call runs on a thread of an IOManager. `enabled` is
-- t__enable_hook; a log line is left out.
use tiger.Base.{ℕ, zero, suc, ◌^◌, ◌%◌, Bool, true, false, not, ◌||◌}
use tiger.Base.{Option, none, some, ltb, if◌then◌else◌}
use tiger.FdManager.Table.{FdEntity, FdManager, at, timeout, get_fd}
use tiger.IoManager.Events.{Statuses}

pub data Errno : Type 0 where
  eintr eagain ebadf etimedout einprogress : Errno
  other_errno : ℕ → Errno

-- What a system call returns: a number that is not negative, or -1 with errno.
pub data Outcome : Type 0 where
  success : ℕ → Outcome
  failure : Errno → Outcome

pub data Result {ℓ} (S : Type ℓ) : Type ℓ where
  returned : Outcome → S → Result S
  endless : Result S

-- `call` is the system's function on the arguments. `add_event` of the status on the descriptor: `none`
-- when it has succeeded, else errno. `wait` is the yield until the event, or the timer with the given
-- number of milliseconds, resumes the coroutine, and cancel_timer: whether the timer came first, which
-- cancels the event, and errno then, which other coroutines of the thread may have changed. `failed` is
-- what getsockopt gives for SO_ERROR, 0 for no error.
pub record Env {ℓ} (S : Type ℓ) : Type ℓ where
  pub call : S → Outcome × S
  pub add_event : S → Option Errno × S
  pub wait : Option ℕ → S → Bool × Errno × S
  pub failed : S → Outcome × S

-- `errno == EINTR || errno == EAGAIN`.
unfoldable pub is_retried : Errno → Bool
is_retried eintr = true
is_retried eagain = true
is_retried _ = false

-- A uint64_t stored into an int, with the milliseconds of the timer when it is not negative.
unfoldable pub timer_of : ℕ → Option ℕ
timer_of t = if ltb (t % 2 ^ 32) (2 ^ 31) then some (t % 2 ^ 32) else none

module _ {ℓ} {S : Type ℓ} (env : Env S) where
  -- A round of the loop behind a call that has given EAGAIN.
  unfoldable pub wait_round : Option ℕ → S → (S → Result S) → Result S
  unfolding is_retried
  wait_round timer s again =
      let (refused, s') = env.add_event s in
      let (canceled, errno, s'') = env.wait timer s' in
      elim refused [
        | some e ↦ returned (failure e) s'
        | none ↦
            if canceled
            then returned (failure etimedout) s''
            else if is_retried errno
            then again s''
            else returned (failure errno) s''
      ]

  -- The loop. `continue` goes to its condition, which reads errno again. The fuel is the number of calls.
  unfoldable pub io_loop : ℕ → Option ℕ → S → Result S
  unfolding wait_round
  io_loop zero timer s = endless
  io_loop (suc fuel) timer s =
      let (o, s') = env.call s in
      elim o [
        | success n ↦ returned (success n) s'
        | failure eagain ↦ wait_round timer s' (λ t. io_loop fuel timer t)
        | failure eintr ↦ io_loop fuel timer s'
        | failure e ↦ returned (failure e) s'
      ]

  -- The call without a hook.
  unfoldable pub plain : S → Result S
  plain s = let (o, s') = env.call s in returned o s'

  -- `configured` are the timeouts of the configuration for receiving and sending.
  unfoldable pub timeout_of : ℕ × ℕ → Statuses → FdEntity → Option ℕ
  unfolding timer_of timeout
  timeout_of configured status e =
      if status.read
      then timer_of (timeout configured.0 e.recv_timeout)
      else if status.write
      then timer_of (timeout configured.1 e.send_timeout)
      else none

  unfoldable pub do_socket_io : ℕ × ℕ → Bool → FdManager → ℕ → Statuses → ℕ → S → Result S
  unfolding at plain timeout_of io_loop
  do_socket_io configured enabled fds fd status fuel s =
      if not enabled then plain s else elim (at fds fd) [
        | none ↦ plain s
        | some e ↦
            if e.is_closed
            then returned (failure ebadf) s
            else if not e.is_socket || e.is_user_nonblock
            then plain s
            else io_loop fuel (timeout_of configured status e) s
      ]

  -- connect behind the wait: what SO_ERROR tells.
  unfoldable pub connect_status : S → Result S
  connect_status s =
      let (o, s') = env.failed s in
      elim o [
        | failure e ↦ returned (failure e) s'
        | success zero ↦ returned (success 0) s'
        | success (suc n) ↦ returned (failure (other_errno (suc n))) s'
      ]

  -- The timer of connect.
  unfoldable pub connect_timer : ℕ → Option ℕ
  connect_timer t = if ltb 0 t then some t else none

  -- connect behind a call that has given EINPROGRESS. When add_event fails it goes on all the same.
  unfoldable pub connect_wait : Option ℕ → S → Result S
  unfolding connect_status
  connect_wait timer s =
      let (refused, s') = env.add_event s in
      let (canceled, errno, s'') = env.wait timer s' in
      elim refused [
        | some e ↦ connect_status s'
        | none ↦ if canceled then returned (failure etimedout) s'' else connect_status s''
      ]

  unfoldable pub connect : ℕ → Bool → FdManager → ℕ → S → Result S
  unfolding at plain timeout connect_timer connect_wait
  connect configured enabled fds fd s =
      let (o, s') = env.call s in
      let hooked : FdEntity → Result S = λ e. elim o [
        | success n ↦ returned (success n) s'
        | failure einprogress ↦
            connect_wait (connect_timer (timeout configured e.connect_timeout)) s'
        | failure e' ↦ returned (failure e') s'
      ] in
      if not enabled then plain s else elim (at fds fd) [
        | none ↦ returned (failure ebadf) s
        | some e ↦
            if e.is_closed
            then returned (failure ebadf) s
            else if not e.is_socket
            then plain s
            else if e.is_user_nonblock
            then plain s
            else hooked e
      ]

  -- accept: the new descriptor is put into the table. `none` is a write behind its end.
  unfoldable pub accept :
      (ℕ → Option Bool) → ℕ × ℕ → Bool → FdManager → ℕ → ℕ → S → Option (Result S × FdManager)
  unfolding do_socket_io get_fd
  accept fstat configured enabled fds fd fuel s =
      let status : Statuses = record { read = true; write = false } in
      elim (do_socket_io configured enabled fds fd status fuel s) [
        | returned (success new) t ↦ elim (get_fd fstat new true fds) [
          | none ↦ none
          | some (e, fds') ↦ some (returned (success new) t, fds')
        ]
        | returned (failure e) t ↦ some (returned (failure e) t, fds)
        | endless ↦ some (endless, fds)
      ]

  -- read, readv, recv, recvfrom and recvmsg.
  unfoldable pub hooked_read : ℕ × ℕ → Bool → FdManager → ℕ → ℕ → S → Result S
  unfolding do_socket_io
  hooked_read configured enabled fds fd fuel s =
      do_socket_io configured enabled fds fd (record { read = true; write = false }) fuel s

  -- write, writev, send, sendto and sendmsg.
  unfoldable pub hooked_write : ℕ × ℕ → Bool → FdManager → ℕ → ℕ → S → Result S
  unfolding do_socket_io
  hooked_write configured enabled fds fd fuel s =
      do_socket_io configured enabled fds fd (record { read = false; write = true }) fuel s

-- socket, of what the system's call gives.
unfoldable pub socket :
    (ℕ → Option Bool) → Bool → FdManager → Outcome → Option (Outcome × FdManager)
unfolding get_fd
socket fstat enabled fds (failure e) = some (failure e, fds)
socket fstat enabled fds (success fd) =
    if not enabled then some (success fd, fds) else elim (get_fd fstat fd true fds) [
      | none ↦ none
      | some (none, fds') ↦ some (success fd, fds')
      | some (some e, fds') ↦ some (success e.fd, fds')
    ]
