-- ===== src/Hook/Flags.antt =====
-- src/hook.cc: close, fcntl, ioctl, getsockopt and setsockopt. The system's calls are a parameter over the
-- state `K` of the kernel. O_NONBLOCK is one bit of a descriptor's flags and `others` are the rest; the
-- calls of fcntl that only pass their arguments on are left out, as is a failing F_GETFL.
use tiger.Base.{ℕ, ◌+◌, ◌*◌, ◌/◌, Bool, true, false, not, ◌||◌, Option, none, some}
use tiger.Base.{if◌then◌else◌, set}
use tiger.FdManager.Table.{FdEntity, FdManager, at, del_fd}
use tiger.IoManager.Events.{IoManager, result, fault, cancel_all_event}

pub record FileFlags : Type 0 where
  pub nonblock : Bool
  pub others : ℕ

-- fcntl_f with F_SETFL and F_GETFL, and ioctl_f with FIONBIO.
pub record Kernel {ℓ} (K : Type ℓ) : Type ℓ where
  pub set_flags : ℕ → FileFlags → K → K
  pub get_flags : ℕ → K → FileFlags
  pub set_nonblock : ℕ → Bool → K → K

pub data SocketOption : Type 0 where
  so_rcvtimeo so_sndtimeo other_option : SocketOption

-- Whether fcntl and ioctl leave a descriptor alone.
unfoldable pub is_foreign : FdEntity → Bool
is_foreign e = not e.is_socket || e.is_closed

-- What F_SETFL passes on; `!O_NONBLOCK` is 0.
unfoldable pub passed_flags : FdEntity → FileFlags → FileFlags
passed_flags e arg =
    if e.is_sys_nonblock
    then record arg { nonblock = true }
    else record { nonblock = false; others = 0 }

module _ {ℓ} {K : Type ℓ} (kernel : Kernel K) where
  -- fcntl with F_SETFL.
  unfoldable pub set_fl : ℕ → FileFlags → FdManager → K → FdManager × K
  unfolding at is_foreign passed_flags
  set_fl fd arg fds k = elim (at fds fd) [
    | none ↦ (fds, kernel.set_flags fd arg k)
    | some e ↦ if is_foreign e then (fds, kernel.set_flags fd arg k) else (
      set fds fd (some (record e { is_user_nonblock = arg.nonblock })),
      kernel.set_flags fd (passed_flags e arg) k,
    )
  ]

  -- fcntl with F_GETFL.
  unfoldable pub get_fl : ℕ → FdManager → K → FileFlags
  unfolding at is_foreign
  get_fl fd fds k =
      let flags = kernel.get_flags fd k in
      elim (at fds fd) [
        | none ↦ flags
        | some e ↦ if is_foreign e then flags else record flags { nonblock = e.is_user_nonblock }
      ]

  -- ioctl with FIONBIO. Any other request is passed on.
  unfoldable pub ioctl : ℕ → Bool → FdManager → K → FdManager × K
  unfolding at is_foreign
  ioctl fd user_nonblock fds k = elim (at fds fd) [
    | none ↦ (fds, kernel.set_nonblock fd user_nonblock k)
    | some e ↦ if is_foreign e then (fds, kernel.set_nonblock fd user_nonblock k) else (
      set fds fd (some (record e { is_user_nonblock = user_nonblock })),
      kernel.set_nonblock fd user_nonblock k,
    )
  ]

-- A timeval in milliseconds.
unfoldable pub milliseconds : ℕ × ℕ → ℕ
milliseconds tv = tv.0 * 1000 + tv.1 / 1000

-- What setsockopt at the level SOL_SOCKET records, besides the system's call.
unfoldable pub setsockopt : Bool → ℕ → SocketOption → ℕ × ℕ → FdManager → FdManager
unfolding at milliseconds
setsockopt enabled fd option tv fds =
    let recorded : Option FdEntity → FdManager = λ e. set fds fd e in
    if enabled then fds else elim (at fds fd) [
      | none ↦ fds
      | some e ↦ elim option [
        | so_rcvtimeo ↦ recorded (some (record e { recv_timeout = milliseconds tv }))
        | so_sndtimeo ↦ recorded (some (record e { send_timeout = milliseconds tv }))
        | other_option ↦ fds
      ]
    ]

-- close, besides the system's call. `failed` is whether epoll_ctl gives an error; without an IOManager
-- no event is cancelled. `none` is a fault of cancel_all_event.
unfoldable pub close {ℓ} :
    {C : Type ℓ}
    → Bool
    → ℕ
    → Bool
    → Option (IoManager C)
    → FdManager
    → Option (Option (IoManager C) × FdManager)
unfolding at cancel_all_event del_fd
close enabled fd failed iom fds = if not enabled then some (iom, fds) else elim (at fds fd) [
  | none ↦ some (iom, fds)
  | some e ↦ elim iom [
    | none ↦ some (none, del_fd fd fds)
    | some m ↦ elim (cancel_all_event fd failed m) [
      | fault ↦ none
      | result b m' ↦ some (some m', del_fd fd fds)
    ]
  ]
]
