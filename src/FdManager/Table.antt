-- ===== src/FdManager/Table.antt =====
-- src/fdmanager.h and src/fdmanager.cc: FDEntity and FDManager. A descriptor is not negative here.
-- `fstat` is the system call: `none` when it fails, else whether the descriptor is a socket. The
-- descriptor's own O_NONBLOCK flag, which fcntl sets, is outside the model. Each method of FDManager
-- holds `m_lock`; a null pointer is `none`.
use tiger.Base.{ℕ, ◌+◌, ◌-◌, ◌*◌, ◌/◌, Bool, true, false, List, ◌++◌, Option, none, some}
use tiger.Base.{ltb, leb, ◌==◌, if◌then◌else◌, length, get_elem?, set, take, replicate}

pub record FdEntity : Type 0 where
  pub is_init : Bool
  pub is_sys_nonblock : Bool
  pub is_user_nonblock : Bool
  pub is_socket : Bool
  pub is_closed : Bool
  pub fd : ℕ
  pub connect_timeout : ℕ
  pub recv_timeout : ℕ
  pub send_timeout : ℕ

-- FDEntity::init, with its result.
unfoldable pub init : (ℕ → Option Bool) → FdEntity → Bool × FdEntity
init fstat e =
    let known : Bool → Bool → FdEntity = λ done socket. record e {
      connect_timeout = 0;
      recv_timeout = 0;
      send_timeout = 0;
      is_init = done;
      is_socket = socket;
      is_sys_nonblock = socket;
      is_user_nonblock = false;
      is_closed = false;
    } in
    if e.is_init then (false, e) else elim (fstat e.fd) [
      | none ↦ (false, known false false)
      | some socket ↦ (true, known true socket)
    ]

-- FDEntity(fd): the initial values of the fields, and `init`.
unfoldable pub new_entity : (ℕ → Option Bool) → ℕ → FdEntity
unfolding init
new_entity fstat fd =
    (init fstat (record {
      is_init = false;
      is_sys_nonblock = false;
      is_user_nonblock = false;
      is_socket = false;
      is_closed = false;
      fd = fd;
      connect_timeout = 0;
      recv_timeout = 0;
      send_timeout = 0;
    })).1

-- connect_timeout, recv_timeout and send_timeout of an entity; `configured` is the configuration's.
unfoldable pub timeout : ℕ → ℕ → ℕ
timeout configured own = if own == 0 then configured else own

-- `m_datas`.
abbrev pub FdManager : Type 0
FdManager = List (Option FdEntity)

unfoldable pub new_manager : FdManager
new_manager = replicate 60 none

unfoldable pub resize : ℕ → FdManager → FdManager
resize n datas = take n datas ++ replicate (n - length datas) none

unfoldable pub at : FdManager → ℕ → Option FdEntity
at datas fd = elim (get_elem? datas fd) [ none ↦ none | some e ↦ e ]

unfoldable pub del_fd : ℕ → FdManager → FdManager
del_fd fd datas = if leb (length datas) fd then datas else set datas fd none

-- The size that add_fd resizes to: `size * 1.5`, cut to an integer, or `fd + 1`.
unfoldable pub grown_size : ℕ → ℕ → ℕ
grown_size fd size = if ltb (2 * fd) (3 * size) then 3 * size / 2 else fd + 1

-- `none` is a write behind the end of `m_datas`.
unfoldable pub add_fd : (ℕ → Option Bool) → ℕ → FdManager → Option (FdEntity × FdManager)
unfolding new_entity resize grown_size
add_fd fstat fd datas =
    let room =
      if leb (length datas) fd then resize (grown_size fd (length datas)) datas else datas in
    let e = new_entity fstat fd in
    if ltb fd (length room) then some (e, set room fd (some e)) else none

unfoldable pub get_fd :
    (ℕ → Option Bool) → ℕ → Bool → FdManager → Option (Option FdEntity × FdManager)
unfolding at add_fd
get_fd fstat fd auto_create datas = elim (at datas fd) [
  | some e ↦ some (some e, datas)
  | none ↦
      if auto_create
      then elim (add_fd fstat fd datas) [ none ↦ none | some (e, datas') ↦ some (some e, datas') ]
      else some (none, datas)
]
