-- ===== src/Socket/States.antt =====
-- src/socket.h and src/socket.cc: the state of a Socket and what each operation makes of it. The system's
-- calls are parameters over the state `S` of what is behind them, and `A` are the addresses. A
-- descriptor of -1 is `none`; log lines are left out.
use tiger.Base.{ℕ, Bool, true, false, not, ◌&&◌, Option, none, some, ◌==◌, if◌then◌else◌}
use tiger.Base.Int.{ℤ, pos, negsuc}
use tiger.FdManager.Table.{FdEntity, FdManager, at, timeout}

pub data Family : Type 0 where
  inet inet6 unix : Family
  other_family : ℕ → Family

pub data SocketType : Type 0 where
  stream dgram : SocketType

pub data SocketFlag : Type 0 where
  so_reuseaddr tcp_nodelay : SocketFlag

pub record Socket (A : Type 0) : Type 0 where
  pub sock : Option ℕ
  pub family : Family
  pub type : SocketType
  pub protocol : ℕ
  pub is_connected : Bool
  pub local_addr : Option A
  pub remote_addr : Option A

-- ::socket, ::connect, ::bind, ::listen, ::accept, ::close, setsockopt, getsockname and getpeername, on
-- descriptors; a result of 0 is `true`. `owns_socket` is that FDManager has the descriptor as a socket
-- that is not closed, and `keep_timeout` records a connect timeout with it.
pub record Sys {ℓ} (A : Type 0) (S : Type ℓ) : Type ℓ where
  pub family_of : A → Family
  pub unknown : Family → A
  pub socket_call : Family → SocketType → ℕ → S → Option ℕ × S
  pub connect_call : ℕ → A → S → Bool × S
  pub bind_call : ℕ → A → S → Bool × S
  pub listen_call : ℕ → ℕ → S → Bool × S
  pub accept_call : ℕ → S → Option ℕ × S
  pub close_call : ℕ → S → S
  pub set_flag : ℕ → SocketFlag → S → S
  pub sock_name : ℕ → S → Option A
  pub peer_name : ℕ → S → Option A
  pub owns_socket : ℕ → S → Bool
  pub keep_timeout : ℕ → ℕ → S → S

-- Socket(family, type, protocol).
unfoldable pub new_socket : {A : Type 0} → Family → SocketType → ℕ → Socket A
new_socket family type protocol = record {
  sock = none;
  family = family;
  type = type;
  protocol = protocol;
  is_connected = false;
  local_addr = none;
  remote_addr = none;
}

abbrev pub is_unix : Family → Bool
is_unix unix = true
is_unix _ = false

abbrev pub is_stream : SocketType → Bool
is_stream stream = true
is_stream dgram = false

unfoldable pub same_family : Family → Family → Bool
same_family inet inet = true
same_family inet6 inet6 = true
same_family unix unix = true
same_family (other_family n) (other_family m) = n == m
same_family _ _ = false

unfoldable pub is_valid : {A : Type 0} → Socket A → Bool
is_valid s = elim s.sock [ none ↦ false | some fd ↦ true ]

module _ {ℓ} {A : Type 0} {S : Type ℓ} (sys : Sys A S) where
  -- init_sock, on a descriptor.
  unfoldable pub init_sock : Socket A → ℕ → S → S
  init_sock s fd w =
      let w' = sys.set_flag fd so_reuseaddr w in
      if is_stream s.type && not (is_unix s.family) then sys.set_flag fd tcp_nodelay w' else w'

  unfoldable pub new_sock : Socket A → S → Socket A × S
  unfolding init_sock
  new_sock s w =
      let (made, w') = sys.socket_call s.family s.type s.protocol w in
      elim made [
        | none ↦ (record s { sock = none }, w')
        | some fd ↦ (record s { sock = some fd }, init_sock s fd w')
      ]

  -- What getsockname or getpeername gives for m_sock.
  unfoldable pub name_of : (ℕ → S → Option A) → Socket A → S → Option A
  name_of name s w = elim s.sock [ none ↦ none | some fd ↦ name fd w ]

  unfoldable pub init_local_address : Socket A → S → A × Socket A
  unfolding name_of
  init_local_address s w = elim s.local_addr [
    | some a ↦ (a, s)
    | none ↦ elim (name_of sys.sock_name s w) [
      | none ↦ (sys.unknown s.family, s)
      | some a ↦ (a, record s { local_addr = some a })
    ]
  ]

  unfoldable pub init_remote_address : Socket A → S → A × Socket A
  unfolding name_of
  init_remote_address s w = elim s.remote_addr [
    | some a ↦ (a, s)
    | none ↦ elim (name_of sys.peer_name s w) [
      | none ↦ (sys.unknown s.family, s)
      | some a ↦ (a, record s { remote_addr = some a })
    ]
  ]

  -- Both, as init and connect call them.
  unfoldable pub init_addresses : Socket A → S → Socket A
  unfolding init_local_address init_remote_address
  init_addresses s w = (init_remote_address (init_local_address s w).1 w).1

  -- Socket::init.
  unfoldable pub init : ℕ → Socket A → S → Bool × Socket A × S
  unfolding init_sock init_addresses
  init fd s w =
      let w' = init_sock s fd w in
      if sys.owns_socket fd w
      then (true, init_addresses (record s { sock = some fd; is_connected = true }) w', w')
      else (false, s, w)

  -- CreateUDP, CreateUDPSocket and CreateUDPSocket6, whatever new_sock gives.
  unfoldable pub create_udp : Family → S → Socket A × S
  unfolding new_socket new_sock
  create_udp family w =
      let (s, w') = new_sock (new_socket family dgram 0) w in (record s { is_connected = true }, w')

  unfoldable pub close : Socket A → S → Bool × Socket A × S
  close s w = elim s.sock [
    | none ↦ (true, record s { is_connected = false }, w)
    | some fd ↦ (true, record s { is_connected = false; sock = none }, sys.close_call fd w)
  ]

  -- The timeout is kept unless it is (uint64_t)-1.
  unfoldable pub with_timeout : Option ℕ → ℕ → S → S
  with_timeout none fd w = w
  with_timeout (some t) fd w = sys.keep_timeout fd t w

  -- connect behind ::connect, by its result.
  unfoldable pub after_connect : Bool → Socket A → S → Bool × Socket A × S
  unfolding close init_addresses
  after_connect true s w = (true, init_addresses (record s { is_connected = true }) w, w)
  after_connect false s w = let (closed, s', w') = close s w in (false, s', w')

  -- connect on a descriptor. An address of another family is only logged.
  unfoldable pub connect_sock : A → Option ℕ → ℕ → Socket A → S → Bool × Socket A × S
  unfolding with_timeout after_connect
  connect_sock addr timeout_ms fd s w =
      let (connected, w') = sys.connect_call fd addr (with_timeout timeout_ms fd w) in
      after_connect connected s w'

  -- What is done with the descriptor, if there is one.
  unfoldable pub on_sock : Option ℕ → Socket A → S → (ℕ → Bool × Socket A × S) → Bool × Socket A × S
  on_sock none s w go = (false, s, w)
  on_sock (some fd) s w go = go fd

  -- new_sock unless the socket has a descriptor.
  unfoldable pub with_sock : Socket A → S → Socket A × S
  unfolding is_valid new_sock
  with_sock s w = if is_valid s then (s, w) else new_sock s w

  unfoldable pub connect : A → Option ℕ → Socket A → S → Bool × Socket A × S
  unfolding with_sock connect_sock on_sock
  connect addr timeout_ms s w =
      let (s', w') = with_sock s w in
      on_sock s'.sock s' w' (λ fd. connect_sock addr timeout_ms fd s' w')

  -- reconnect, by m_remote_addr.
  unfoldable pub reconnect_to : Option A → Option ℕ → Socket A → S → Bool × Socket A × S
  unfolding connect
  reconnect_to none timeout_ms s w = (false, s, w)
  reconnect_to (some a) timeout_ms s w = connect a timeout_ms (record s { local_addr = none }) w

  unfoldable pub reconnect : Option ℕ → Socket A → S → Bool × Socket A × S
  unfolding reconnect_to
  reconnect timeout_ms s w = reconnect_to s.remote_addr timeout_ms s w

  -- bind behind ::bind, by its result.
  unfoldable pub after_bind : Bool → Socket A → S → Bool × Socket A × S
  unfolding init_local_address
  after_bind true s w = (true, (init_local_address s w).1, w)
  after_bind false s w = (false, s, w)

  -- bind on a descriptor.
  unfoldable pub bind_sock : A → ℕ → Socket A → S → Bool × Socket A × S
  unfolding after_bind same_family
  bind_sock addr fd s w =
      let (bound, w') = sys.bind_call fd addr w in
      if not (same_family (sys.family_of addr) s.family)
      then (false, s, w)
      else after_bind bound s w'

  unfoldable pub bind : A → Socket A → S → Bool × Socket A × S
  unfolding with_sock bind_sock on_sock
  bind addr s w =
      let (s', w') = with_sock s w in on_sock s'.sock s' w' (λ fd. bind_sock addr fd s' w')

  unfoldable pub listen : ℕ → Socket A → S → Bool × Socket A × S
  unfolding on_sock
  listen backlog s w =
      on_sock s.sock s w (λ fd. let (heard, w') = sys.listen_call fd backlog w in (heard, s, w'))

  -- accept: the new socket, if there is one. ::accept on -1 fails.
  unfoldable pub accept : Socket A → S → Option (Socket A) × S
  unfolding init new_socket
  accept s w = elim s.sock [
    | none ↦ (none, w)
    | some fd ↦
        let (made, w') = sys.accept_call fd w in
        elim made [
          | none ↦ (none, w')
          | some new ↦
              let (done, s', w'') = init new (new_socket s.family s.type s.protocol) w' in
              if done then (some s', w'') else (none, w'')
        ]
  ]

-- The entity that the timeouts are kept in; get_fd(-1) reads in front of the table.
unfoldable pub entity_of : {A : Type 0} → FdManager → Socket A → Option FdEntity
unfolding at
entity_of fds s = elim s.sock [ none ↦ none | some fd ↦ at fds fd ]

-- get_send_timeout and get_recv_timeout; `configured` is the configuration's.
unfoldable pub get_send_timeout : {A : Type 0} → ℕ → FdManager → Socket A → ℤ
unfolding entity_of timeout
get_send_timeout configured fds s = elim (entity_of fds s) [
  | none ↦ negsuc 0
  | some e ↦ pos (timeout configured e.send_timeout)
]

unfoldable pub get_recv_timeout : {A : Type 0} → ℕ → FdManager → Socket A → ℤ
unfolding entity_of timeout
get_recv_timeout configured fds s = elim (entity_of fds s) [
  | none ↦ negsuc 0
  | some e ↦ pos (timeout configured e.recv_timeout)
]
