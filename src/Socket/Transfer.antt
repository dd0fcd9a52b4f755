-- ===== src/Socket/Transfer.antt =====
-- src/socket.cc: sending and receiving, and the connections and loops of SSLSocket. SSL_write and SSL_read
-- are parameters: their result and the state behind them. An array of buffers is the list of their bytes
-- for sending, and of their lengths for receiving.
use tiger.Base.{ℕ, ◌+◌, Bool, true, false, not, List, [], ◌∷◌, Option, none, some, ◌==◌}
use tiger.Base.{if◌then◌else◌, length, set}
use tiger.Base.Int.{ℤ, pos, negsuc}
use tiger.FdManager.Table.{FdManager, at}
use tiger.Socket.States.{Socket, Sys, connect, init, new_socket}

-- send, send_to, recv and recv_from: `call` is the system's on m_sock, which is -1 for `none`.
unfoldable pub transfer {ℓ} :
    {A : Type 0} {S : Type ℓ} → (Option ℕ → S → ℤ × S) → Socket A → S → ℤ × S
transfer call s w = if s.is_connected then call s.sock w else (negsuc 0, w)

-- The length that recv_from of one buffer passes on: its own `len` hides the argument.
unfoldable pub recv_from_size : ℕ → ℕ → ℕ
recv_from_size len addr_len = addr_len

-- set_send_timeout and set_recv_timeout, on a socket with a descriptor.
unfoldable pub set_send_timeout : ℕ → ℕ → FdManager → FdManager
unfolding at
set_send_timeout fd timeout fds = elim (at fds fd) [
  | none ↦ fds
  | some e ↦ set fds fd (some (record e { send_timeout = timeout }))
]

unfoldable pub set_recv_timeout : ℕ → ℕ → FdManager → FdManager
unfolding at
set_recv_timeout fd timeout fds = elim (at fds fd) [
  | none ↦ fds
  | some e ↦ set fds fd (some (record e { recv_timeout = timeout }))
]

-- SSLSocket: whether m_ctx and m_ssl are set.
pub record SslSocket (A : Type 0) : Type 0 where
  pub base : Socket A
  pub ctx : Bool
  pub ssl : Bool

module _ {ℓ} {A : Type 0} {S : Type ℓ} (sys : Sys A S) where
  -- SSLSocket::init; `ssl_accept` is whether SSL_accept succeeds.
  unfoldable pub ssl_init : (ℕ → S → Bool × S) → ℕ → SslSocket A → S → Bool × SslSocket A × S
  unfolding init
  ssl_init ssl_accept fd s w =
      let (done, base', w') = init sys fd s.base w in
      let (accepted, w'') = ssl_accept fd w' in
      if done
      then (accepted, record s { base = base'; ssl = true }, w'')
      else (false, record s { base = base' }, w')

  -- SSLSocket::connect; `ssl_connect` is whether SSL_connect on m_sock succeeds.
  unfoldable pub ssl_connect_socket :
      (Option ℕ → S → Bool × S) → A → Option ℕ → SslSocket A → S → Bool × SslSocket A × S
  unfolding connect
  ssl_connect_socket ssl_connect addr timeout_ms s w =
      let (done, base', w') = connect sys addr timeout_ms s.base w in
      let (connected, w'') = ssl_connect base'.sock w' in
      if done
      then (connected, record { base = base'; ctx = true; ssl = true }, w'')
      else (false, record s { base = base' }, w')

  -- SSLSocket::accept.
  unfoldable pub ssl_accept_socket : (ℕ → S → Bool × S) → SslSocket A → S → Option (SslSocket A) × S
  unfolding ssl_init new_socket
  ssl_accept_socket ssl_accept s w = elim s.base.sock [
    | none ↦ (none, w)
    | some fd ↦
        let (made, w') = sys.accept_call fd w in
        elim made [
          | none ↦ (none, w')
          | some new ↦
              let fresh : SslSocket A = record {
                base = new_socket s.base.family s.base.type s.base.protocol;
                ctx = s.ctx;
                ssl = false;
              } in
              let (done, s', w'') = ssl_init ssl_accept new fresh w' in
              if done then (some s', w'') else (none, w'')
        ]
  ]

module _ {ℓ} {S : Type ℓ} where
  -- SSLSocket::send of an array; `total` is what has been sent.
  unfoldable pub ssl_send_loop : (List ℕ → S → ℤ × S) → ℕ → List (List ℕ) → S → ℤ × S
  ssl_send_loop ssl_write total [] w = (pos total, w)
  ssl_send_loop ssl_write total (buffer ∷ buffers) w =
      let (tmp, w') = ssl_write buffer w in
      elim tmp [
        | negsuc n ↦ (negsuc n, w')
        | pos n ↦
            let rest = ssl_send_loop ssl_write (total + n) buffers w' in
            if n == 0
            then (pos 0, w')
            else if n == length buffer
            then rest
            else (pos (total + n), w')
      ]

  unfoldable pub ssl_send : (List ℕ → S → ℤ × S) → Bool → List (List ℕ) → S → ℤ × S
  unfolding ssl_send_loop
  ssl_send ssl_write ssl buffers w =
      if not ssl then (negsuc 0, w) else ssl_send_loop ssl_write 0 buffers w

  -- SSLSocket::recv of an array; every call asks for `first` bytes, the length of the first buffer.
  unfoldable pub ssl_recv_loop : (ℕ → S → ℤ × S) → ℕ → ℕ → List ℕ → S → ℤ × S
  ssl_recv_loop ssl_read first total [] w = (pos total, w)
  ssl_recv_loop ssl_read first total (len ∷ lens) w =
      let (tmp, w') = ssl_read first w in
      elim tmp [
        | negsuc n ↦ (negsuc n, w')
        | pos n ↦
            let rest = ssl_recv_loop ssl_read first (total + n) lens w' in
            if n == 0 then (pos 0, w') else if n == len then rest else (pos (total + n), w')
      ]

  unfoldable pub ssl_recv : (ℕ → S → ℤ × S) → Bool → List ℕ → S → ℤ × S
  unfolding ssl_recv_loop
  ssl_recv ssl_read ssl [] w = (if ssl then pos 0 else negsuc 0, w)
  ssl_recv ssl_read ssl (len ∷ lens) w =
      if not ssl then (negsuc 0, w) else ssl_recv_loop ssl_read len 0 (len ∷ lens) w
