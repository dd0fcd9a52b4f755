-- ===== src/Connection/Pool.antt =====
-- src/servers/http/http_connection.h and src/servers/http/http_connection.cc: HTTPConnectionPool's
-- connections, and what a request over the pool goes through. `now` is what Millisecond() gives.
-- `connected` is what is_connected() tells at the time. The lock makes the search one step; m_total is
-- a number, so that a subtraction stops at 0.
use tiger.Base.{ℕ, ◌+◌, ◌-◌, Bool, true, not, ◌||◌, List, [], ◌∷◌, ◌++◌, Option, none, some}
use tiger.Base.{ltb, leb, if◌then◌else◌}
use tiger.Base.Int.{ℤ, pos, negsuc}

-- HTTPResult::ErrorCode.
pub data ErrorCode : Type 0 where
  ok invalid_url invalid_host connect_fail send_close_by_peer send_socket_error timeout : ErrorCode
  create_socket_error pool_get_connection_fail pool_invalid_connection invalid_protocols : ErrorCode

pub record Connection : Type 0 where
  pub create_time : ℕ
  pub request : ℕ
  pub connected : Bool

pub record Pool : Type 0 where
  pub max_size : ℕ
  pub max_alive_time : ℕ
  pub max_request : ℕ
  pub conns : List Connection
  pub total : ℕ

unfoldable pub new_pool : ℕ → ℕ → ℕ → Pool
new_pool max_size max_alive_time max_request = record {
  max_size = max_size;
  max_alive_time = max_alive_time;
  max_request = max_request;
  conns = [];
  total = 0;
}

-- Whether get_connection drops a connection.
unfoldable pub is_invalid : ℕ → ℕ → Connection → Bool
is_invalid now max_alive_time c = not c.connected || ltb (c.create_time + max_alive_time) now

-- The loop of get_connection: how many it drops, the one it takes, and those behind it.
unfoldable pub take_valid : ℕ → ℕ → List Connection → ℕ × Option Connection × List Connection
unfolding is_invalid
take_valid now max_alive_time [] = (0, none, [])
take_valid now max_alive_time (c ∷ cs) =
    let (n, found, rest) = take_valid now max_alive_time cs in
    if is_invalid now max_alive_time c then (n + 1, found, rest) else (0, some c, cs)

-- The constructor, on a socket that is connected, at the given time.
unfoldable pub new_connection : ℕ → Connection
new_connection time = record { create_time = time; request = 0; connected = true }

-- get_connection behind its loop. `opened` is the time the new connection is constructed at, when looking
-- up the host, creating the socket and connecting it have succeeded.
unfoldable pub found_or_opened : Option ℕ → Option Connection → Pool → Option Connection × Pool
unfolding new_connection
found_or_opened opened (some c) p = (some c, p)
found_or_opened none none p = (none, p)
found_or_opened (some time) none p = (some (new_connection time), record p { total = p.total + 1 })

unfoldable pub get_connection : ℕ → Option ℕ → Pool → Option Connection × Pool
unfolding take_valid found_or_opened
get_connection now opened p =
    let (n, found, rest) = take_valid now p.max_alive_time p.conns in
    found_or_opened opened found (record p { conns = rest; total = p.total - n })

-- ReleasePtr.
unfoldable pub release : ℕ → Connection → Pool → Pool
release now c p =
    let c' = record c { request = c.request + 1 } in
    if not c.connected || leb (c.create_time + p.max_alive_time) now || leb p.max_request c'.request
    then record p { total = p.total - 1 }
    else record p { conns = p.conns ++ (c' ∷ []) }

-- What send_request and recv_response do with a connection: the code of the first, whether the second
-- gives a response, and the connection behind each.
pub record Exchange {ℓ} (R : Type ℓ) : Type ℓ where
  pub has_socket : Bool
  pub sent : ℤ
  pub received : Option R
  pub after : Connection

-- The result of request behind get_connection.
unfoldable pub result_of {ℓ} : {R : Type ℓ} → Exchange R → ErrorCode × Option R
result_of x = if not x.has_socket then (pool_invalid_connection, none) else elim x.sent [
  | negsuc n ↦ (send_socket_error, none)
  | pos n ↦
      if leb n 0
      then (send_close_by_peer, none)
      else elim x.received [ none ↦ (timeout, none) | some r ↦ (ok, some r) ]
]

-- HTTPConnectionPool::request. The connection is released, at the time `later`, when the function
-- leaves; a connection without a socket is not connected.
unfoldable pub request {ℓ} :
    {R : Type ℓ}
    → ℕ
    → Option ℕ
    → (Connection → Exchange R)
    → ℕ
    → Pool
    → (ErrorCode × Option R) × Pool
unfolding get_connection result_of release
request now opened exchange later p =
    let (found, p') = get_connection now opened p in
    elim found [
      | none ↦ ((pool_get_connection_fail, none), p')
      | some c ↦ let x = exchange c in (result_of x, release later x.after p')
    ]
