-- ===== src/Connection/Build.antt =====
-- src/servers/http/http_connection.cc: the requests that HTTPConnection and HTTPConnectionPool build and
-- the results they return. URI::Create is a parameter and Uri is what it has parsed. `headers` is a
-- std::map, so its keys are in the order of their bytes.
use tiger.Base.{ℕ, Bool, true, false, not, ◌&&◌, List, [], ◌∷◌, ◌++◌, Option, none, some}
use tiger.Base.{◌==◌, leb, if◌then◌else◌, length}
use tiger.Base.Int.{ℤ, pos, negsuc}
use tiger.Http.Bytes.{bytes, strcmp}
use tiger.Http.Method.{HttpMethod}
use tiger.Http.Fields.{Fields, strcasecmp}
use tiger.Http.Request.{HttpRequest, new_request, set_header}
use tiger.Connection.Pool.{
  ErrorCode, ok, invalid_url, invalid_host, connect_fail, send_close_by_peer, send_socket_error,
  timeout, create_socket_error,
}

pub record Uri : Type 0 where
  pub scheme : List ℕ
  pub host : List ℕ
  pub path : List ℕ
  pub query : List ℕ
  pub fragment : List ℕ

unfoldable pub is_empty : List ℕ → Bool
is_empty text = length text == 0

-- A header of the loop: whether a host has been named, and the request. `on_connection` is what the
-- value of a header "connection" makes of the close flag.
unfoldable pub copy_header :
    (List ℕ → Bool → Bool) → List ℕ → List ℕ → Bool → HttpRequest → Bool × HttpRequest
unfolding set_header is_empty
copy_header on_connection key value has_host req =
    if strcasecmp key (bytes "connection")
    then (has_host, record req { close = on_connection value req.close })
    else (
      if not has_host && strcasecmp key (bytes "host") then not (is_empty value) else has_host,
      set_header req key value,
    )

unfoldable pub copy_headers :
    (List ℕ → Bool → Bool) → Fields → Bool → HttpRequest → Bool × HttpRequest
unfolding copy_header
copy_headers on_connection [] has_host req = (has_host, req)
copy_headers on_connection ((key, value) ∷ rest) has_host req =
    let (has_host', req') = copy_header on_connection key value has_host req in
    copy_headers on_connection rest has_host' req'

-- The loop, the header Host where the loop has found none, and the body.
unfoldable pub fill_request :
    (List ℕ → Bool → Bool) → Fields → List ℕ → List ℕ → HttpRequest → HttpRequest
unfolding copy_headers set_header
fill_request on_connection headers host body req =
    let (has_host, req') = copy_headers on_connection headers false req in
    let req'' = if has_host then req' else set_header req' (bytes "Host") host in
    record req'' { body = body }

unfoldable pub keeps_alive : List ℕ → Bool → Bool
keeps_alive value close = if strcasecmp value (bytes "keep-alive") then false else close

unfoldable pub pool_keeps_alive : List ℕ → Bool → Bool
pool_keeps_alive value close = if strcasecmp value (bytes "keep-alive") then false else true

-- The request that HTTPConnection::Request(method, uri, timeout, headers, body) builds.
unfoldable pub build_request : HttpMethod → Uri → Fields → List ℕ → HttpRequest
unfolding fill_request keeps_alive new_request
build_request method uri headers body =
    fill_request keeps_alive headers uri.host body (record (new_request 17 true) {
      method = method;
      path = uri.path;
      query = uri.query;
      fragment = uri.fragment;
      close = true;
    })

-- The request that HTTPConnectionPool::request(method, path, timeout, headers, body) builds, in a pool
-- with this m_host and m_vhost.
unfoldable pub build_pool_request :
    List ℕ → List ℕ → HttpMethod → List ℕ → Fields → List ℕ → HttpRequest
unfolding fill_request pool_keeps_alive new_request is_empty
build_pool_request host vhost method path headers body =
    fill_request pool_keeps_alive headers (if is_empty vhost then host else vhost) body
      (record (new_request 17 true) { path = path; method = method; close = false })

-- The path that the pool's get, post and request make of a URI.
unfoldable pub path_of : Uri → List ℕ
unfolding is_empty
path_of uri =
    uri.path
    ++ (if is_empty uri.query then [] else bytes "?")
    ++ uri.query
    ++ (if is_empty uri.fragment then [] else bytes "#")
    ++ uri.fragment

-- What the calls of HTTPConnection::Request(req, uri, timeout) give, each made when those before it have
-- succeeded: create_address, CreateTCP or its SSL form, connect, send_request and recv_response.
pub record Attempt {ℓ} (R : Type ℓ) : Type ℓ where
  pub has_address : Bool
  pub has_socket : Bool
  pub is_connected : Bool
  pub sent : ℤ
  pub received : Option R

-- HTTPConnection::Request(req, uri, timeout).
unfoldable pub attempt_result {ℓ} : {R : Type ℓ} → Attempt R → ErrorCode × Option R
attempt_result a =
    if not a.has_address
    then (invalid_host, none)
    else if not a.has_socket
    then (create_socket_error, none)
    else if not a.is_connected
    then (connect_fail, none)
    else elim a.sent [
      | negsuc n ↦ (send_socket_error, none)
      | pos n ↦
          if leb n 0
          then (send_close_by_peer, none)
          else elim a.received [ none ↦ (timeout, none) | some r ↦ (ok, some r) ]
    ]

-- The attempt is made over a socket of the TLS layer for this scheme.
unfoldable pub is_ssl : Uri → Bool
is_ssl uri = strcmp uri.scheme (bytes "https")

-- HTTPConnection::Request(method, uri, timeout, headers, body), and Get and Post of a URI.
unfoldable pub request_uri {ℓ} :
    {R : Type ℓ}
    → (Bool → HttpRequest → Attempt R)
    → HttpMethod
    → Uri
    → Fields
    → List ℕ
    → ErrorCode × Option R
unfolding build_request attempt_result is_ssl
request_uri attempt method uri headers body =
    attempt_result (attempt (is_ssl uri) (build_request method uri headers body))

-- The same of a URL, and Get and Post of a URL.
unfoldable pub request_url {ℓ} :
    {R : Type ℓ}
    → (List ℕ → Option Uri)
    → (Bool → HttpRequest → Attempt R)
    → HttpMethod
    → List ℕ
    → Fields
    → List ℕ
    → ErrorCode × Option R
unfolding request_uri
request_url create attempt method url headers body = elim (create url) [
  | none ↦ (invalid_url, none)
  | some uri ↦ request_uri attempt method uri headers body
]
