-- ===== src/Tests/Connection.antt =====
-- Concrete runs of src/servers/http/http_connection.cc, with a parser whose head of a response is one byte
-- and whose head of a chunk is the chunk's length.
use tiger.Base.{ℕ, Bool, true, false, List, [], ◌∷◌, none, some, ◌≡◌, refl, arith}
use tiger.Http.Bytes.{bytes}
use tiger.Http.Method.{HttpMethod}
use tiger.Http.Fields.{Fields, find}
use tiger.Connection.Pool.{Connection, Pool, new_pool, get_connection, release}
use tiger.Connection.Borrow.{Given, get_connection_lem}
use tiger.Connection.Total.{
  Owner, owner, Reach, here, next, borrow, give_back, IsBalanced, Reach-IsBalanced,
}
use tiger.Connection.Build.{Uri, build_request}
use tiger.Connection.BuildLaws.{build_request_lem, asks_to_keep, names_host}
use tiger.Connection.Response.{
  ResponseParser, endless, recv_head, recv_chunk_head, recv_response, parse_round,
}
use tiger.Connection.Replies.{recv_response_eof}
use tiger.Tests.Pipe.{Pipe, pipe}

-- One connection that the peer has closed, one that is too old, and two that can be used.
abbrev used : Pool
used = record {
  max_size = 4;
  max_alive_time = 30;
  max_request = 3;
  conns =
      record { create_time = 90; request = 1; connected = false }
      ∷ record { create_time = 60; request = 1; connected = true }
      ∷ record { create_time = 80; request = 2; connected = true }
      ∷ record { create_time = 95; request = 1; connected = true }
      ∷ [];
  total = 4;
}

get_connection_lem_example : Given 100 none used
get_connection_lem_example = get_connection_lem 100 none used

abbrev opened : Connection
opened = record { create_time = 5; request = 0; connected = true }

abbrev one_out : Owner
one_out = owner (record (new_pool 4 30 3) { total = 1 }) (opened ∷ [])

abbrev one_back : Owner
one_back = owner (release 9 opened (record (new_pool 4 30 3) { total = 1 })) []

abbrev borrowed_and_back : Reach (owner (new_pool 4 30 3) []) one_back
unfolding get_connection new_pool
borrowed_and_back =
    next (owner (new_pool 4 30 3) []) one_out one_back
      (next (owner (new_pool 4 30 3) []) (owner (new_pool 4 30 3) []) one_out
        (here (owner (new_pool 4 30 3) []))
        (borrow 4 (some 5) opened (new_pool 4 30 3) (record (new_pool 4 30 3) { total = 1 }) []
          refl))
      (give_back 9 (record (new_pool 4 30 3) { total = 1 }) [] opened [])

Reach-IsBalanced_example : IsBalanced one_back
Reach-IsBalanced_example = Reach-IsBalanced 4 30 3 one_back borrowed_and_back

abbrev page : Uri
page = record {
  scheme = bytes "http";
  host = bytes "h.org";
  path = bytes "/a";
  query = [];
  fragment = [];
}

abbrev given : Fields
given = (bytes "Connection", bytes "Keep-Alive") ∷ (bytes "Host", []) ∷ (bytes "X", bytes "1") ∷ []

build_request_lem_example :
    ((build_request HttpMethod.get page given []).close ≡ false)
    × (find (build_request HttpMethod.get page given []).headers (bytes "host")
        ≡ some (bytes "h.org"))
unfolding asks_to_keep names_host
build_request_lem_example = build_request_lem HttpMethod.get page given [] (bytes "host")

-- What was parsed: a head, the length of the chunk, and the body.
abbrev Parser : Type 0
Parser = Bool × ℕ × List ℕ

abbrev parse : List ℕ → Bool → Parser → ℕ × Parser
parse [] chunk_head p = (0, p)
parse (b ∷ bs) chunk_head (seen, n, body) = (1, (true, b, body))

abbrev short_heads : Bool → ResponseParser Parser
short_heads chunked = record {
  execute = parse;
  has_error = λ p. false;
  is_finished = λ p. p.0;
  get_content_length = λ p. p.1;
  chunked = λ p. chunked;
  content_len = λ p. p.1;
  chunks_done = λ p. false;
  content_encoding = λ p. [];
  set_body = λ body p. (p.0, p.1, body);
}

recv_response_eof_example :
    recv_response (short_heads true) pipe (λ b. b) (λ b. b) 16 4 (false, 0, []) (1 ∷ 3 ∷ [], [])
    ≡ endless
unfolding recv_head recv_chunk_head parse_round
recv_response_eof_example =
    recv_response_eof (short_heads true) pipe (λ b. b) (λ b. b) 16 3 (false, 0, []) (true, 1, [])
      (true, 3, []) [] [] (1 ∷ 3 ∷ [], []) (3 ∷ [], []) ([], []) refl refl refl (omega arith)
      (omega arith) (λ k. refl)
