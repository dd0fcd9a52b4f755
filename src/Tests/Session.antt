-- ===== src/Tests/Session.antt =====
-- Concrete runs of src/servers/http/http_session.cc, with a parser whose heads are one byte long.
use tiger.Base.{ℕ, List, [], ◌∷◌, Bool, true, false, drop, ◌≡◌, refl, arith}
use tiger.Http.Session.{RequestParser, recv_request, recv_head, parse_round, request, endless}
use tiger.Http.SessionLaws.{recv_request_lem, recv_request_eof}
use tiger.Tests.Pipe.{Pipe, pipe, pipe-IsReliable}

-- Whether a head was seen, and the body.
abbrev Parser : Type 0
Parser = Bool × List ℕ

abbrev parse : List ℕ → Parser → ℕ × Parser
parse [] p = (0, p)
parse (b ∷ bs) (seen, body) = (1, (true, body))

abbrev one_byte : RequestParser Parser
one_byte = record {
  execute = parse;
  has_error = λ p. false;
  is_finished = λ p. p.0;
  get_content_length = λ p. 2;
  set_body = λ body p. (p.0, body);
  init = λ p. p;
}

recv_request_lem_example :
    (u : Pipe) × (recv_request one_byte pipe 16 3 (false, []) (9 ∷ 4 ∷ 5 ∷ 6 ∷ [], [])
      ≡ request (true, 4 ∷ 5 ∷ []) u)
    × (u.0 ≡ drop 2 (4 ∷ 5 ∷ 6 ∷ []))
unfolding recv_head parse_round
recv_request_lem_example =
    recv_request_lem one_byte pipe pipe-IsReliable 16 3 (false, []) (true, []) []
      (9 ∷ 4 ∷ 5 ∷ 6 ∷ [], []) (4 ∷ 5 ∷ 6 ∷ [], []) refl (omega arith) (omega arith) (omega arith)

recv_request_eof_example : recv_request one_byte pipe 16 5 (false, []) ([], []) ≡ endless
recv_request_eof_example =
    recv_request_eof one_byte pipe 16 5 (false, []) ([], []) (λ k. refl) refl refl refl
      (omega arith)
