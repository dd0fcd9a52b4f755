-- ===== src/Http/Session.antt =====
-- src/servers/http/http_session.cc: HTTPSession over a stream. The parser is generated code, with the
-- request that it fills, and a parameter; `execute` moves the bytes it has not parsed to the front of
-- the buffer. A call of `read` that gives 0 is a failed one with that code. The content length is below
-- 2^63.
use tiger.Base.{ℕ, zero, suc, ◌-◌, Bool, List, [], ◌++◌, leb, ◌==◌}
use tiger.Base.{if◌then◌else◌, length, take, drop}
use tiger.Base.Int.{pos, negsuc}
use tiger.Stream.Loops.{
  moved, failed, Stream, Fixed, all, stopped, out_of_fuel, read_fixed_size, write_fixed_size,
}

-- HTTPRequestParser: how many bytes `execute` has parsed, and what it is asked.
pub record RequestParser {κ} (P : Type κ) : Type κ where
  pub execute : List ℕ → P → ℕ × P
  pub has_error : P → Bool
  pub is_finished : P → Bool
  pub get_content_length : P → ℕ
  pub set_body : List ℕ → P → P
  pub init : P → P

-- The head is parsed: the bytes behind it in the buffer.
pub data Head {ℓ} (P S : Type ℓ) : Type ℓ where
  parsed : List ℕ → P → S → Head P S
  refused : S → Head P S
  unfinished : Head P S

-- recv_request: the parser's request, or nullptr on a stream that it has closed.
pub data Received {ℓ} (P S : Type ℓ) : Type ℓ where
  request : P → S → Received P S
  closed : S → Received P S
  endless : Received P S

module _ {ℓ} {P S : Type ℓ} (parser : RequestParser P) (stream : Stream S) where
  -- A round of the loop behind its read.
  unfoldable pub parse_round : ℕ → List ℕ → P → S → (List ℕ → P → S → Head P S) → Head P S
  parse_round buff_size data' p s again =
      let (nparse, p') = parser.execute data' p in
      let rest = drop nparse data' in
      if parser.has_error p'
      then refused (stream.close s)
      else if length rest == buff_size
      then refused (stream.close s)
      else if parser.is_finished p'
      then parsed rest p' s
      else again rest p' s

  -- The loop. `held` stands at the front of the buffer; the fuel is the number of reads.
  unfoldable pub recv_head : ℕ → ℕ → List ℕ → P → S → Head P S
  unfolding parse_round
  recv_head buff_size zero held p s = Head.unfinished
  recv_head buff_size (suc fuel) held p s = elim (stream.read (buff_size - length held) s) [
    | moved bytes s' ↦
        parse_round buff_size (held ++ bytes) p s' (λ rest p' t. recv_head buff_size fuel rest p' t)
    | failed (pos n) s' ↦
        parse_round buff_size held p s' (λ rest p' t. recv_head buff_size fuel rest p' t)
    | failed (negsuc n) s' ↦ refused (stream.close s')
  ]

  unfoldable pub recv_body : List ℕ → P → S → Received P S
  recv_body rest p s =
      let len = parser.get_content_length p in
      let done : List ℕ → S → Received P S =
        λ body t. request (parser.init (parser.set_body body p)) t in
      let missing : Received P S = elim (read_fixed_size stream (len - length rest) s) [
        | all bytes t ↦ done (rest ++ bytes) t
        | stopped code t ↦ closed (stream.close t)
        | out_of_fuel ↦ endless
      ] in
      if len == 0
      then request (parser.init p) s
      else if leb len (length rest)
      then done (take len rest) s
      else missing

  unfoldable pub recv_request : ℕ → ℕ → P → S → Received P S
  unfolding recv_head recv_body
  recv_request buff_size fuel p s = elim (recv_head buff_size fuel [] p s) [
    | parsed rest p' t ↦ recv_body rest p' t
    | refused t ↦ closed t
    | unfinished ↦ endless
  ]

  -- send_response, of the response's text.
  unfoldable pub send_response : List ℕ → S → Fixed (Unit {0}) S
  send_response text s = write_fixed_size stream text s
