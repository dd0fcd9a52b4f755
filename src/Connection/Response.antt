-- ===== src/Connection/Response.antt =====
-- src/servers/http/http_connection.cc: HTTPConnection::recv_response. The parser is generated code and a
-- parameter; `execute` moves the bytes it has not parsed to the front of the buffer. Whether zlib is
-- asked, and what it makes of a body, is a parameter too.
use tiger.Base.{ℕ, zero, suc, ◌+◌, ◌-◌, ◌^◌, Bool, true, false, not, ◌||◌, List, [], ◌++◌}
use tiger.Base.{leb, ◌==◌, if◌then◌else◌, length, take, drop}
use Prim.Native.Nat.{min}
use tiger.Base.Int.{pos, negsuc}
use tiger.Http.Bytes.{bytes}
use tiger.Http.Fields.{strcasecmp}
use tiger.Stream.Loops.{moved, failed, Stream, all, stopped, out_of_fuel, read_fixed_size}

-- HTTPResponseParser: how many bytes `execute` has parsed, asked for a chunk's head or not; what it has
-- found in the head of the response or of a chunk; and its response's `content-encoding` and body.
pub record ResponseParser {κ} (P : Type κ) : Type κ where
  pub execute : List ℕ → Bool → P → ℕ × P
  pub has_error : P → Bool
  pub is_finished : P → Bool
  pub get_content_length : P → ℕ
  pub chunked : P → Bool
  pub content_len : P → ℕ
  pub chunks_done : P → Bool
  pub content_encoding : P → List ℕ
  pub set_body : List ℕ → P → P

-- A head is parsed: the bytes behind it in the buffer.
pub data Parsing {ℓ} (P S : Type ℓ) : Type ℓ where
  parsed : List ℕ → P → S → Parsing P S
  broken : S → Parsing P S
  unfinished : Parsing P S

-- What follows the head of a chunk: the body so far, and the bytes behind the chunk in the buffer; or
-- an `append` of a negative length, which throws, or of bytes that are not there.
pub data Chunk {ℓ} (S : Type ℓ) : Type ℓ where
  chunk : List ℕ → List ℕ → S → Chunk S
  cut : S → Chunk S
  too_long : Chunk S
  spinning : Chunk S

-- recv_response: the parser's response, nullptr on a stream that it has closed, or an `append` that
-- fails.
pub data Received {ℓ} (P S : Type ℓ) : Type ℓ where
  response : P → S → Received P S
  closed : S → Received P S
  fault : Received P S
  endless : Received P S

-- The body, unpacked.
unfoldable pub decode : (List ℕ → List ℕ) → (List ℕ → List ℕ) → List ℕ → List ℕ → List ℕ
decode gunzip inflate encoding body =
    if strcasecmp encoding (bytes "gzip")
    then gunzip body
    else if strcasecmp encoding (bytes "deflate")
    then inflate body
    else body

module _ {ℓ} {P S : Type ℓ} (parser : ResponseParser P) (stream : Stream S) where
  -- A round of either parsing loop behind its read. `chunk_head` is the argument of `execute`.
  unfoldable pub parse_round :
      Bool → ℕ → List ℕ → P → S → (List ℕ → P → S → Parsing P S) → Parsing P S
  parse_round chunk_head buffer_size data' p s again =
      let (nparse, p') = parser.execute data' chunk_head p in
      let rest = drop nparse data' in
      if parser.has_error p'
      then broken (stream.close s)
      else if length rest == buffer_size
      then broken (stream.close s)
      else if parser.is_finished p'
      then parsed rest p' s
      else again rest p' s

  -- The loop over the head of the response. The fuel is the number of reads.
  unfoldable pub recv_head : ℕ → ℕ → List ℕ → P → S → Parsing P S
  unfolding parse_round
  recv_head buffer_size zero held p s = unfinished
  recv_head buffer_size (suc fuel) held p s = elim (stream.read (buffer_size - length held) s) [
    | moved bytes s' ↦
        parse_round false buffer_size (held ++ bytes) p s'
          (λ rest p' t. recv_head buffer_size fuel rest p' t)
    | failed code s' ↦ broken (stream.close s')
  ]

  -- The loop over the head of a chunk, which reads first unless it begins with bytes in the buffer.
  unfoldable pub recv_chunk_head : ℕ → ℕ → Bool → List ℕ → P → S → Parsing P S
  unfolding parse_round
  recv_chunk_head buffer_size zero begin held p s = unfinished
  recv_chunk_head buffer_size (suc fuel) begin held p s =
      let again : List ℕ → P → S → Parsing P S =
        λ rest p' t. recv_chunk_head buffer_size fuel false rest p' t in
      let reading : Parsing P S = elim (stream.read (buffer_size - length held) s) [
        | moved bytes s' ↦ parse_round true buffer_size (held ++ bytes) p s' again
        | failed code s' ↦ broken (stream.close s')
      ] in
      if not begin || length held == 0 then reading else parse_round true buffer_size held p s again

  -- The loop that reads the rest of a chunk. It ends for a code below 0 only.
  unfoldable pub recv_left : ℕ → ℕ → ℕ → List ℕ → S → Chunk S
  recv_left buffer_size fuel zero body s = chunk (take (length body - 2) body) [] s
  recv_left buffer_size zero (suc left) body s = spinning
  recv_left buffer_size (suc fuel) (suc left) body s =
      elim (stream.read (min (suc left) buffer_size) s) [
        | moved bytes s' ↦ recv_left buffer_size fuel (suc left - length bytes) (body ++ bytes) s'
        | failed (pos n) s' ↦ recv_left buffer_size fuel (suc left) body s'
        | failed (negsuc n) s' ↦ cut (stream.close s')
      ]

  -- What the loop over the chunks does behind a chunk's head. `content_len` is the pattern of an int:
  -- negative from 2^31 on, and `content_len + 2` overflows before. (For a content_len of -1 and an
  -- empty buffer the code reads one more byte instead.)
  unfoldable pub recv_chunk : ℕ → ℕ → ℕ → List ℕ → List ℕ → S → Chunk S
  unfolding recv_left
  recv_chunk buffer_size fuel content_len held body s =
      if leb (2 ^ 31) (content_len + 2)
      then too_long
      else if leb (content_len + 2) (length held)
      then chunk (body ++ take content_len held) (drop (content_len + 2) held) s
      else recv_left buffer_size fuel (content_len + 2 - length held) (body ++ held) s

  -- The loop over the chunks, and what it does with the whole body.
  unfoldable pub recv_chunks :
      ℕ → ℕ → List ℕ → List ℕ → P → S → (List ℕ → P → S → Received P S) → Received P S
  unfolding recv_chunk_head recv_chunk
  recv_chunks buffer_size zero held body p s done = endless
  recv_chunks buffer_size (suc fuel) held body p s done =
      elim (recv_chunk_head buffer_size (suc fuel) true held p s) [
        | broken t ↦ closed t
        | unfinished ↦ endless
        | parsed rest p' t ↦
            elim (recv_chunk buffer_size (suc fuel) (parser.content_len p') rest body t) [
              | cut u ↦ closed u
              | too_long ↦ Received.fault
              | spinning ↦ endless
              | chunk body' rest' u ↦
                  let more = recv_chunks buffer_size fuel rest' body' p' u done in
                  if parser.chunks_done p' then done body' p' u else more
            ]
      ]

  -- The body of a response whose length is known.
  unfoldable pub recv_known : List ℕ → P → S → (List ℕ → P → S → Received P S) → Received P S
  recv_known held p s done =
      let len = parser.get_content_length p in
      let missing : Received P S = elim (read_fixed_size stream (len - length held) s) [
        | all bytes t ↦ done (held ++ bytes) p t
        | stopped code t ↦ closed (stream.close t)
        | out_of_fuel ↦ endless
      ] in
      if len == 0
      then done [] p s
      else if leb len (length held)
      then done (take len held) p s
      else missing

  -- The end of recv_response.
  unfoldable pub finish : (List ℕ → List ℕ) → (List ℕ → List ℕ) → List ℕ → P → S → Received P S
  unfolding decode
  finish gunzip inflate body p s =
      if length body == 0
      then response p s
      else response (parser.set_body (decode gunzip inflate (parser.content_encoding p) body) p) s

  -- recv_response, each of whose loops goes round `fuel` times at most.
  unfoldable pub recv_response :
      (List ℕ → List ℕ) → (List ℕ → List ℕ) → ℕ → ℕ → P → S → Received P S
  unfolding recv_head recv_chunks recv_known finish
  recv_response gunzip inflate buffer_size fuel p s = elim (recv_head buffer_size fuel [] p s) [
    | broken t ↦ closed t
    | unfinished ↦ endless
    | parsed held p' t ↦
        if parser.chunked p'
        then recv_chunks buffer_size fuel held [] p' t (finish gunzip inflate)
        else recv_known held p' t (finish gunzip inflate)
  ]
