-- ===== src/Connection/Replies.antt =====
-- src/servers/http/http_connection.cc: what recv_response makes of a body of a known length, and of a peer
-- that closes within a chunk.
use tiger.Base.{
  ℕ, zero, suc, ◌+◌, ◌-◌, ◌^◌, ◌≤◌, ◌<◌, true, false, List, [], ◌++◌, leb, lt→leb, ◌==◌,
}
use tiger.Base.{
  length, take, drop, length-append, length-take, ◌≡◌, refl, ap, sym, ◌∙◌, arith, Bool-cases, inl,
  inr, leb→le,
}
use Prim.Native.Nat.{min}
use tiger.Base.Int.{pos}
use tiger.Stream.Loops.{Stream, failed}
use tiger.Stream.Reliable.{IsReliable, read_fixed_size_lem}
use tiger.Http.SessionLaws.{take-append_long, take-append_short}
use tiger.Connection.Response.{
  ResponseParser, parsed, spinning, Received, response, endless, decode, recv_head, recv_chunk_head,
  recv_left, recv_chunk, recv_chunks, recv_known, finish, recv_response,
}

module _ {ℓ} {P S : Type ℓ} (parser : ResponseParser P) (stream : Stream S)
    (r : IsReliable stream) where
  open r use {pending}

  recv_known_lem :
      (held : List ℕ) (p : P) (s : S) (done : List ℕ → P → S → Received P S)
      → 0 < parser.get_content_length p
      → parser.get_content_length p ≤ length held + length (pending s)
      → parser.get_content_length p - length held < 2 ^ 31
      → (u : S) × (recv_known parser stream held p s done
          ≡ done (take (parser.get_content_length p) (held ++ pending s)) p u)
        × (pending u ≡ drop (parser.get_content_length p - length held) (pending s))
  unfolding recv_known
  recv_known_lem held p s done some_bytes enough small =
      let len = parser.get_content_length p in
      let z : (len == 0) ≡ false = ground arith in
      elim (Bool-cases (leb len (length held))) [
        | inl e ↦ (
          s,
          rw (recv_known, z, e)
              (ap (λ b. done b p s)
                (sym (take-append_short len held (pending s) (leb→le len (length held) e)))),
          ap (λ k. drop k (pending s)) {x = 0} {y = len - length held}
              (omega (arith, leb→le len (length held) e)),
        )
        | inr e ↦
            let (u, got, after, same) =
              read_fixed_size_lem stream r (len - length held) s small (omega arith) in
            let long : length held ≤ len = ground arith in
            (
              u,
              rw (recv_known, z, e, got)
                  (ap (λ b. done b p u) (sym (take-append_long len held (pending s) long))),
              after,
            )
      ]

  -- When the head of a response is parsed, with bytes left in the buffer, on a reliable stream, and it
  -- is not chunked, its content length is not 0 and not more than what is in the buffer and on its way,
  -- and fewer than 2^31 bytes of it are still to be read,
  -- recv_response gives the response with the bytes that follow the head, as many as the content length,
  -- as its body, unpacked as content-encoding says; and only those are taken from the stream.
  recv_response_lem :
      (gunzip inflate : List ℕ → List ℕ) (buffer_size fuel : ℕ) (p p' : P) (held : List ℕ) (s t : S)
      → recv_head parser stream buffer_size fuel [] p s ≡ parsed held p' t
      → parser.chunked p' ≡ false
      → 0 < parser.get_content_length p'
      → parser.get_content_length p' ≤ length held + length (pending t)
      → parser.get_content_length p' - length held < 2 ^ 31
      → (u : S) × (recv_response parser stream gunzip inflate buffer_size fuel p s
          ≡ response
              (parser.set_body
                (decode gunzip inflate
                  (parser.content_encoding p')
                  (take (parser.get_content_length p') (held ++ pending t)))
                p')
              u)
        × (pending u ≡ drop (parser.get_content_length p' - length held) (pending t))
  unfolding recv_response finish
  recv_response_lem gunzip inflate buffer_size fuel p p' held s t head whole some_bytes enough
        small =
      let len = parser.get_content_length p' in
      let (u, got, after) =
        recv_known_lem held p' t (finish parser stream gunzip inflate) some_bytes enough small in
      let z : (length (take len (held ++ pending t)) == 0) ≡ false =
        ground (arith, length-take {0} len (held ++ pending t), length-append held (pending t)) in
      (u, rw (recv_response, head, whole) (got ∙ rw (finish, z) refl), after)

module _ {ℓ} {P S : Type ℓ} (parser : ResponseParser P) (stream : Stream S) where
  recv_left_eof :
      (buffer_size fuel left : ℕ) (body : List ℕ) (s : S)
      → ((k : ℕ) → stream.read k s ≡ failed (pos 0) s)
      → recv_left parser stream buffer_size fuel (suc left) body s ≡ spinning
  unfolding recv_left
  recv_left_eof buffer_size zero left body s ends = refl
  recv_left_eof buffer_size (suc fuel) left body s ends =
      rw (recv_left, ends (min (suc left) buffer_size))
        (recv_left_eof buffer_size fuel left body s ends)

  recv_chunk_eof :
      (buffer_size fuel n : ℕ) (held body : List ℕ) (s : S)
      → ((k : ℕ) → stream.read k s ≡ failed (pos 0) s)
      → length held < n + 2
      → n + 2 < 2 ^ 31
      → recv_chunk parser stream buffer_size fuel n held body s ≡ spinning
  unfolding recv_chunk
  recv_chunk_eof buffer_size fuel n held body s ends short small =
      let int : leb (2 ^ 31) (n + 2) ≡ false = lt→leb (2 ^ 31) (n + 2) small in
      let e : leb (n + 2) (length held) ≡ false = ground arith in
      rw (int, e, recv_chunk)
        (ap (λ k. recv_left parser stream buffer_size fuel k (body ++ held) s)
            {x = n + 2 - length held} {y = suc (n + 1 - length held)} (omega arith)
          ∙ recv_left_eof buffer_size fuel (n + 1 - length held) (body ++ held) s ends)

  -- When the response is chunked, the head of its first chunk is parsed, and the peer has closed the
  -- connection before the end of that chunk, whose length with its two bytes an int holds, so that every
  -- further read gives 0: recv_response never returns, whatever the number of reads is.
  pub recv_response_eof :
      (gunzip inflate : List ℕ → List ℕ) (buffer_size fuel : ℕ) (p p' p'' : P) (held rest : List ℕ)
      (s t u : S)
      → recv_head parser stream buffer_size (suc fuel) [] p s ≡ parsed held p' t
      → parser.chunked p' ≡ true
      → recv_chunk_head parser stream buffer_size (suc fuel) true held p' t ≡ parsed rest p'' u
      → length rest < parser.content_len p'' + 2
      → parser.content_len p'' + 2 < 2 ^ 31
      → ((k : ℕ) → stream.read k u ≡ failed (pos 0) u)
      → recv_response parser stream gunzip inflate buffer_size (suc fuel) p s ≡ endless
  unfolding recv_response recv_chunks
  recv_response_eof gunzip inflate size fuel p p' p'' held rest s t u head chunks first short small
        ends =
      rw
        (
          recv_response,
          head,
          chunks,
          recv_chunks,
          first,
          recv_chunk_eof size (suc fuel) (parser.content_len p'') rest [] u ends short small,
        )
        refl
