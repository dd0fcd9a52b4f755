-- ===== src/Http/SessionLaws.antt =====
-- src/servers/http/http_session.cc: the body of a request, and a peer that closes before its head ends.
use tiger.Base.{ℕ, zero, suc, ◌+◌, ◌-◌, ◌^◌, ◌≤◌, ◌<◌, false, List, [], ◌∷◌, ◌++◌, leb, ◌==◌}
use tiger.Base.{length, take, drop, ◌≡◌, refl, ap, sym, ◌∙◌, arith, Bool-cases, inl, inr, leb→le}
use tiger.Base.Int.{pos}
use tiger.Stream.Loops.{Stream, failed}
use tiger.Stream.Reliable.{IsReliable, read_fixed_size_lem}
use tiger.Http.Session.{
  RequestParser, Head, parsed, request, endless, parse_round, recv_head, recv_body, recv_request,
}

pub take-append_long :
    (n : ℕ) (xs ys : List ℕ) → length xs ≤ n → take n (xs ++ ys) ≡ xs ++ take (n - length xs) ys
take-append_long n [] ys h = ap (λ k. take k ys) {x = n} {y = n - 0} (omega arith)
take-append_long zero (x ∷ xs) ys h = absurd (omega arith)
take-append_long (suc n) (x ∷ xs) ys h = ap (◌∷◌ x) (
    take-append_long n xs ys (omega arith)
    ∙ ap (λ k. xs ++ take k ys) {x = n - length xs} {y = suc n - suc (length xs)} (omega arith))

pub take-append_short : (n : ℕ) (xs ys : List ℕ) → n ≤ length xs → take n (xs ++ ys) ≡ take n xs
take-append_short zero xs ys h = refl
take-append_short (suc n) [] ys h = absurd (omega arith)
take-append_short (suc n) (x ∷ xs) ys h = ap (◌∷◌ x) (take-append_short n xs ys (omega arith))

module _ {ℓ} {P S : Type ℓ} (parser : RequestParser P) (stream : Stream S)
    (r : IsReliable stream) where
  open r use {pending}

  -- When the head of a request is parsed, with bytes left in the buffer, on a reliable stream, and the
  -- content length is not 0 and not more than what is in the buffer and on its way, and fewer than 2^31
  -- bytes of it are still to be read, recv_request gives the request with the bytes that follow the head as its body, as many as the content length, be they
  -- in the buffer or still to be read; and only those are taken from the stream.
  pub recv_request_lem :
      (buff_size fuel : ℕ) (p p' : P) (rest : List ℕ) (s t : S)
      → recv_head parser stream buff_size fuel [] p s ≡ parsed rest p' t
      → 0 < parser.get_content_length p'
      → parser.get_content_length p' ≤ length rest + length (pending t)
      → parser.get_content_length p' - length rest < 2 ^ 31
      → (u : S) × (recv_request parser stream buff_size fuel p s
          ≡ request
              (parser.init
                (parser.set_body (take (parser.get_content_length p') (rest ++ pending t)) p'))
              u)
        × (pending u ≡ drop (parser.get_content_length p' - length rest) (pending t))
  unfolding recv_request recv_body
  recv_request_lem buff_size fuel p p' rest s t head some_bytes enough small =
      let len = parser.get_content_length p' in
      let z : (len == 0) ≡ false = ground arith in
      elim (Bool-cases (leb len (length rest))) [
        | inl e ↦ (
          t,
          rw (recv_request, head, recv_body, z, e)
              (ap (λ b. request (parser.init (parser.set_body b p')) t)
                (sym (take-append_short len rest (pending t) (leb→le len (length rest) e)))),
          ap (λ k. drop k (pending t)) {x = 0} {y = len - length rest}
              (omega (arith, leb→le len (length rest) e)),
        )
        | inr e ↦
            let (u, got, after, same) =
              read_fixed_size_lem stream r (len - length rest) t small (omega arith) in
            let long : length rest ≤ len = ground arith in
            (
              u,
              rw (recv_request, head, recv_body, z, e, got)
                  (ap (λ b. request (parser.init (parser.set_body b p')) u)
                    (sym (take-append_long len rest (pending t) long))),
              after,
            )
      ]

module _ {ℓ} {P S : Type ℓ} (parser : RequestParser P) (stream : Stream S) where
  recv_head_eof :
      (buff_size fuel : ℕ) (p : P) (s : S)
      → ((k : ℕ) → stream.read k s ≡ failed (pos 0) s)
      → parser.execute [] p ≡ (0, p)
      → parser.has_error p ≡ false
      → parser.is_finished p ≡ false
      → 0 < buff_size
      → recv_head parser stream buff_size fuel [] p s ≡ Head.unfinished
  unfolding recv_head parse_round
  recv_head_eof buff_size zero p s ends idle good more room = refl
  recv_head_eof buff_size (suc fuel) p s ends idle good more room =
      let z : (0 == buff_size) ≡ false = ground arith in
      rw (recv_head, ends (buff_size - 0), parse_round, idle, good, z, more)
        (recv_head_eof buff_size fuel p s ends idle good more room)

  -- When the peer has closed the connection, so that every read gives 0, and the parser has neither
  -- finished nor an error and parses nothing of an empty buffer, recv_request never returns: no number
  -- of reads is enough.
  pub recv_request_eof :
      (buff_size fuel : ℕ) (p : P) (s : S)
      → ((k : ℕ) → stream.read k s ≡ failed (pos 0) s)
      → parser.execute [] p ≡ (0, p)
      → parser.has_error p ≡ false
      → parser.is_finished p ≡ false
      → 0 < buff_size
      → recv_request parser stream buff_size fuel p s ≡ endless
  unfolding recv_request
  recv_request_eof buff_size fuel p s ends idle good more room =
      rw (recv_request, recv_head_eof buff_size fuel p s ends idle good more room) refl
