-- ===== src/WebSocket/Wire.antt =====
-- src/servers/http/ws_session.cc and src/servers/http/ws_connection.cc: a frame as the bytes that go
-- over the stream, and sending it.
use tiger.Base.{ℕ, ◌+◌, ◌^◌, ◌<◌, ◌≡◌, refl, sym, ap, ◌∙◌, arith}
use tiger.Base.{Bool, true, false, List, [], ◌∷◌, ◌++◌, Option, none, some, length}
use tiger.Base.{ltb, ◌==◌, if◌then◌else◌, Bool-cases, inl, inr, All}
use tiger.Base.Int.{pos}
use mathlib.Core.List.{append_assoc, append-nil}
use tiger.ByteArray.Defs.{Endian}
use tiger.Stream.Loops.{Stream}
use tiger.Stream.Reliable.{IsReliable, write_fixed_size_lem}
use tiger.ByteArray.Order.{IsByte, length-object_bytes}
use tiger.WebSocket.Frame.{
  bswap_on_little_endian, bswap_on_big_endian, head_bytes, new_head, apply_mask, payload_code,
  length_bytes,
}
use tiger.WebSocket.Mask.{length-apply_mask}
use tiger.WebSocket.Session.{
  go, Io, ◌>>=◌, ◌>>◌, pure, returned, transmit, send_frame, send_message,
}

pub not_zero : (n : ℕ) → 0 < n → (n == 0) ≡ false
not_zero n h = ground arith

-- The bytes behind the head that give the length.
unfoldable pub length_wire : Endian → ℕ → List ℕ
length_wire platform size = if ltb size 126 then [] else length_bytes platform size

unfoldable pub payload_wire : Option (List ℕ) → List ℕ → List ℕ
payload_wire none bytes = bytes
payload_wire (some mask) bytes = mask ++ apply_mask mask 0 bytes

unfoldable pub is_masked : Option (List ℕ) → Bool
is_masked none = false
is_masked (some mask) = true

unfoldable pub head_wire : Option (List ℕ) → ℕ → List ℕ → Bool → List ℕ
unfolding is_masked
head_wire mask opcode bytes fin =
    head_bytes (new_head opcode fin (payload_code (length bytes)) (is_masked mask))

-- A whole frame.
unfoldable pub frame_wire : Endian → Option (List ℕ) → ℕ → List ℕ → Bool → List ℕ
unfolding length_wire payload_wire head_wire
frame_wire platform mask opcode bytes fin =
    head_wire mask opcode bytes fin
    ++ (length_wire platform (length bytes) ++ payload_wire mask bytes)

-- A mask has four bytes.
unfoldable pub IsMask : Option (List ℕ) → Type 0
IsMask none = Unit {0}
IsMask (some mask) = (length mask ≡ 4) × All IsByte mask

length_bytes_lt :
    (platform : Endian) (size : ℕ)
    → ltb size 126 ≡ false
    → (0 < length (length_bytes platform size)) × (length (length_bytes platform size) < 2 ^ 31)
unfolding length_bytes payload_code
length_bytes_lt platform size e = elim (Bool-cases (ltb size 65536)) [
  | inl f ↦
      let n = length-object_bytes platform 2 (bswap_on_little_endian platform 2 size) in
      rw e (rw f (omega (arith, n), omega (arith, n)))
  | inr f ↦
      let n = length-object_bytes platform 8 (bswap_on_big_endian platform 8 size) in
      rw e (rw f (omega (arith, n), omega (arith, n)))
]

module _ {ℓ} {S : Type ℓ} (stream : Stream S) (r : IsReliable stream) where
  open r use {pending, sent}

  -- A call that sends these bytes and receives none.
  unfoldable pub Sends : {A : Type 0} → Io S A → A → List ℕ → Type ℓ
  Sends m a bytes =
      (s : S) → (t : S) × (m s ≡ go a t) × (sent t ≡ sent s ++ bytes) × (pending t ≡ pending s)

  pub transmit-Sends :
      (bytes : List ℕ)
      → 0 < length bytes
      → length bytes < 2 ^ 31
      → Sends (transmit stream bytes) tt bytes
  unfolding Sends transmit
  transmit-Sends [] h small s = absurd (omega arith)
  transmit-Sends (b ∷ bs) h small s =
      let (t, done, out, kept) = write_fixed_size_lem stream r (b ∷ bs) s small in
      (t, rw (done, transmit) (rw (not_zero (length (b ∷ bs)) h) refl), out, kept)

  pure-Sends : {A : Type 0} (a : A) → Sends (pure a) a []
  unfolding Sends
  pure-Sends a s = (s, refl, sym (append-nil (sent s)), refl)

  -- One call behind another sends its bytes behind the other's.
  >>-Sends :
      {B : Type 0} (m : Io S (Unit {0})) (k : Io S B) (b : B) (xs ys : List ℕ)
      → Sends m tt xs
      → Sends k b ys
      → Sends (m >> k) b (xs ++ ys)
  unfolding Sends
  >>-Sends m k b xs ys h j s =
      let (t, first, out, kept) = h s in
      let (u, second, out', kept') = j t in
      (
        u,
        rw (first, ◌>>=◌) second,
        out' ∙ ap (λ x. x ++ ys) out ∙ append_assoc (sent s) xs ys,
        kept' ∙ kept,
      )

  last-Sends :
      {B : Type 0} (m : Io S (Unit {0})) (b : B) (xs : List ℕ)
      → Sends m tt xs
      → Sends (m >> pure b) b xs
  unfolding Sends
  last-Sends m b xs h s = let (t, first, out, kept) = h s in (t, rw (first, ◌>>=◌) refl, out, kept)

module _ {ℓ} {S : Type ℓ} (stream : Stream S) (r : IsReliable stream) (platform : Endian) where
  open r use {pending, sent}

  length-Sends :
      (size : ℕ)
      → 0 < size
      → Sends stream r
          (if ltb size 126 then pure tt else transmit stream (length_bytes platform size))
          tt
          (length_wire platform size)
  unfolding length_wire
  length-Sends size h = elim (Bool-cases (ltb size 126)) [
    | inl e ↦ rw e (pure-Sends stream r tt)
    | inr e ↦ rw e (
        transmit-Sends stream r (length_bytes platform size) (length_bytes_lt platform size e).0
          (length_bytes_lt platform size e).1)
  ]

  -- The order of the calls is the order of the bytes.
  send_frame-Sends :
      (mask : Option (List ℕ)) (opcode : ℕ) (bytes : List ℕ) (fin : Bool)
      → 0 < length bytes
      → length bytes < 2 ^ 31
      → IsMask mask
      → Sends stream r
          (send_frame stream platform mask opcode bytes fin)
          (length bytes + 2)
          (frame_wire platform mask opcode bytes fin)
  unfolding send_frame frame_wire IsMask head_bytes
  send_frame-Sends none opcode bytes fin h small k =
      >>-Sends stream r _ _ (length bytes + 2) (head_wire none opcode bytes fin) _
        (transmit-Sends stream r (head_wire none opcode bytes fin) (omega arith) (omega arith))
        (>>-Sends stream r _ _ (length bytes + 2) (length_wire platform (length bytes)) _
          (length-Sends (length bytes) h)
          (last-Sends stream r _ (length bytes + 2) bytes (transmit-Sends stream r bytes h small)))
  send_frame-Sends (some mask) opcode bytes fin h small k =
      >>-Sends stream r _ _ (length bytes + 2) (head_wire (some mask) opcode bytes fin) _
        (transmit-Sends stream r (head_wire (some mask) opcode bytes fin) (omega arith)
          (omega arith))
        (>>-Sends stream r _ _ (length bytes + 2) (length_wire platform (length bytes)) _
          (length-Sends (length bytes) h)
          (>>-Sends stream r _ _ (length bytes + 2) mask (apply_mask mask 0 bytes)
            (transmit-Sends stream r mask (omega (arith, k.0)) (omega (arith, k.0)))
            (last-Sends stream r _ (length bytes + 2) (apply_mask mask 0 bytes) (
              transmit-Sends stream r (apply_mask mask 0 bytes)
                (omega (arith, length-apply_mask mask 0 bytes))
                (omega (arith, small, length-apply_mask mask 0 bytes))))))

  -- On a reliable stream send_message of a text of 1 to 2^31 - 1 bytes returns its size with the head's,
  -- and has sent exactly the frame: head, length, mask if it is the client, and the (masked) text.
  pub send_message_lem :
      (mask : Option (List ℕ)) (opcode : ℕ) (bytes : List ℕ) (fin : Bool) (s : S)
      → 0 < length bytes
      → length bytes < 2 ^ 31
      → IsMask mask
      → (t : S) × (send_message stream platform mask opcode bytes fin s
          ≡ returned (pos (length bytes + 2)) t)
        × (sent t ≡ sent s ++ frame_wire platform mask opcode bytes fin)
        × (pending t ≡ pending s)
  unfolding send_message Sends
  send_message_lem mask opcode bytes fin s h small k =
      let (t, done, out, kept) = send_frame-Sends mask opcode bytes fin h small k s in
      (t, rw (done, send_message) refl, out, kept)
