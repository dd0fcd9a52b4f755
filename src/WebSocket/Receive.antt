-- ===== src/WebSocket/Receive.antt =====
-- src/servers/http/ws_session.cc and src/servers/http/ws_connection.cc: receiving the frames that
-- send_message sends.
use tiger.Base.{ℕ, ◌+◌, ◌%◌, ◌^◌, ◌≤◌, ◌<◌, ◌≡◌, refl, ap, arith}
use tiger.Base.{Bool, true, false, not, ◌&&◌, ◌||◌, List, ◌++◌, Option, none, some, All}
use tiger.Base.{length, ltb, leb, ◌==◌, if◌then◌else◌, Bool-cases}
use tiger.Base.{inl, inr, ltb→lt, lt→ltb, lt→leb}
use native.Mathlib.Nat.{mod-eq_of_lt}
use tiger.ByteArray.Defs.{Endian}
use tiger.ByteArray.Typed.{object_bytes, object_value}
use tiger.ByteArray.Order.{IsByte, length-object_bytes}
use tiger.Stream.Loops.{Stream}
use tiger.Stream.Reliable.{IsReliable}
use tiger.WebSocket.Frame.{
  WsFrameHead, continue_frame, head_bytes, head_of, new_head, apply_mask, bswap_on_little_endian,
  payload_code, length_bytes,
}
use tiger.WebSocket.Mask.{
  head_of-head_bytes, apply_mask-apply_mask, length-apply_mask, short_length,
}
use tiger.WebSocket.Wire.{length_wire, payload_wire, is_masked, head_wire, frame_wire, IsMask}
use tiger.WebSocket.Session.{
  ◌>>=◌, pure, Round, again, finished, receive, recv_length, recv_payload, recv_frame,
}
use tiger.Base.Int.{widened_int}
use tiger.WebSocket.Steps.{Takes, receive-Takes, pure-Takes, >>=-Takes, last-Takes}

-- The opcode of the message after a frame, and the round's result.
unfoldable pub next_opcode : ℕ → ℕ → ℕ
next_opcode opcode op = if opcode == 0 && not (op == continue_frame) then op else opcode

unfoldable pub round : Bool → ℕ → List ℕ → Round
round fin opcode bytes = if fin then finished opcode bytes else again opcode bytes

payload_code_cases : (size : ℕ) → 126 ≤ size → size < 65536 → (payload_code size == 126) ≡ true
unfolding payload_code
payload_code_cases size h k = ground arith

payload_code_tiny :
    (size : ℕ)
    → size < 126
    → (payload_code size ≡ size) × ((size == 126) ≡ false) × ((size == 127) ≡ false)
unfolding payload_code
payload_code_tiny size h = (ground arith, ground arith, ground arith)

ltb-ge : (size : ℕ) → ltb size 126 ≡ false → 126 ≤ size
ltb-ge size h = ground arith

length_bytes-short :
    (platform : Endian) (size : ℕ)
    → 126 ≤ size
    → size < 65536
    → length_bytes platform size ≡ object_bytes platform 2 (bswap_on_little_endian platform 2 size)
unfolding length_bytes
length_bytes-short platform size h k = rw (payload_code_cases size h k) refl

pub widened_int_small : (a : ℕ) → a < 2 ^ 31 → widened_int a ≡ a
unfolding widened_int
widened_int_small a h =
    rw (mod-eq_of_lt {n = a} {m = 2 ^ 32} (omega arith), lt→ltb a (2 ^ 31) h) refl

-- The message is not too long for the receiver.
size_guard :
    (max_size a b : ℕ)
    → a + b < max_size
    → a + b < 2 ^ 31
    → leb max_size ((widened_int a + b) % 2 ^ 64) ≡ false
size_guard max_size a b h k =
    rw (widened_int_small a (omega arith), mod-eq_of_lt {n = a + b} {m = 2 ^ 64} (omega arith))
      (lt→leb max_size (a + b) h)

payload_code_lt : (size : ℕ) → payload_code size < 128
unfolding payload_code
payload_code_lt size = ground arith

pub data_opcode :
    (op : ℕ)
    → op ≤ 2
    → ((op % 16 == 9) ≡ false)
      × ((op % 16 == 10) ≡ false)
      × (((op % 16 == 0) || (op % 16 == 1) || (op % 16 == 2)) ≡ true)
data_opcode op h = (ground arith, ground arith, ground arith)

pub length-head_wire :
    (mask : Option (List ℕ)) (op : ℕ) (bytes : List ℕ) (fin : Bool)
    → length (head_wire mask op bytes fin) ≡ 2
unfolding head_wire head_bytes
length-head_wire mask op bytes fin = refl

pub head_wire-head :
    (mask : Option (List ℕ)) (op : ℕ) (bytes : List ℕ) (fin : Bool)
    → head_of (head_wire mask op bytes fin)
      ≡ new_head op fin (payload_code (length bytes)) (is_masked mask)
unfolding head_wire
head_wire-head mask op bytes fin =
    head_of-head_bytes (new_head op fin (payload_code (length bytes)) (is_masked mask))
      (unfold new_head in omega arith) (unfold new_head in payload_code_lt (length bytes))

module _ {ℓ} {S : Type ℓ} (stream : Stream S) (r : IsReliable stream) (platform : Endian) where
  open r use {pending, sent}

  recv_length-Takes :
      (h : WsFrameHead) (size : ℕ)
      → h.payload ≡ payload_code size
      → size < 65536
      → Takes stream r (recv_length stream platform h) size (length_wire platform size)
  unfolding recv_length length_wire
  recv_length-Takes h size e k = elim (Bool-cases (ltb size 126)) [
    | inl f ↦
        let (same, no_short, no_long) = payload_code_tiny size (ltb→lt size 126 f) in
        rw f (rw e (rw same (rw no_short (rw no_long (pure-Takes stream r size)))))
    | inr f ↦ rw f (
        rw e (
          rw (payload_code_cases size (ltb-ge size f) k) (
            rw (length_bytes-short platform size (ltb-ge size f) k) (
              last-Takes stream r (receive stream 2)
                (λ bs. bswap_on_little_endian platform 2 (object_value platform bs))
                (object_bytes platform 2 (bswap_on_little_endian platform 2 size)) size
                (object_bytes platform 2 (bswap_on_little_endian platform 2 size))
                (receive-Takes stream r 2
                  (object_bytes platform 2 (bswap_on_little_endian platform 2 size))
                  (length-object_bytes platform 2 (bswap_on_little_endian platform 2 size))
                  (omega arith) (omega arith))
                (short_length platform size k)))))
  ]

  recv_payload-Takes :
      (max_size opcode op : ℕ) (bytes0 bytes : List ℕ) (fin : Bool) (mask : Option (List ℕ))
      → 0 < length bytes
      → IsMask mask
      → All IsByte bytes
      → length bytes0 + length bytes < max_size
      → length bytes0 + length bytes < 2 ^ 31
      → Takes stream r
          (recv_payload stream max_size opcode bytes0
            (new_head op fin (payload_code (length bytes)) (is_masked mask))
            (length bytes))
          (round fin (next_opcode opcode (op % 16)) (bytes0 ++ bytes))
          (payload_wire mask bytes)
  unfolding recv_payload payload_wire is_masked round next_opcode IsMask new_head
  recv_payload-Takes max_size opcode op bytes0 bytes fin none h m b fits big =
      rw (size_guard max_size (length bytes0) (length bytes) fits big) (
        last-Takes stream r (receive stream (length bytes))
          (λ bs. round fin (next_opcode opcode (op % 16)) (bytes0 ++ bs)) bytes
          (round fin (next_opcode opcode (op % 16)) (bytes0 ++ bytes)) bytes
          (receive-Takes stream r (length bytes) bytes refl h (omega arith)) refl)
  recv_payload-Takes max_size opcode op bytes0 bytes fin (some mask) h m b fits big =
      rw (size_guard max_size (length bytes0) (length bytes) fits big) (
        >>=-Takes stream r (receive stream 4)
          (λ mask'. receive stream (length bytes) >>= λ bs.
            pure (round fin (next_opcode opcode (op % 16)) (bytes0 ++ apply_mask mask' 0 bs)))
          mask _ mask (apply_mask mask 0 bytes)
          (receive-Takes stream r 4 mask m.0 (omega arith) (omega arith))
          (last-Takes stream r (receive stream (length bytes))
            (λ bs. round fin (next_opcode opcode (op % 16)) (bytes0 ++ apply_mask mask 0 bs))
            (apply_mask mask 0 bytes) (round fin (next_opcode opcode (op % 16)) (bytes0 ++ bytes))
            (apply_mask mask 0 bytes)
            (receive-Takes stream r (length bytes) (apply_mask mask 0 bytes)
              (length-apply_mask mask 0 bytes) h (omega arith))
            (ap (λ d. round fin (next_opcode opcode (op % 16)) (bytes0 ++ d))
              (apply_mask-apply_mask mask 0 bytes m.1 b))))

  pub recv_frame-Takes :
      (must_mask : Bool) (max_size opcode op : ℕ) (bytes0 bytes : List ℕ) (fin : Bool)
      (mask : Option (List ℕ))
      → 0 < length bytes
      → length bytes < 65536
      → IsMask mask
      → All IsByte bytes
      → op ≤ 2
      → (must_mask && not (is_masked mask)) ≡ false
      → length bytes0 + length bytes < max_size
      → length bytes0 + length bytes < 2 ^ 31
      → Takes stream r
          (recv_frame stream platform must_mask max_size opcode bytes0)
          (round fin (next_opcode opcode (op % 16)) (bytes0 ++ bytes))
          (frame_wire platform mask op bytes fin)
  unfolding recv_frame frame_wire new_head
  recv_frame-Takes must_mask max_size opcode op bytes0 bytes fin mask h short m b o g fits big =
      let (no_ping, no_pong, is_data) = data_opcode op o in
      >>=-Takes stream r (receive stream 2) _ (head_wire mask op bytes fin) _
        (head_wire mask op bytes fin) _
        (receive-Takes stream r 2 (head_wire mask op bytes fin) (length-head_wire mask op bytes fin)
          (omega arith) (omega arith))
        (rw (head_wire-head mask op bytes fin) (
          rw no_ping (
            rw no_pong (
              rw is_data (
                rw g (
                  >>=-Takes stream r _ _ (length bytes) _ (length_wire platform (length bytes))
                    (payload_wire mask bytes)
                    (recv_length-Takes
                      (new_head op fin (payload_code (length bytes)) (is_masked mask))
                      (length bytes) refl short)
                    (recv_payload-Takes max_size opcode op bytes0 bytes fin mask h m b fits
                      big)))))))
