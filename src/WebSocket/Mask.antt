-- ===== src/WebSocket/Mask.antt =====
-- src/servers/http/ws_session.cc and src/servers/http/ws_connection.cc: masking twice, the head of a
-- frame in memory, and its length as it goes over the stream.
use tiger.Base.{ℕ, zero, suc, ◌+◌, ◌*◌, ◌/◌, ◌%◌, ◌^◌, ◌≤◌, ◌<◌, ◌≡◌, refl, ap, ◌∙◌}
use tiger.Base.{arith, Bool, true, false, List, [], ◌∷◌, length, All, ap₂}
use tiger.Base.{◌==◌, get_or, lt→ltb}
use tiger.Base.Bits.{bit_xor_twice}
use tiger.ByteArray.Defs.{Endian, little, big}
use tiger.ByteArray.Typed.{byteswap, object_bytes, object_value, le_bytes, of_le_bytes}
use tiger.ByteArray.Order.{IsByte, object_bytes_portable, object_value_portable}
use tiger.WebSocket.Frame.{
  WsFrameHead, bit, head_bytes, head_of, apply_mask, bswap_on_little_endian, bswap_on_big_endian,
  payload_code,
}

get_or-IsByte : (mask : List ℕ) (i : ℕ) → All IsByte mask → get_or mask i 0 < 256
get_or-IsByte [] i h = omega arith
get_or-IsByte (m ∷ ms) zero h = h.0
get_or-IsByte (m ∷ ms) (suc i) h = get_or-IsByte ms i h.1

-- The receiver's mask takes the sender's away.
pub apply_mask-apply_mask :
    (mask : List ℕ) (i : ℕ) (bytes : List ℕ)
    → All IsByte mask
    → All IsByte bytes
    → apply_mask mask i (apply_mask mask i bytes) ≡ bytes
unfolding apply_mask
apply_mask-apply_mask mask i [] h k = refl
apply_mask-apply_mask mask i (b ∷ bs) h k =
    ap₂ (◌∷◌) (bit_xor_twice 8 b (get_or mask (i % 4) 0) k.0 (get_or-IsByte mask (i % 4) h))
      (apply_mask-apply_mask mask (i + 1) bs h k.1)

pub length-apply_mask :
    (mask : List ℕ) (i : ℕ) (bytes : List ℕ) → length (apply_mask mask i bytes) ≡ length bytes
unfolding apply_mask
length-apply_mask mask i [] = refl
length-apply_mask mask i (b ∷ bs) = ap suc (length-apply_mask mask (i + 1) bs)

bit_lt : (b : Bool) → bit b < 2
unfolding bit
bit_lt true = omega arith
bit_lt false = omega arith

bit_is : (b : Bool) (n : ℕ) → n ≡ bit b → (n == 1) ≡ b
unfolding bit
bit_is true n h = rw h refl
bit_is false n h = rw h refl

-- A head is read as it was written.
pub head_of-head_bytes :
    (h : WsFrameHead) → h.opcode < 16 → h.payload < 128 → head_of (head_bytes h) ≡ h
unfolding head_of head_bytes
head_of-head_bytes h o p =
    let r3 = bit_lt h.rsv3 in
    let r2 = bit_lt h.rsv2 in
    let r1 = bit_lt h.rsv1 in
    let f = bit_lt h.fin in
    let m = bit_lt h.mask in
    let a = h.opcode + 16 * bit h.rsv3 + 32 * bit h.rsv2 + 64 * bit h.rsv1 + 128 * bit h.fin in
    let b = h.payload + 128 * bit h.mask in
    let e0 : a % 16 ≡ h.opcode = omega arith in
    let e1 : (a / 16 % 2 == 1) ≡ h.rsv3 = bit_is h.rsv3 (a / 16 % 2) (omega arith) in
    let e2 : (a / 32 % 2 == 1) ≡ h.rsv2 = bit_is h.rsv2 (a / 32 % 2) (omega arith) in
    let e3 : (a / 64 % 2 == 1) ≡ h.rsv1 = bit_is h.rsv1 (a / 64 % 2) (omega arith) in
    let e4 : (a / 128 % 2 == 1) ≡ h.fin = bit_is h.fin (a / 128 % 2) (omega arith) in
    let e5 : b % 128 ≡ h.payload = omega arith in
    let e6 : (b / 128 % 2 == 1) ≡ h.mask = bit_is h.mask (b / 128 % 2) (omega arith) in cc

-- The length of a message as the receiver reads it, and as it should be: in network order.
pub short_length :
    (platform : Endian) (size : ℕ)
    → size < 65536
    → bswap_on_little_endian platform 2
        (object_value platform (object_bytes platform 2 (bswap_on_little_endian platform 2 size)))
      ≡ size
unfolding bswap_on_little_endian
short_length little size h =
    ap (λ bs. byteswap 2 (object_value little bs)) (object_bytes_portable big little 2 size)
    ∙ object_value_portable big little 2 size (omega arith)
short_length big size h =
    ap (λ bs. object_value big bs) (object_bytes_portable big big 2 size)
    ∙ object_value_portable big big 2 size (omega arith)

abbrev pub IsLarge : ℕ → Type 0
IsLarge n = (2 ^ 32 ≤ n) × (n < 2 ^ 64)

byteswap-IsLarge : (size : ℕ) → 0 < size → size < 2 ^ 32 → IsLarge (byteswap 8 size)
unfolding byteswap le_bytes of_le_bytes
byteswap-IsLarge size h k = (omega arith, omega arith)

IsLarge-big :
    (size : ℕ) → 0 < size → size < 2 ^ 32 → IsLarge (object_value big (object_bytes little 8 size))
unfolding byteswap object_value object_bytes
IsLarge-big size h k = byteswap-IsLarge size h k

-- A length of eight bytes is not swapped by the sender and swapped by the receiver, or the other way
-- about.
pub long_length :
    (platform : Endian) (size : ℕ)
    → 65536 ≤ size
    → size < 2 ^ 32
    → IsLarge (
        bswap_on_little_endian platform 8
          (object_value platform (object_bytes platform 8 (bswap_on_big_endian platform 8 size))))
unfolding bswap_on_little_endian bswap_on_big_endian
long_length little size h k =
    rw (object_value_portable little little 8 size (omega arith))
      (byteswap-IsLarge size (omega arith) k)
long_length big size h k =
    rw (object_bytes_portable little big 8 size) (IsLarge-big size (omega arith) k)

-- The length in front of a message.
pub length_bytes-tiny : (platform : Endian) (size : ℕ) → size < 126 → (payload_code size ≡ size)
unfolding payload_code
length_bytes-tiny platform size h = rw (lt→ltb size 126 h) refl
