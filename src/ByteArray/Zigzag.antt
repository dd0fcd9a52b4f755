-- ===== src/ByteArray/Zigzag.antt =====
-- The signed integers: two's complement patterns, and the zigzag coding.
use mathlib.Core.Path.{fun_ext}
use tiger.ByteArray.Typed.{write_uint32, read_uint32}
use tiger.ByteArray.Valid.{>>=_assoc}
use tiger.Base.{ap₂}
use native.Mathlib.Decide.{dec_lt}
use native.Mathlib.Nat.{mod-eq_of_lt, add-mod_right, mod_self}
use tiger.Base.{ℕ, ◌+◌, ◌-◌, ◌*◌, ◌%◌, ◌^◌, ◌≤◌, ◌<◌, ◌≡◌, refl, sym, ap, ◌∙◌, arith}
use tiger.Base.{bit_xor, length, lt→ltb, le→ltb}
use tiger.Base.Bits.{bit_and-one, bit_xor-zero, bit_xor_ones}
use tiger.Base.Int.{ℤ, pos, negsuc, Fits}
use tiger.ByteArray.Defs.{Endian, ByteArray, ok, M, ◌>>=◌, ◌>>◌, pure}
use tiger.ByteArray.Access.{set_position}
use tiger.ByteArray.Typed.{
  to_pattern, of_pattern, encode_zigzag, decode_zigzag, varint_bytes, write_uint64, read_uint64,
  write_int32, read_int32, write_int64, read_int64, write_fixed, read_fixed,
}
use tiger.ByteArray.Valid.{IsValid, >>=-ok}
use tiger.ByteArray.Fixed.{read_fixed-write_fixed}
use tiger.ByteArray.Varint.{read_uint64-write_uint64, read_uint32-write_uint32}

pattern_lem :
    (w half : ℕ) (v : ℤ)
    → 2 * half ≡ 256 ^ w
    → Fits half v
    → (to_pattern w v < 256 ^ w) × (of_pattern w (to_pattern w v) ≡ v)
unfolding to_pattern of_pattern
pattern_lem w half (pos n) e h = ground arith
pattern_lem w half (negsuc n) e h = ground arith

-- The code of a negative integer, with the wrap of the least one.
negative_code :
    (half n : ℕ) → n < half → (2 * (n + 1) % (2 * half) + 2 * half - 1) % (2 * half) ≡ 2 * n + 1
negative_code half n h = elim (dec_lt (n + 1) half) [
  | yes lt ↦
      ap (λ (x : ℕ). (x + 2 * half - 1) % (2 * half))
        (mod-eq_of_lt {n = 2 * (n + 1)} {m = 2 * half} (omega arith))
      ∙ ap (λ (x : ℕ). x % (2 * half)) {y = 2 * n + 1 + 2 * half} (omega arith)
      ∙ add-mod_right (2 * n + 1) (2 * half)
      ∙ mod-eq_of_lt (omega arith)
  | no least ↦
      ap (λ (x : ℕ). (x % (2 * half) + 2 * half - 1) % (2 * half)) {y = 2 * half} (omega arith)
      ∙ ap (λ (x : ℕ). (x + 2 * half - 1) % (2 * half)) (mod_self (2 * half))
      ∙ mod-eq_of_lt {n = 0 + 2 * half - 1} {m = 2 * half} (omega arith)
      ∙ omega arith
]

-- Zigzag: 0, -1, 1, -2 and so on become 0, 1, 2, 3.
encode_zigzag_pos :
    (bits half n : ℕ) → 2 ^ bits ≡ 2 * half → n < half → encode_zigzag bits (pos n) ≡ 2 * n
unfolding encode_zigzag
encode_zigzag_pos bits half n e h = rw e (mod-eq_of_lt (omega arith))

encode_zigzag_negsuc :
    (bits half n : ℕ) → 2 ^ bits ≡ 2 * half → n < half → encode_zigzag bits (negsuc n) ≡ 2 * n + 1
unfolding encode_zigzag
encode_zigzag_negsuc bits half n e h = rw e (negative_code half n h)

of_pattern_low : (w v : ℕ) → 2 * v < 256 ^ w → of_pattern w v ≡ pos v
unfolding of_pattern
of_pattern_low w v h = rw (lt→ltb (2 * v) (256 ^ w) h)

of_pattern_high : (w v : ℕ) → 256 ^ w ≤ 2 * v → of_pattern w v ≡ negsuc (256 ^ w - 1 - v)
unfolding of_pattern
of_pattern_high w v h = rw (le→ltb (2 * v) (256 ^ w) h)

decode_even :
    (w bits half n : ℕ)
    → 256 ^ w ≡ 2 * half
    → 2 ^ bits ≡ 2 * half
    → n < half
    → decode_zigzag w (2 * n) ≡ pos n
unfolding decode_zigzag
decode_even w bits half n e f h =
    ap₂ (λ (x y : ℕ). of_pattern w (bit_xor x ((256 ^ w - y) % 256 ^ w))) {y = n} {v = 0}
      (omega arith) (omega (arith, bit_and-one (2 * n)))
    ∙ ap (λ (y : ℕ). of_pattern w (bit_xor n (y % 256 ^ w))) {y = 256 ^ w} (omega arith)
    ∙ ap (λ (y : ℕ). of_pattern w (bit_xor n y)) (mod_self (256 ^ w))
    ∙ ap (of_pattern w) (bit_xor-zero bits n (omega (arith, f)))
    ∙ of_pattern_low w n (omega (arith, e))

decode_odd :
    (w bits half n : ℕ)
    → 256 ^ w ≡ 2 * half
    → 2 ^ bits ≡ 2 * half
    → n < half
    → decode_zigzag w (2 * n + 1) ≡ negsuc n
unfolding decode_zigzag
decode_odd w bits half n e f h =
    ap₂ (λ (x y : ℕ). of_pattern w (bit_xor x ((256 ^ w - y) % 256 ^ w))) {y = n} {v = 1}
      (omega arith) (omega (arith, bit_and-one (2 * n + 1)))
    ∙ ap (λ (y : ℕ). of_pattern w (bit_xor n y)) {y = 2 ^ bits - 1}
        (mod-eq_of_lt {n = 256 ^ w - 1} {m = 256 ^ w} (omega (arith, e)) ∙ omega (arith, e, f))
    ∙ ap (of_pattern w) (bit_xor_ones bits n (omega (arith, f)))
    ∙ of_pattern_high w (2 ^ bits - 1 - n) (omega (arith, e, f))
    ∙ ap negsuc (omega (arith, e, f))

-- For a width of `w` bytes, of which `bits` is the number of bits, the zigzag code of every integer
-- that fits is below 2^bits, and decoding it gives the integer.
pub decode_zigzag-encode_zigzag :
    (w bits half : ℕ) (v : ℤ)
    → 256 ^ w ≡ 2 * half
    → 2 ^ bits ≡ 2 * half
    → Fits half v
    → (encode_zigzag bits v < 2 ^ bits) × (decode_zigzag w (encode_zigzag bits v) ≡ v)
decode_zigzag-encode_zigzag w bits half (pos n) e f h =
    let c = encode_zigzag_pos bits half n f h in
    (omega (arith, c, f), ap (decode_zigzag w) c ∙ decode_even w bits half n e f h)
decode_zigzag-encode_zigzag w bits half (negsuc n) e f h =
    let c = encode_zigzag_negsuc bits half n f h in
    (omega (arith, c, f), ap (decode_zigzag w) c ∙ decode_odd w bits half n e f h)

-- A result that is computed from the result of a read.
read_map {ℓ κ} :
    {A : Type ℓ} {B : Type κ} (put : M (Unit {0})) (at : ℕ) (get : M A) (f : A → B) (a : A)
    (s r : ByteArray)
    → (do put; set_position at; get) s ≡ ok a r
    → (do put; set_position at; x ← get; pure (f x)) s ≡ ok (f a) r
read_map {A} {B} put at get f a s r e =
    let g = λ (x : A). pure (f x) in
    ap (λ (k : M B). (put >> k) s)
      (fun_ext (λ (t : ByteArray). sym (>>=_assoc (set_position at) (λ _. get) g t)))
    ∙ sym (>>=_assoc put (λ _. set_position at >> get) g s)
    ∙ >>=-ok (put >> (set_position at >> get)) g e refl

-- On a valid object, write_int32 of any 32-bit integer, a return and read_int32 give the integer, and
-- end behind its bytes with a valid object.
pub read_int32-write_int32 :
    (v : ℤ) (s : ByteArray)
    → IsValid s
    → Fits (2 ^ 31) v
    → (r : ByteArray) × ((do write_int32 v; set_position s.position; read_int32) s ≡ ok v r)
      × IsValid r
      × (r.position ≡ s.position + length (varint_bytes 5 (encode_zigzag 32 v)))
unfolding write_int32 read_int32
read_int32-write_int32 v s h small =
    let (below, back) = decode_zigzag-encode_zigzag 4 32 (2 ^ 31) v refl refl small in
    let (r, e, k, p) = read_uint32-write_uint32 (encode_zigzag 32 v) s h below in
    (
      r,
      read_map (write_uint32 (encode_zigzag 32 v)) s.position read_uint32 (decode_zigzag 4) _ s r e
          ∙ ap (λ (x : ℤ). ok x r) back,
      k,
      p,
    )

-- On a valid object, write_int64 of any 64-bit integer, a return and read_int64 give the integer, and
-- end behind its bytes with a valid object.
pub read_int64-write_int64 :
    (v : ℤ) (s : ByteArray)
    → IsValid s
    → Fits (2 ^ 63) v
    → (r : ByteArray) × ((do write_int64 v; set_position s.position; read_int64) s ≡ ok v r)
      × IsValid r
      × (r.position ≡ s.position + length (varint_bytes 10 (encode_zigzag 64 v)))
unfolding write_int64 read_int64
read_int64-write_int64 v s h small =
    let (below, back) = decode_zigzag-encode_zigzag 8 64 (2 ^ 63) v refl refl small in
    let (r, e, k, p) = read_uint64-write_uint64 (encode_zigzag 64 v) s h below in
    (
      r,
      read_map (write_uint64 (encode_zigzag 64 v)) s.position read_uint64 (decode_zigzag 8) _ s r e
          ∙ ap (λ (x : ℤ). ok x r) back,
      k,
      p,
    )

-- On a valid object, writing a signed integer that fits `w` bytes in fixed width, going back and
-- reading it gives the integer, on a machine of either order, and ends `w` bytes further with a valid
-- object.
pub read_fixed-write_fixed_signed :
    (platform : Endian) (w half : ℕ) (v : ℤ) (s : ByteArray)
    → IsValid s
    → 2 * half ≡ 256 ^ w
    → Fits half v
    → (r : ByteArray) × ((do
      write_fixed platform w (to_pattern w v)
      set_position s.position
      x ← read_fixed platform w
      pure (of_pattern w x))
          s
        ≡ ok v r)
      × IsValid r
      × (r.position ≡ s.position + w)
read_fixed-write_fixed_signed platform w half v s h e small =
    let (below, back) = pattern_lem w half v e small in
    let (r, f, k, p) = read_fixed-write_fixed platform w (to_pattern w v) s h below in
    (
      r,
      read_map (write_fixed platform w (to_pattern w v)) s.position (read_fixed platform w)
            (of_pattern w) _ s r f
          ∙ ap (λ (x : ℤ). ok x r) back,
      k,
      p,
    )
