-- ===== src/ByteArray/Varint.antt =====
-- The variable-length integers: seven bits a byte, the lowest group first.
use mathlib.Core.Path.{subst}
use native.Mathlib.Nat.{mod-eq_of_lt}
use tiger.Base.{ℕ, zero, suc, ◌+◌, ◌*◌, ◌/◌, ◌%◌, ◌^◌, ◌≤◌, ◌<◌, ◌≡◌, ap, ◌∙◌, arith}
use tiger.Base.{bit_and, bit_or, List, [], ◌∷◌, ◌++◌, length, le→leb, lt→leb, lt→ltb, le→ltb}
use tiger.Base.Bits.{bit_or_fields, bit_and_127}
use native.Mathlib.Nat.{pow-suc, div-add-mod}
use native.Mathlib.Numerals.{towards_suc}
use native.Mathlib.Decide.{dec_le}
use tiger.ByteArray.Defs.{ByteArray, ok, ◌>>◌}
use tiger.ByteArray.Access.{read, set_position}
use tiger.ByteArray.Typed.{
  of_le_bytes, read_fixed_uint8, varint_bytes, write_uint32, write_uint64, read_varint_loop,
  read_uint32, read_uint64,
}
use tiger.ByteArray.Valid.{IsValid, >>=-ok}
use tiger.ByteArray.WriteCall.{write_lem}
use tiger.ByteArray.Ahead.{Ahead, read-Ahead}
use tiger.ByteArray.Fixed.{there_and_back}

of_one_byte : (b : ℕ) → of_le_bytes (b ∷ []) ≡ b
unfolding of_le_bytes
of_one_byte b = omega arith

pub read_byte_lem :
    (b : ℕ) (more : List ℕ) (s : ByteArray)
    → Ahead s (b ∷ more)
    → (t : ByteArray) × (read_fixed_uint8 s ≡ ok b t) × Ahead t more × (t.position ≡ s.position + 1)
unfolding read_fixed_uint8
read_byte_lem b more s h =
    let (t, e, a, p, _) = read-Ahead s (b ∷ []) more h in
    (t, >>=-ok (read 1) _ e (ap (λ (x : ℕ). ok x t) (of_one_byte b)), a, omega (arith, p))

-- The bytes, in plain arithmetic.
varint_last : (fuel v : ℕ) → v < 128 → varint_bytes (suc fuel) v ≡ v ∷ []
unfolding varint_bytes
varint_last fuel v h = rw (lt→leb 128 v h) (ap (λ (b : ℕ). b ∷ []) (omega arith))

high_bit : (v : ℕ) → bit_or (bit_and v 0x7f) 0x80 ≡ v % 128 + 128
high_bit v = rw (bit_and_127 v) (bit_or_fields 7 (v % 128) 1 (omega arith))

varint_more :
    (fuel v : ℕ)
    → 128 ≤ v
    → varint_bytes (suc fuel) v ≡ (v % 128 + 128) ∷ varint_bytes fuel (v / 128)
unfolding varint_bytes
varint_more fuel v h =
    rw (le→leb 128 v h) (ap (λ (b : ℕ). b ∷ varint_bytes fuel (v / 128)) (high_bit v))

or_group :
    (bits i v g : ℕ)
    → v < 2 ^ i
    → v + g * 2 ^ i < 2 ^ bits
    → bit_or v (g * 2 ^ i % 2 ^ bits) ≡ v + g * 2 ^ i
or_group bits i v g low fits =
    ap (bit_or v) (mod-eq_of_lt {n = g * 2 ^ i} {m = 2 ^ bits} (omega arith))
    ∙ bit_or_fields i v g low

low_group : (g : ℕ) → g < 128 → bit_and (g + 128) 0x7f ≡ g
low_group g h = bit_and_127 (g + 128) ∙ omega arith

-- One round of the reading loop, on a last byte and on an inner one.
last_byte :
    (bits rounds i v b : ℕ) (s : ByteArray) (t : ByteArray)
    → b < 128
    → v < 2 ^ i
    → v + b * 2 ^ i < 2 ^ bits
    → read_fixed_uint8 s ≡ ok b t
    → read_varint_loop bits (suc rounds) i v s ≡ ok (v + b * 2 ^ i) t
unfolding read_varint_loop
last_byte bits rounds i v b s t small low fits e =
    >>=-ok read_fixed_uint8 _ e
      (rw (lt→ltb b 128 small) (ap (λ (x : ℕ). ok x t) (or_group bits i v b low fits)))

inner_byte :
    (bits rounds i v g : ℕ) (s : ByteArray) (t : ByteArray)
    → g < 128
    → v < 2 ^ i
    → v + g * 2 ^ i < 2 ^ bits
    → read_fixed_uint8 s ≡ ok (g + 128) t
    → read_varint_loop bits (suc rounds) i v s
      ≡ read_varint_loop bits rounds (i + 7) (v + g * 2 ^ i) t
unfolding read_varint_loop
inner_byte bits rounds i v g s t small low fits e = >>=-ok read_fixed_uint8 _ e (
    rw (le→ltb (g + 128) 128 (omega arith)) (
      ap (λ (x : ℕ). read_varint_loop bits rounds (i + 7) x t)
        (ap (λ (x : ℕ). bit_or v (x * 2 ^ i % 2 ^ bits)) (low_group g small)
          ∙ or_group bits i v g low fits)))

-- The groups of `w`, as they count from bit `i` on.
seven_more : (i : ℕ) → 2 ^ (i + 7) ≡ 128 * 2 ^ i
seven_more i = simp towards_suc (omega arith)

split_group : (w i : ℕ) → w % 128 * 2 ^ i + w / 128 * 2 ^ (i + 7) ≡ w * 2 ^ i
split_group w i = omega (
  arith,
  ap (λ (x : ℕ). x * 2 ^ i) (div-add-mod w 128),
  ap (λ (x : ℕ). w / 128 * x) (seven_more i),
)

next_low : (v g i : ℕ) → v < 2 ^ i → g < 128 → v + g * 2 ^ i < 2 ^ (i + 7)
next_low v g i low small = rw (seven_more i) (grind arith)

-- What a read of the number that the bytes ahead encode gives.
abbrev Reads : ℕ → ℕ → ℕ → ℕ → ℕ → ByteArray → List ℕ → Type 0
Reads bits fuel i v w s more =
    (t : ByteArray) × (read_varint_loop bits (suc fuel) i v s ≡ ok (v + w * 2 ^ i) t)
    × Ahead t more
    × (t.position ≡ s.position + length (varint_bytes (suc fuel) w))

Reads-last :
    (bits fuel i v w : ℕ) (s : ByteArray) (more : List ℕ)
    → w < 128
    → v < 2 ^ i
    → v + w * 2 ^ i < 2 ^ bits
    → Ahead s (varint_bytes (suc fuel) w ++ more)
    → Reads bits fuel i v w s more
Reads-last bits fuel i v w s more small low fits ahead =
    let one = varint_last fuel w small in
    let (t, e, a, p) = read_byte_lem w more s (subst (λ bs. Ahead s (bs ++ more)) one ahead) in
    (t, last_byte bits fuel i v w s t small low fits e, a, omega (arith, p, ap length one))

-- `v` is what has been read, and `w` what the bytes ahead encode.
pub read_varint_lem :
    (bits fuel i v w : ℕ) (s : ByteArray) (more : List ℕ)
    → w < 128 ^ suc fuel
    → v < 2 ^ i
    → v + w * 2 ^ i < 2 ^ bits
    → Ahead s (varint_bytes (suc fuel) w ++ more)
    → Reads bits fuel i v w s more
read_varint_lem bits zero i v w s more small low fits ahead =
    Reads-last bits zero i v w s more (omega arith) low fits ahead
read_varint_lem bits (suc fuel) i v w s more small low fits ahead = elim (dec_le 128 w) [
  | no less ↦ Reads-last bits (suc fuel) i v w s more (omega arith) low fits ahead
  | yes many ↦
      let g = w % 128 in
      let q = w / 128 in
      let bytes = varint_more (suc fuel) w many in
      let parts = split_group w i in
      let part : g * 2 ^ i ≤ w * 2 ^ i = omega (arith, parts) in
      let (t, e, a, p) =
        read_byte_lem (g + 128) (varint_bytes (suc fuel) q ++ more) s
          (subst (λ bs. Ahead s (bs ++ more)) bytes ahead) in
      let (u, f, b, r) =
        read_varint_lem bits fuel (i + 7) (v + g * 2 ^ i) q t more
          (omega (arith, pow-suc 128 (suc fuel))) (next_low v g i low (omega arith))
          (omega (arith, parts, fits)) a in
      (
        u,
        inner_byte bits (suc fuel) i v g s t (omega arith) low (omega (arith, part, fits)) e
            ∙ f
            ∙ ap (λ (x : ℕ). ok x u) (omega (arith, parts)),
        b,
        omega (arith, p, r, ap length bytes),
      )
]

-- The loop with this much room leaves one byte at least, and no more than the room.
pub length-varint_bytes :
    (fuel v : ℕ)
    → (1 ≤ length (varint_bytes (suc fuel) v)) × (length (varint_bytes (suc fuel) v) ≤ suc fuel)
unfolding varint_bytes
length-varint_bytes zero v = ground arith
length-varint_bytes (suc fuel) v = ground (arith, length-varint_bytes fuel (v / 128))

-- On a valid object, write_uint64 of a number below 2^64, a return and read_uint64 give the number,
-- and end behind its bytes with a valid object.
pub read_uint64-write_uint64 :
    (v : ℕ) (s : ByteArray)
    → IsValid s
    → v < 2 ^ 64
    → (r : ByteArray) × ((do write_uint64 v; set_position s.position; read_uint64) s ≡ ok v r)
      × IsValid r
      × (r.position ≡ s.position + length (varint_bytes 10 v))
unfolding write_uint64 read_uint64
read_uint64-write_uint64 v s h small =
    there_and_back (write_uint64 v) read_uint64 v (varint_bytes 10 v) (length (varint_bytes 10 v)) s
      (write_lem (varint_bytes 10 v) s h)
      (λ u n ahead.
        let (t, e, a, p) =
          read_varint_lem 64 9 0 0 v u [] (omega arith) (omega arith) (omega arith) ahead in
        (t, e ∙ ap (λ (x : ℕ). ok x t) (omega arith), a.valid, p))

-- On a valid object, write_uint32 of a number below 2^32, a return and read_uint32 give the number,
-- and end behind its bytes with a valid object.
pub read_uint32-write_uint32 :
    (v : ℕ) (s : ByteArray)
    → IsValid s
    → v < 2 ^ 32
    → (r : ByteArray) × ((do write_uint32 v; set_position s.position; read_uint32) s ≡ ok v r)
      × IsValid r
      × (r.position ≡ s.position + length (varint_bytes 5 v))
unfolding write_uint32 read_uint32
read_uint32-write_uint32 v s h small =
    there_and_back (write_uint32 v) read_uint32 v (varint_bytes 5 v) (length (varint_bytes 5 v)) s
      (write_lem (varint_bytes 5 v) s h)
      (λ u n ahead.
        let (t, e, a, p) =
          read_varint_lem 32 4 0 0 v u [] (omega arith) (omega arith) (omega arith) ahead in
        (t, e ∙ ap (λ (x : ℕ). ok x t) (omega arith), a.valid, p))
