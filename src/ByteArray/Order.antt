-- ===== src/ByteArray/Order.antt =====
-- The bytes of an integer in either order, and `byteswap` between them.
use tiger.Base.{ap₂}
use tiger.Base.{ℕ, zero, suc, ◌/◌, ◌^◌, ◌<◌, ◌≡◌, refl, sym, ap, ◌∙◌, arith}
use tiger.Base.{List, [], ◌∷◌, length, length-append, All, All-append, if◌then◌else◌}
use mathlib.Core.List.{reverse, reverse-cons, reverse-reverse}
use native.Mathlib.Nat.{pow-suc}
use tiger.ByteArray.Defs.{Endian, little, big, same_endian}
use tiger.ByteArray.Typed.{le_bytes, of_le_bytes, object_bytes, object_value, byteswap}

abbrev pub IsByte : ℕ → Type 0
IsByte b = b < 256

pub length-reverse : (xs : List ℕ) → length (reverse xs) ≡ length xs
length-reverse [] = refl
length-reverse (x ∷ xs) =
    ap length (reverse-cons x xs)
    ∙ length-append (reverse xs) (x ∷ [])
    ∙ omega (arith, length-reverse xs)

reverse-IsByte : (xs : List ℕ) → All IsByte xs → All IsByte (reverse xs)
reverse-IsByte [] h = tt
reverse-IsByte (x ∷ xs) h =
    rw (reverse-cons x xs)
      (All-append IsByte (reverse xs) (x ∷ []) (reverse-IsByte xs h.1) (h.0, tt))

length-le_bytes : (w v : ℕ) → length (le_bytes w v) ≡ w
unfolding le_bytes
length-le_bytes zero v = refl
length-le_bytes (suc w) v = ap suc (length-le_bytes w (v / 256))

le_bytes-IsByte : (w v : ℕ) → All IsByte (le_bytes w v)
unfolding le_bytes
le_bytes-IsByte zero v = tt
le_bytes-IsByte (suc w) v = (omega arith, le_bytes-IsByte w (v / 256))

pub of_le_bytes-le_bytes : (w v : ℕ) → v < 256 ^ w → of_le_bytes (le_bytes w v) ≡ v
unfolding le_bytes of_le_bytes
of_le_bytes-le_bytes zero v h = omega arith
of_le_bytes-le_bytes (suc w) v h =
    omega (arith, of_le_bytes-le_bytes w (v / 256) (omega (arith, pow-suc 256 w)))

le_bytes-of_le_bytes : (bs : List ℕ) → All IsByte bs → le_bytes (length bs) (of_le_bytes bs) ≡ bs
unfolding le_bytes of_le_bytes
le_bytes-of_le_bytes [] h = refl
le_bytes-of_le_bytes (b ∷ bs) h =
    ap₂ (◌∷◌) (omega (arith, h.0))
      (ap (le_bytes (length bs)) (omega (arith, h.0)) ∙ le_bytes-of_le_bytes bs h.1)

-- The bytes of a swapped integer are the bytes in the other order.
le_bytes-byteswap : (w v : ℕ) → le_bytes w (byteswap w v) ≡ reverse (le_bytes w v)
unfolding byteswap
le_bytes-byteswap w v =
    let bs = reverse (le_bytes w v) in
    let len : length bs ≡ w = length-reverse (le_bytes w v) ∙ length-le_bytes w v in
    ap (λ (k : ℕ). le_bytes k (of_le_bytes bs)) (sym len)
    ∙ le_bytes-of_le_bytes bs (reverse-IsByte (le_bytes w v) (le_bytes-IsByte w v))

pub byteswap-byteswap : (w v : ℕ) → v < 256 ^ w → byteswap w (byteswap w v) ≡ v
byteswap-byteswap w v h =
    unfold byteswap in
    ap (λ (bs : List ℕ). of_le_bytes (reverse bs)) (le_bytes-byteswap w v)
    ∙ ap of_le_bytes (reverse-reverse (le_bytes w v))
    ∙ of_le_bytes-le_bytes w v h

-- What is in memory does not depend on the machine.
pub object_bytes_portable :
    (e platform : Endian) (w v : ℕ)
    → object_bytes platform w (if same_endian e platform then v else byteswap w v)
      ≡ object_bytes e w v
unfolding object_bytes
object_bytes_portable little little w v = refl
object_bytes_portable little big w v = rw le_bytes-byteswap (reverse-reverse (le_bytes w v))
object_bytes_portable big little w v = le_bytes-byteswap w v
object_bytes_portable big big w v = refl

pub length-object_bytes : (e : Endian) (w v : ℕ) → length (object_bytes e w v) ≡ w
unfolding object_bytes
length-object_bytes little w v = length-le_bytes w v
length-object_bytes big w v = length-reverse (le_bytes w v) ∙ length-le_bytes w v

-- And is read back on any machine.
pub object_value_portable :
    (e platform : Endian) (w v : ℕ)
    → v < 256 ^ w
    → (let x = object_value platform (object_bytes e w v) in
        if same_endian e platform then x else byteswap w x)
      ≡ v
unfolding object_bytes object_value
object_value_portable little little w v h = of_le_bytes-le_bytes w v h
object_value_portable little big w v h = unfold byteswap in byteswap-byteswap w v h
object_value_portable big little w v h = unfold byteswap in byteswap-byteswap w v h
object_value_portable big big w v h = rw reverse-reverse (of_le_bytes-le_bytes w v h)
