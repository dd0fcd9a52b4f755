-- ===== src/ByteArray/Fixed.antt =====
-- The fixed-width methods: what they write, and that they read it back.
use mathlib.Core.Path.{subst}
use mathlib.Core.List.{append-nil}
use tiger.Base.{ℕ, ◌+◌, ◌^◌, ◌<◌, ◌≡◌, sym, ap, ◌∙◌, arith}
use tiger.Base.{List, [], ◌++◌, length}
use tiger.ByteArray.Defs.{Endian, ByteArray, ok, M, ◌>>◌}
use tiger.ByteArray.Access.{write, read, set_position}
use tiger.ByteArray.Typed.{object_bytes, write_fixed, read_fixed}
use tiger.ByteArray.Order.{object_bytes_portable, object_value_portable, length-object_bytes}
use tiger.ByteArray.Valid.{IsValid, >>=-ok}
use tiger.ByteArray.WriteCall.{Wrote, write_lem}
use tiger.ByteArray.Ahead.{Ahead, Wrote-Ahead, read-Ahead}

write_fixed-write :
    (platform : Endian) (w v : ℕ) (s : ByteArray)
    → write_fixed platform w v s ≡ write (object_bytes s.endian w v) s
unfolding write_fixed
write_fixed-write platform w v s =
    ap (λ (bytes : List ℕ). write bytes s) (object_bytes_portable s.endian platform w v)

-- On a valid object a fixed-width write of `w` bytes returns, and writes the bytes of the integer in
-- the order that the object is set to, on a machine of either order.
pub write_fixed_lem :
    (platform : Endian) (w v : ℕ) (s : ByteArray)
    → IsValid s
    → (t : ByteArray) × (write_fixed platform w v s ≡ ok tt t)
      × Wrote s (object_bytes s.endian w v) t
write_fixed_lem platform w v s h =
    let (t, e, p) = write_lem (object_bytes s.endian w v) s h in
    (t, write_fixed-write platform w v s ∙ e, p)

read_fixed_of :
    (platform : Endian) (w v : ℕ) (s t : ByteArray)
    → v < 256 ^ w
    → read w s ≡ ok (object_bytes s.endian w v) t
    → read_fixed platform w s ≡ ok v t
unfolding read_fixed
read_fixed_of platform w v s t small e =
    >>=-ok (read w) _ e (ap (λ (x : ℕ). ok x t) (object_value_portable s.endian platform w v small))

-- And read from what lies ahead.
pub read_fixed_lem :
    (platform order : Endian) (w v : ℕ) (s : ByteArray) (more : List ℕ)
    → v < 256 ^ w
    → s.endian ≡ order
    → Ahead s (object_bytes order w v ++ more)
    → (t : ByteArray) × (read_fixed platform w s ≡ ok v t)
      × Ahead t more
      × (t.position ≡ s.position + w)
      × (t.endian ≡ order)
read_fixed_lem platform order w v s more small o h =
    let bytes = object_bytes order w v in
    let (t, e, a, p, n) = read-Ahead s bytes more h in
    let len : length bytes ≡ w = length-object_bytes order w v in
    (
      t,
      read_fixed_of platform w v s t small (
          ap (λ (k : ℕ). read k s) (sym len)
          ∙ e
          ∙ ap (λ (x : Endian). ok (object_bytes x w v) t) (sym o)),
      a,
      omega (arith, p, len),
      n ∙ o,
    )

-- Every write followed by a return and the matching read gives the value back, from lemmas about
-- the bytes written and the bytes read.
pub there_and_back {ℓ} :
    {A : Type ℓ} (put : M (Unit {0})) (get : M A) (a : A) (bytes : List ℕ) (k : ℕ) (s : ByteArray)
    → (t : ByteArray) × (put s ≡ ok tt t) × Wrote s bytes t
    → ((u : ByteArray)
        → u.endian ≡ s.endian
        → Ahead u (bytes ++ [])
        → (r : ByteArray) × (get u ≡ ok a r) × IsValid r × (r.position ≡ u.position + k))
    → (r : ByteArray) × ((do put; set_position s.position; get) s ≡ ok a r)
      × IsValid r
      × (r.position ≡ s.position + k)
there_and_back put get a bytes k s (t, e, w) back =
    let (u, f, h, p, n) = Wrote-Ahead s t bytes w in
    let (r, g, valid, q) = back u n (subst (Ahead u) (sym (append-nil bytes)) h) in
    (r, >>=-ok put _ e (>>=-ok (set_position s.position) _ f g), valid, omega (arith, p, q))

-- On a valid object, writing an integer below 256^w in fixed width, going back and reading it gives
-- the integer, on a machine of either order, and ends `w` bytes further with a valid object.
pub read_fixed-write_fixed :
    (platform : Endian) (w v : ℕ) (s : ByteArray)
    → IsValid s
    → v < 256 ^ w
    → (r : ByteArray) × ((do
      write_fixed platform w v
      set_position s.position
      read_fixed platform w)
          s
        ≡ ok v r)
      × IsValid r
      × (r.position ≡ s.position + w)
read_fixed-write_fixed platform w v s h small =
    let bytes = object_bytes s.endian w v in
    let len : length bytes ≡ w = length-object_bytes s.endian w v in
    let (r, e, k, p) =
      there_and_back (write_fixed platform w v) (read_fixed platform w) v bytes w s
        (write_fixed_lem platform w v s h)
        (λ u n ahead.
          let (t, f, a, q, _) = read_fixed_lem platform s.endian w v u [] small n ahead in
          (t, f, a.valid, q)) in
    (r, e, k, omega (arith, p, len))
