-- ===== src/ByteArray/Ahead.antt =====
-- Sequences of writes, and of reads of what was written.
use tiger.Base.{ℕ, ◌+◌, ◌≤◌, ◌<◌, ◌≡◌, refl, sym, ap, ap₂, ◌∙◌, arith}
use tiger.Base.{List, [], ◌∷◌, ◌++◌, length, length-append, ◌⊎◌}
use mathlib.Core.Path.{subst}
use tiger.ByteArray.Defs.{Node, ByteArray, ok, slice, overlay}
use tiger.ByteArray.Access.{read, set_position}
use tiger.ByteArray.Memory.{
  peek, overlay-append, overlay-cong, slice-overlay, slice-cong, slice-append, length-slice,
}
use tiger.ByteArray.Valid.{IsValid}
use tiger.ByteArray.WriteCall.{Wrote}
use tiger.ByteArray.Read.{ReadTo, read_lem}
use tiger.ByteArray.Seek.{Placed, set_position_lem}

-- Two writes one behind the other write their bytes one behind the other.
pub Wrote-trans :
    (s t u : ByteArray) (xs ys : List ℕ) → Wrote s xs t → Wrote t ys u → Wrote s (xs ++ ys) u
Wrote-trans s t u xs ys v w = record {
  valid = w.valid;
  base_size = w.base_size ∙ v.base_size;
  endian = w.endian ∙ v.endian;
  position = omega (arith, v.position, w.position, length-append xs ys);
  size = ground (arith, v.size, w.size, v.position, w.position);
  memory = λ a lt.
      w.memory a lt
      ∙ overlay-cong (peek t.nodes) (overlay (peek s.nodes) s.position xs) t.position a ys
          (λ out. v.memory a (below a lt out))
      ∙ ap (λ (p : ℕ). overlay (overlay (peek s.nodes) s.position xs) p ys a) v.position
      ∙ overlay-append (peek s.nodes) s.position a xs ys;
}
  where
    below : (a : ℕ) → a < u.size → (a < t.position) ⊎ (t.position + length ys ≤ a) → a < t.size
    below a lt out = ground (arith, w.size, w.position, w.valid.position_le, v.valid.position_le)

-- The bytes from the position on.
pub record Ahead (s : ByteArray) (bytes : List ℕ) : Type 0 where
  pub valid : IsValid s
  pub enough : s.position + length bytes ≤ s.size
  pub bytes_eq : slice (peek s.nodes) s.position (length bytes) ≡ bytes

Placed-Ahead :
    (s t u : ByteArray) (bytes : List ℕ) → Wrote s bytes t → Placed t s.position u → Ahead u bytes
Placed-Ahead s t u bytes w p = record {
  valid = p.valid;
  enough = ground (arith, p.size, p.position, w.position, w.valid.position_le);
  bytes_eq =
      ap₂ (λ (ns : List Node) (a : ℕ). slice (peek ns) a (length bytes)) p.nodes p.position
      ∙ slice-cong (peek t.nodes) (overlay (peek s.nodes) s.position bytes) s.position s.position
          (length bytes)
          (λ i lt. w.memory (s.position + i) (omega (arith, w.position, w.valid.position_le)))
      ∙ slice-overlay (peek s.nodes) s.position bytes;
}

-- After a write and a return to where it began, what was written lies ahead.
pub Wrote-Ahead :
    (s t : ByteArray) (bytes : List ℕ)
    → Wrote s bytes t
    → (u : ByteArray) × (set_position s.position t ≡ ok tt u)
      × Ahead u bytes
      × (u.position ≡ s.position)
      × (u.endian ≡ s.endian)
Wrote-Ahead s t bytes w =
    let inside : s.position ≤ t.position = omega (arith, w.position) in
    let (u, e, p) =
      set_position_lem s.position t w.valid (omega (arith, w.valid.position_le, w.valid.size_le))
        (omega (arith, w.valid.position_le, w.valid.size_inside)) in
    (u, e, Placed-Ahead s t u bytes w p, p.position, p.endian ∙ w.endian)

append_split :
    (xs xs' ys ys' : List ℕ)
    → length xs ≡ length xs'
    → xs ++ ys ≡ xs' ++ ys'
    → (xs ≡ xs') × (ys ≡ ys')
append_split [] [] ys ys' l e = (refl, e)
append_split [] (x' ∷ xs') ys ys' l e = absurd (omega arith)
append_split (x ∷ xs) [] ys ys' l e = absurd (omega arith)
append_split (x ∷ xs) (x' ∷ xs') ys ys' l e =
    let (p, q) = append_split xs xs' ys ys' (omega arith) (cc) in (cc, q)

ReadTo-Ahead :
    (s t : ByteArray) (xs ys : List ℕ)
    → Ahead s (xs ++ ys)
    → IsValid t
    → ReadTo s (length xs) t
    → slice (peek s.nodes) (s.position + length xs) (length ys) ≡ ys
    → Ahead t ys
ReadTo-Ahead s t xs ys h v r e =
    subst (λ u. Ahead u ys) (sym r.state)
      (record {
        valid = subst IsValid r.state v;
        enough = omega (arith, h.enough, length-append xs ys);
        bytes_eq = e;
      })

-- A read takes its bytes from the front of what lies ahead.
pub read-Ahead :
    (s : ByteArray) (xs ys : List ℕ)
    → Ahead s (xs ++ ys)
    → (t : ByteArray) × (read (length xs) s ≡ ok xs t)
      × Ahead t ys
      × (t.position ≡ s.position + length xs)
      × (t.endian ≡ s.endian)
read-Ahead s xs ys h =
    let (t, e, v, r) =
      read_lem (length xs) s h.valid (omega (arith, h.enough, length-append xs ys)) in
    let f = peek s.nodes in
    let (p, q) =
      append_split (slice f s.position (length xs)) xs
        (slice f (s.position + length xs) (length ys)) ys (length-slice f s.position (length xs))
        (slice-append f s.position (length xs) (length ys)
          ∙ ap (slice f s.position) (sym (length-append xs ys))
          ∙ h.bytes_eq) in
    (
      t,
      e ∙ ap (λ (zs : List ℕ). ok zs t) p,
      ReadTo-Ahead s t xs ys h v r q,
      ap (λ (u : ByteArray). u.position) r.state,
      ap (λ (u : ByteArray). u.endian) r.state,
    )
