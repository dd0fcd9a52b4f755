-- ===== src/ByteArray/Text.antt =====
-- The texts with a length in front.
use tiger.ByteArray.Typed.{read_varint_loop}
use tiger.Base.{take, drop, take-append-drop, length-take, take_all, ◌≢◌}
use tiger.Base.{ℕ, ◌+◌, ◌%◌, ◌^◌, ◌≤◌, ◌<◌, ◌≡◌, sym, ap, ◌∙◌, arith}
use tiger.Base.{List, [], ◌++◌, length}
use mathlib.Core.Path.{subst}
use mathlib.Core.List.{append-nil}
use native.Mathlib.Nat.{mod-eq_of_lt}
use tiger.ByteArray.Defs.{Endian, ByteArray, ok, M, ◌>>=◌, ◌>>◌}
use tiger.ByteArray.Access.{write, read, set_position}
use tiger.ByteArray.Typed.{
  object_bytes, varint_bytes, write_fixed, read_fixed, write_fixed_uint16, read_fixed_uint16,
  write_uint64, read_uint64, write_fixed_str16, read_fixed_str16, write_str, read_str,
  write_fixed_uint32, read_fixed_uint32, write_fixed_str32, read_fixed_str32, write_fixed_uint64,
  read_fixed_uint64, write_fixed_str64, read_fixed_str64,
}
use tiger.ByteArray.Valid.{IsValid, >>=-ok}
use tiger.ByteArray.WriteCall.{Wrote, write_lem}
use tiger.ByteArray.Ahead.{Ahead, Wrote-trans, read-Ahead}
use tiger.ByteArray.Fixed.{write_fixed_lem, read_fixed_lem, there_and_back}
use tiger.ByteArray.Varint.{read_varint_lem}

-- A field of `size` bytes that says `k`, and a text behind it that has at least `k` bytes.
module _ (put_len : M (Unit {0})) (get_len : M ℕ) (header text : List ℕ) (size k : ℕ)
    (s : ByteArray) (enough : k ≤ length text)
    (put : (t : ByteArray) × (put_len s ≡ ok tt t) × Wrote s header t)
    (get : (u : ByteArray)
      → u.endian ≡ s.endian
      → Ahead u (header ++ text)
      → (t : ByteArray) × (get_len u ≡ ok k t)
        × Ahead t text
        × (t.position ≡ u.position + size)) where
  put_text : (t : ByteArray) × ((do put_len; write text) s ≡ ok tt t) × Wrote s (header ++ text) t
  put_text =
      let (t, e, w) = put in
      let (u, f, v) = write_lem text t w.valid in
      (u, >>=-ok put_len _ e f, Wrote-trans s t u header text w v)

  get_text :
      (u : ByteArray)
      → u.endian ≡ s.endian
      → Ahead u ((header ++ text) ++ [])
      → (r : ByteArray) × ((do len ← get_len; read len) u ≡ ok (take k text) r)
        × IsValid r
        × (r.position ≡ u.position + (size + k))
  get_text u n ahead =
      let (t, e, a, p) = get u n (subst (Ahead u) (append-nil (header ++ text)) ahead) in
      let (r, f, b, q, _) =
        read-Ahead t (take k text) (drop k text)
          (subst (Ahead t) (sym (take-append-drop k text)) a) in
      let len : length (take k text) ≡ k = omega (arith, length-take k text, enough) in
      (
        r,
        >>=-ok get_len _ e (ap (λ (j : ℕ). read j t) (sym len) ∙ f),
        b.valid,
        omega (arith, p, q, len),
      )

  text_there_and_back :
      (r : ByteArray) × ((do
        (do put_len; write text)
        set_position s.position
        len ← get_len
        read len)
          s
        ≡ ok (take k text) r)
      × IsValid r
      × (r.position ≡ s.position + (size + k))
  text_there_and_back =
      there_and_back (do put_len; write text) (do len ← get_len; read len) (take k text)
        (header ++ text) (size + k) s put_text get_text

-- The text comes back up to the length that its field of `w` bytes says.
fixed_text :
    (platform : Endian) (w k : ℕ) (text : List ℕ) (s : ByteArray)
    → IsValid s
    → k ≤ length text
    → k < 256 ^ w
    → (r : ByteArray) × ((do
      (do write_fixed platform w k; write text)
      set_position s.position
      len ← read_fixed platform w
      read len)
          s
        ≡ ok (take k text) r)
      × IsValid r
      × (r.position ≡ s.position + (w + k))
fixed_text platform w k text s h enough small =
    text_there_and_back (write_fixed platform w k) (read_fixed platform w)
      (object_bytes s.endian w k) text w k s enough (write_fixed_lem platform w k s h)
      (λ u n ahead.
        let (t, e, a, p, _) = read_fixed_lem platform s.endian w k u text small n ahead in
        (t, e, a, p))

whole : (k : ℕ) (text : List ℕ) → length text < k → take (length text % k) text ≡ text
whole k text small = ap (λ (n : ℕ). take n text) (mod-eq_of_lt small) ∙ take_all text

-- On a valid object, write_fixed_str16, a return and read_fixed_str16 give the text up to its length
-- modulo 65536, with a valid object: the whole text if it is shorter than 65536 bytes, and not the
-- text if it is not.
read_fixed_str16-write_fixed_str16 :
    (platform : Endian) (text : List ℕ) (s : ByteArray)
    → IsValid s
    → (r : ByteArray) × ((do
      write_fixed_str16 platform text
      set_position s.position
      read_fixed_str16 platform)
          s
        ≡ ok (take (length text % 2 ^ 16) text) r)
      × IsValid r
      × (length text < 2 ^ 16 → take (length text % 2 ^ 16) text ≡ text)
      × (2 ^ 16 ≤ length text → take (length text % 2 ^ 16) text ≢ text)
unfolding write_fixed_str16 write_fixed_uint16 read_fixed_str16 read_fixed_uint16
read_fixed_str16-write_fixed_str16 platform text s h =
    let (r, e, v, p) =
      fixed_text platform 2 (length text % 2 ^ 16) text s h (omega arith) (omega arith) in
    (
      r,
      e,
      v,
      whole (2 ^ 16) text,
      λ long same. absurd (omega (arith, ap length same, length-take (length text % 2 ^ 16) text)),
    )

pub read_fixed_str32-write_fixed_str32 :
    (platform : Endian) (text : List ℕ) (s : ByteArray)
    → IsValid s
    → length text < 2 ^ 32
    → (r : ByteArray) × ((do
      write_fixed_str32 platform text
      set_position s.position
      read_fixed_str32 platform)
          s
        ≡ ok text r)
      × IsValid r
      × (r.position ≡ s.position + (4 + length text))
unfolding write_fixed_str32 write_fixed_uint32 read_fixed_str32 read_fixed_uint32
read_fixed_str32-write_fixed_str32 platform text s h small =
    let (r, e, v, p) =
      fixed_text platform 4 (length text % 2 ^ 32) text s h (omega arith) (omega arith) in
    (r, e ∙ ap (λ (x : List ℕ). ok x r) (whole (2 ^ 32) text small), v, omega (arith, p))

pub read_fixed_str64-write_fixed_str64 :
    (platform : Endian) (text : List ℕ) (s : ByteArray)
    → IsValid s
    → length text < 2 ^ 64
    → (r : ByteArray) × ((do
      write_fixed_str64 platform text
      set_position s.position
      read_fixed_str64 platform)
          s
        ≡ ok text r)
      × IsValid r
      × (r.position ≡ s.position + (8 + length text))
unfolding write_fixed_str64 write_fixed_uint64 read_fixed_str64 read_fixed_uint64
read_fixed_str64-write_fixed_str64 platform text s h small =
    let (r, e, v, p) =
      fixed_text platform 8 (length text % 2 ^ 64) text s h (omega arith) (omega arith) in
    (r, e ∙ ap (λ (x : List ℕ). ok x r) (whole (2 ^ 64) text small), v, omega (arith, p))

-- On a valid object, write_str of a text shorter than 2^64 bytes, a return and read_str give the text,
-- and end behind it with a valid object.
pub read_str-write_str :
    (text : List ℕ) (s : ByteArray)
    → IsValid s
    → length text < 2 ^ 64
    → (r : ByteArray) × ((do write_str text; set_position s.position; read_str) s ≡ ok text r)
      × IsValid r
      × (r.position ≡ s.position + (length (varint_bytes 10 (length text)) + length text))
unfolding write_str write_uint64 read_str read_uint64
read_str-write_str text s h small =
    let k = length text % 2 ^ 64 in
    let same : k ≡ length text = mod-eq_of_lt small in
    let (r, e, v, p) =
      text_there_and_back (write (varint_bytes 10 k)) (read_varint_loop 64 10 0 0)
        (varint_bytes 10 k) text (length (varint_bytes 10 k)) k s (omega arith)
        (write_lem (varint_bytes 10 k) s h)
        (λ u n ahead.
          let (t, e, a, q) =
            read_varint_lem 64 9 0 0 k u text (omega arith) (omega arith) (omega arith) ahead in
          (t, e ∙ ap (λ (x : ℕ). ok x t) (omega arith), a, q)) in
    (
      r,
      e ∙ ap (λ (x : List ℕ). ok x r) (whole (2 ^ 64) text small),
      v,
      p ∙ ap (λ (j : ℕ). s.position + (length (varint_bytes 10 j) + j)) same,
    )
