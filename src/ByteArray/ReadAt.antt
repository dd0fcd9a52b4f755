-- ===== src/ByteArray/ReadAt.antt =====
-- The reads that leave the object as it is: `read` at a position, and `to_string`.
use tiger.Base.{Bool-cases, inl, inr}
use tiger.ByteArray.Seek.{seek_root}
use tiger.Base.{ℕ, ◌+◌, ◌-◌, ◌*◌, ◌%◌, ◌^◌, ◌≤◌, ◌<◌, ◌≡◌, ap, arith}
use tiger.Base.{List, [], some, le→ltb, lt→ltb, le→leb, length, ◌==◌}
use tiger.Base.{if◌then◌else◌}
use native.Mathlib.Nat.{mod-lt}
use tiger.ByteArray.Defs.{
  ByteArray, ok, out_of_range, M, ◌>>=◌, slice, cur_size, sub_size, get_enable_read_size,
}
use tiger.ByteArray.Access.{read_loop, seek, read_at, to_string, const_call}
use tiger.ByteArray.Memory.{peek}
use tiger.ByteArray.Valid.{Layout, IsValid, >>=-ok, cur_size_lem, offset_lem}
use tiger.ByteArray.Read.{read_loop_lem}

abbrev copy_out : ℕ → ℕ → M (List ℕ)
copy_out k npos = do n ← cur_size; read_loop k k npos (sub_size n npos)

copy_out_lem :
    (k c position : ℕ) (s : ByteArray)
    → IsValid s
    → position + k < length s.nodes * s.base_size
    → c * s.base_size ≤ position
    → position < c * s.base_size + s.base_size
    → (t : ByteArray) × (copy_out k
          (position % s.base_size)
          (record s { cur = c; position = position })
        ≡ ok (slice (peek s.nodes) position k) t)
copy_out_lem k c position s v room lo hi =
    let npos = position % s.base_size in
    let w : Layout (record s { cur = c; position = position }) = record {
      base_pos = v.layout.base_pos;
      sizes = v.layout.sizes;
      start = lo;
      stop = hi;
      inside = omega arith;
    } in
    let below : npos < s.base_size = mod-lt position v.layout.base_pos in
    let (t, e, _) =
      read_loop_lem k k npos (sub_size s.base_size npos) (record s { cur = c; position = position })
        w (offset_lem (record s { cur = c; position = position }) w)
        (rw (le→leb npos s.base_size (omega arith)) (omega arith)) room (omega arith) in
    (t, >>=-ok cur_size _ (cur_size_lem _ w) e)

const_call_ok {ℓ} :
    {A : Type ℓ} (m : M A) (copy s : ByteArray) {t : ByteArray} {a : A}
    → m copy ≡ ok a t
    → const_call m copy s ≡ ok a s
const_call_ok m copy s e = rw (e, const_call)

read_at_found :
    (k position c o : ℕ) (s : ByteArray) {t : ByteArray} {bytes : List ℕ}
    → k ≤ sub_size s.size position
    → seek s.nodes 0 position ≡ some (c, o)
    → copy_out k (position % s.base_size) (record s { cur = c; position = position }) ≡ ok bytes t
    → read_at k position s ≡ ok bytes s
unfolding read_at
read_at_found k position c o s pass e r =
    rw (le→ltb (sub_size s.size position) k pass, e)
      (const_call_ok (copy_out k (position % s.base_size))
        (record s { cur = c; position = position }) s r)

-- What the guard lets pass is read, wherever in the nodes it stands.
read_at_passed :
    (k position : ℕ) (s : ByteArray)
    → IsValid s
    → k ≤ sub_size s.size position
    → position + k < length s.nodes * s.base_size
    → read_at k position s ≡ ok (slice (peek s.nodes) position k) s
read_at_passed k position s v pass room =
    let (c, o, e, at, lt) = seek_root s.base_size s.nodes position v.layout.sizes (omega arith) in
    let (t, r) = copy_out_lem k c position s v room (omega arith) (omega arith) in
    read_at_found k position c o s pass e r

-- On a valid object the const `read` of bytes that end by the size gives those at its position, with
-- no access outside the nodes, and changes nothing.
pub read_at_lem :
    (k position : ℕ) (s : ByteArray)
    → IsValid s
    → position + k ≤ s.size
    → read_at k position s ≡ ok (slice (peek s.nodes) position k) s
read_at_lem k position s v there =
    read_at_passed k position s v (ground arith) (omega (arith, v.size_inside))

-- With fewer bytes behind the position it throws.
pub read_at_beyond :
    (k position : ℕ) (s : ByteArray)
    → position ≤ s.size
    → s.size < position + k
    → read_at k position s ≡ out_of_range s
unfolding read_at
read_at_beyond k position s le beyond =
    rw (le→leb position s.size le, lt→ltb (s.size - position) k (omega arith))

-- On a valid object `to_string` gives the bytes between the position and the size, and changes
-- nothing.
pub to_string_lem :
    (s : ByteArray)
    → IsValid s
    → to_string s ≡ ok (slice (peek s.nodes) s.position (s.size - s.position)) s
to_string_lem s v = rw to_string_cases (elim (Bool-cases (s.size - s.position == 0)) [
  | inl empty ↦ rw empty (
      ap (λ (k : ℕ). ok (slice (peek s.nodes) s.position k) s) {x = 0} {y = s.size - s.position}
        (ground arith))
  | inr some_left ↦
      rw some_left (read_at_lem (s.size - s.position) s.position s v (omega (arith, v.position_le)))
])
  where
    to_string_cases :
        to_string s
        ≡ (if s.size - s.position == 0 then ok [] s else read_at (s.size - s.position) s.position s)
    to_string_cases =
        unfold to_string in
        ap (λ (k : ℕ). if k == 0 then ok [] s else read_at k s.position s)
          {x = get_enable_read_size s} {y = s.size - s.position} (ground (arith, v.position_le))

-- On a valid object of at most 2^63 bytes the const `read` at a position behind the size does not
-- throw: the guard's difference wraps, and it gives out bytes behind the size, if the nodes have them.
read_at_unguarded :
    (k position : ℕ) (s : ByteArray)
    → IsValid s
    → s.size < position
    → position + k < length s.nodes * s.base_size
    → length s.nodes * s.base_size ≤ 2 ^ 63
    → read_at k position s ≡ ok (slice (peek s.nodes) position k) s
read_at_unguarded k position s v past room small =
    read_at_passed k position s v (ground (arith, past, room, small)) room
