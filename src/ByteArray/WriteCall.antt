-- ===== src/ByteArray/WriteCall.antt =====
-- The whole call of `write`: room is made, the bytes are put in, and the size is raised.
use tiger.ByteArray.Grow.{Grown-start}
use native.Mathlib.Nat.{mod-lt}
use tiger.Base.{false}
use tiger.Base.{◌⊎◌}
use tiger.ByteArray.Memory.{overlay-cong}
use tiger.Base.{ℕ, suc, ◌+◌, ◌*◌, ◌%◌, ◌≤◌, ◌<◌, ◌≡◌, refl, ap, ◌∙◌, arith}
use tiger.Base.{List, [], ◌∷◌, ltb, le→leb, length, ◌==◌, if◌then◌else◌}
use tiger.ByteArray.Defs.{
  ByteArray, ok, M, ◌>>=◌, ◌>>◌, overlay, cur_size, add_free_capacity_to, sub_size,
}
use tiger.ByteArray.Access.{write_loop, write_bytes, write, raise_size}
use tiger.ByteArray.Memory.{peek}
use tiger.ByteArray.Valid.{IsValid, Written, Kept-room, >>=-ok, cur_size_lem, offset_lem}
use tiger.ByteArray.Grow.{Grown, Grown-room, Grown-Layout, add_free_capacity_to-Grown}
use tiger.ByteArray.Write.{write_loop_lem}

-- What a call of `write` promises: the bytes stand at the old position, the position is behind them,
-- all other bytes below the size are as they were, and the size only grows.
pub record Wrote (s : ByteArray) (bytes : List ℕ) (t : ByteArray) : Type 0 where
  pub valid : IsValid t
  pub base_size : t.base_size ≡ s.base_size
  pub endian : t.endian ≡ s.endian
  pub position : t.position ≡ s.position + length bytes
  pub size : t.size ≡ (if ltb s.size t.position then t.position else s.size)
  pub memory : (a : ℕ) → a < t.size → peek t.nodes a ≡ overlay (peek s.nodes) s.position bytes a

Wrote-nil : (s : ByteArray) → IsValid s → Wrote s [] s
Wrote-nil s v = record {
  valid = v;
  base_size = refl;
  endian = refl;
  position = omega arith;
  size = ground arith;
  memory = λ a h. ground arith;
}

raised_le : (a b c : ℕ) → a ≤ c → b ≤ c → (if ltb a b then b else a) ≤ c
raised_le a b c h k = ground arith

raised_lt : (a b c : ℕ) → a < c → b < c → (if ltb a b then b else a) < c
raised_lt a b c h k = ground arith

lt_raised : (x a b : ℕ) → x < (if ltb a b then b else a) → (x < a) ⊎ (x < b)
lt_raised x a b h = ground arith

-- From the parts of the call: `t` has the room, and `u` the bytes.
Wrote-raised :
    (s t u : ByteArray) (k : ℕ) (bytes : List ℕ)
    → IsValid s
    → Grown k s t
    → s.position + length bytes < t.capacity
    → Written t bytes u
    → (r : ByteArray) × (raise_size u ≡ ok tt r) × Wrote s bytes r
Wrote-raised s t u k bytes v g room w = (r, refl, promise)
  where
    r : ByteArray
    r = record u { size = if ltb u.size u.position then u.position else u.size }

    end : u.position ≡ s.position + length bytes
    end = omega (arith, w.position, g.position)

    old_size : u.size ≡ s.size
    old_size = omega (arith, w.kept.size, g.size)

    rooms : length u.nodes * u.base_size ≡ length s.nodes * s.base_size + k * s.base_size
    rooms = Kept-room t u w.kept ∙ Grown-room k s t g

    small : u.size ≤ u.capacity
    small = omega (arith, old_size, w.kept.capacity, g.capacity, v.size_le)

    below :
        (a : ℕ)
        → a < r.size
        → (a < s.position) ⊎ (s.position + length bytes ≤ a)
        → a < length s.nodes * s.base_size
    below a lt out =
        omega (arith, lt_raised a u.size u.position lt, end, old_size, v.size_inside, v.position_le)

    valid : IsValid r
    valid = record {
      layout = record {
        base_pos = w.layout.base_pos;
        sizes = w.layout.sizes;
        start = w.layout.start;
        stop = w.layout.stop;
        inside = w.layout.inside;
      };
      position_le = ground arith;
      size_le = raised_le u.size u.position u.capacity small (omega (arith, w.kept.capacity, end));
      capacity_le = omega (arith, w.kept.capacity, g.capacity, v.capacity_le, rooms);
      size_inside =
          raised_lt u.size u.position (length u.nodes * u.base_size)
            (omega (arith, rooms, old_size, v.size_inside)) w.layout.inside;
    }

    promise : Wrote s bytes r
    promise = record {
      valid = valid;
      base_size = w.kept.base_size ∙ g.base_size;
      endian = w.kept.endian ∙ g.endian;
      position = end;
      size = rw old_size refl;
      memory = λ a lt.
          w.memory a
          ∙ ap (λ (p : ℕ). overlay (peek t.nodes) p bytes a) g.position
          ∙ overlay-cong (peek t.nodes) (peek s.nodes) s.position a bytes
              (λ out. g.memory a (below a lt out));
    }

zero_test : (n : ℕ) → (suc n == 0) ≡ false
zero_test n = ground arith

abbrev copy_all : List ℕ → ℕ → M (Unit {0})
copy_all buf npos = do c ← cur_size; write_loop (length buf) buf npos (sub_size c npos); raise_size

-- The rest of the call, from a state `t` in which the room is there.
copy_all_lem :
    (buf : List ℕ) (s t : ByteArray) (k : ℕ)
    → IsValid s
    → Grown k s t
    → s.position + length buf < t.capacity
    → (r : ByteArray) × (copy_all buf (s.position % s.base_size) t ≡ ok tt r) × Wrote s buf r
copy_all_lem buf s t k v g room =
    let npos = s.position % s.base_size in
    let w = Grown-Layout k s t v.layout g in
    let at : s.cur * s.base_size + npos ≡ s.position = offset_lem s v.layout in
    let below : npos < t.base_size =
      omega (arith, mod-lt s.position v.layout.base_pos, g.base_size) in
    let (u, e, written) =
      write_loop_lem (length buf) buf npos (sub_size t.base_size npos) t w
        (omega (arith, at, Grown-start k s t g, g.position))
        (rw (le→leb npos t.base_size (omega arith)) (omega arith))
        (omega (arith, g.position, g.capacity, v.capacity_le, Grown-room k s t g)) (omega arith) in
    let (r, e', promise) = Wrote-raised s t u k buf v g room written in
    (r, >>=-ok cur_size _ (cur_size_lem t w) (>>=-ok (write_loop _ _ _ _) _ e e'), promise)

-- On a valid object `write` of any bytes returns, with no access outside the nodes: the bytes stand
-- at the old position, the position is behind them, the size is raised to it if it was less, every
-- other byte below the size is as it was, and the object is valid again.
pub write_lem :
    (buf : List ℕ) (s : ByteArray)
    → IsValid s
    → (t : ByteArray) × (write buf s ≡ ok tt t) × Wrote s buf t
write_lem [] s v = (s, unfold write in refl, Wrote-nil s v)
write_lem (b ∷ bs) s v =
    let (k, g, room) = add_free_capacity_to-Grown (length (b ∷ bs)) s v in
    let (r, e, promise) = copy_all_lem (b ∷ bs) s _ k v g room in
    (r, write_some b bs s ∙ e, promise)
  where
    write_some :
        (b : ℕ) (bs : List ℕ) (s : ByteArray)
        → write (b ∷ bs) s
          ≡ copy_all (b ∷ bs) (s.position % s.base_size) (add_free_capacity_to (length (b ∷ bs)) s)
    write_some b bs s = unfold write write_bytes in rw (zero_test (length bs))
