-- ===== src/ByteArray/Access.antt =====
-- src/bytearray.cc: writing and reading across the nodes, and moving the position.
-- A loop's fuel is the number of bytes that are left, since each round moves one byte at least.
use tiger.Base.{ℕ, zero, suc, ◌+◌, ◌-◌, ◌%◌, Bool, ◌&&◌, List, [], ◌∷◌, ◌++◌}
use tiger.Base.{Option, none, some, ltb, leb, ◌==◌, if◌then◌else◌, length, take, drop}
use tiger.ByteArray.Defs.{
  little, big, Node, ByteArray, ok, out_of_range, fault, out_of_fuel, M, ◌>>=◌, ◌>>◌, pure,
  sub_size, get_enable_read_size, add_free_capacity_to, cur_size, store, load, next_node, pass_full,
  move, same_endian,
}

-- The loop of `write`; the list is what of `buf` is still to be written.
unfoldable pub write_loop : ℕ → List ℕ → ℕ → ℕ → M (Unit {0})
unfolding cur_size store pass_full
write_loop fuel [] npos ncap = pure tt
write_loop zero (b ∷ bs) npos ncap = λ _. out_of_fuel
write_loop (suc fuel) (b ∷ bs) npos ncap =
    let rest = b ∷ bs in
    let last_round : M (Unit {0}) = do
      store npos rest
      pass_full (npos + length rest)
      move (length rest)
    in let next_round : M (Unit {0}) = do
      store npos (take ncap rest)
      move ncap
      next_node
      c ← cur_size
      write_loop fuel (drop ncap rest) 0 c
      in if leb (length rest) ncap then last_round else next_round

-- `if (m_position > m_size) m_size = m_position`.
abbrev pub raise_size : M (Unit {0})
raise_size s = ok tt (record s { size = if ltb s.size s.position then s.position else s.size })

-- `write` of at least one byte.
unfoldable pub write_bytes : List ℕ → M (Unit {0})
unfolding add_free_capacity_to write_loop cur_size
write_bytes buf s =
    (do
      c ← cur_size
      let npos = s.position % s.base_size
      write_loop (length buf) buf npos (sub_size c npos)
      raise_size)
      (add_free_capacity_to (length buf) s)

unfoldable pub write : List ℕ → M (Unit {0})
unfolding write_bytes
write buf = if length buf == 0 then pure tt else write_bytes buf

-- The loop of `read`, for the bytes that are still to be read.
unfoldable pub read_loop : ℕ → ℕ → ℕ → ℕ → M (List ℕ)
unfolding cur_size load pass_full
read_loop fuel zero npos ncap = pure []
read_loop zero (suc k) npos ncap = λ _. out_of_fuel
read_loop (suc fuel) (suc k) npos ncap =
    let last_round : M (List ℕ) = do
      bytes ← load npos (suc k)
      pass_full (npos + suc k)
      move (suc k)
      pure bytes
    in let next_round : M (List ℕ) = do
      bytes ← load npos ncap
      move ncap
      next_node
      c ← cur_size
      more ← read_loop fuel (suc k - ncap) 0 c
      pure (bytes ++ more)
      in if leb (suc k) ncap then last_round else next_round

-- `read` behind its guard.
unfoldable pub read_bytes : ℕ → M (List ℕ)
unfolding read_loop cur_size
read_bytes k s =
    (do c ← cur_size; let npos = s.position % s.base_size; read_loop k k npos (sub_size c npos)) s

unfoldable pub read : ℕ → M (List ℕ)
unfolding read_bytes
read k s = if ltb (get_enable_read_size s) k then out_of_range s else read_bytes k s

-- A const method works on copies of `m_cur` and `m_position`, and leaves the object as it was.
abbrev pub const_call {ℓ} : {A : Type ℓ} → M A → ByteArray → M A
const_call m copy s = elim (m copy) [
  | ok a t ↦ ok a s
  | out_of_range t ↦ out_of_range s
  | fault ↦ fault
  | out_of_fuel ↦ out_of_fuel
]

-- `while (position >= cur->size) { position -= cur->size; cur = cur->next; }` from the root on,
-- with the node and the rest of the position. `none` means that it ran off the list.
unfoldable pub seek : List Node → ℕ → ℕ → Option (ℕ × ℕ)
seek [] cur position = none
seek (n ∷ ns) cur position =
    if leb n.size position then seek ns (cur + 1) (position - n.size) else some (cur, position)

-- `read(buf, size, position) const`. Behind the walk its `position` is only counted up.
unfoldable pub read_at : ℕ → ℕ → M (List ℕ)
unfolding seek read_loop cur_size
read_at k position s =
    if ltb (sub_size s.size position) k then out_of_range s else elim (seek s.nodes 0 position) [
      | none ↦ fault
      | some (c, _) ↦
          const_call
            (do
              n ← cur_size
              let npos = position % s.base_size
              read_loop k k npos (sub_size n npos))
            (record s { cur = c; position = position }) s
    ]

unfoldable pub to_string : M (List ℕ)
to_string s =
    if get_enable_read_size s == 0 then ok [] s else read_at (get_enable_read_size s) s.position s

unfoldable pub clear : ByteArray → ByteArray
clear s = record s {
  position = 0;
  size = 0;
  capacity = s.base_size;
  nodes = take 1 s.nodes;
  cur = 0;
}

-- The walk of `set_position`, which stops at the end of a node, and then steps to the next node if
-- there is one.
unfoldable pub seek_end : List Node → ℕ → ℕ → Option ℕ
seek_end [] cur v = none
seek_end (n ∷ ns) cur v =
    if ltb n.size v
    then seek_end ns (cur + 1) (v - n.size)
    else some (if v == n.size && ltb 0 (length ns) then cur + 1 else cur)

unfoldable pub set_position : ℕ → M (Unit {0})
unfolding seek_end
set_position v s = if ltb s.capacity v then out_of_range s else elim (seek_end s.nodes 0 v) [
  | none ↦ fault
  | some c ↦ ok tt (record s { position = v; size = if ltb s.size v then v else s.size; cur = c })
]

unfoldable pub is_little_endian : ByteArray → Bool
is_little_endian s = same_endian s.endian little

unfoldable pub set_little_endian : Bool → ByteArray → ByteArray
set_little_endian v s = record s { endian = if v then little else big }
