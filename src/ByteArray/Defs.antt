-- ===== src/ByteArray/Defs.antt =====
-- src/bytearray.h and src/bytearray.cc: the state of a ByteArray, its memory, and the exceptions.
-- The linked list of nodes is a list, and a pointer into it is an index; an index past the end is
-- the null pointer.
use tiger.Base.{ℕ, zero, suc, ◌+◌, ◌-◌, ◌/◌, ◌^◌, Bool, ◌&&◌, List, [], ◌∷◌, ◌++◌}
use tiger.Base.{none, some, ltb, leb, ◌==◌, if◌then◌else◌, length, get_elem?, get_or, set}

pub data Endian : Type 0 where
  little big : Endian

abbrev pub same_endian : Endian → Endian → Bool
same_endian little little = Bool.true
same_endian little big = Bool.false
same_endian big little = Bool.false
same_endian big big = Bool.true

-- A block of `size` bytes; `ptr` gives the byte at an offset.
pub record Node : Type 0 where
  pub ptr : ℕ → ℕ
  pub size : ℕ

-- `heap k` is what the allocator leaves in the memory of the node number k.
pub record ByteArray : Type 0 where
  pub base_size : ℕ
  pub position : ℕ
  pub capacity : ℕ
  pub size : ℕ
  pub endian : Endian
  pub nodes : List Node
  pub cur : ℕ
  pub heap : ℕ → ℕ → ℕ

-- What a call does: a result and the new state, the exception std::out_of_range with the state in
-- which it leaves the object, an access outside every node, or a loop that ran out of fuel.
pub data Outcome {ℓ} (A : Type ℓ) : Type ℓ where
  ok : A → ByteArray → Outcome A
  out_of_range : ByteArray → Outcome A
  fault : Outcome A
  out_of_fuel : Outcome A

abbrev pub M {ℓ} : Type ℓ → Type ℓ
M A = ByteArray → Outcome A

infixl 5 ◌>>=◌ ◌>>◌
abbrev pub ◌>>=◌ {ℓ κ} : {A : Type ℓ} {B : Type κ} → M A → (A → M B) → M B
◌>>=◌ m f s = elim (m s) [
  | ok a t ↦ f a t
  | out_of_range t ↦ out_of_range t
  | fault ↦ fault
  | out_of_fuel ↦ out_of_fuel
]

abbrev pub ◌>>◌ {ℓ κ} : {A : Type ℓ} {B : Type κ} → M A → M B → M B
m >> k = m >>= λ _. k

abbrev pub pure {ℓ} : {A : Type ℓ} → A → M A
pure a s = ok a s

-- `a - b` on size_t.
abbrev pub sub_size : ℕ → ℕ → ℕ
sub_size a b = if leb b a then a - b else 2 ^ 64 + a - b

-- The bytes of `f` from `a` on.
abbrev pub slice : (ℕ → ℕ) → ℕ → ℕ → List ℕ
slice f a zero = []
slice f a (suc k) = f a ∷ slice f (a + 1) k

-- `f` with `bytes` put in at `off`.
abbrev pub overlay : (ℕ → ℕ) → ℕ → List ℕ → ℕ → ℕ
overlay f off bytes a =
    if leb off a && ltb a (off + length bytes) then get_or bytes (a - off) 0 else f a

-- The node's constructor `Node(size_t s)`.
unfoldable pub new_node : (ℕ → ℕ → ℕ) → ℕ → ℕ → Node
new_node heap k s = record { ptr = heap k; size = s }

-- The constructor. The root node is there from the start, and is not counted in the capacity.
unfoldable pub new : (ℕ → ℕ → ℕ) → ℕ → ByteArray
unfolding new_node
new heap base = record {
  base_size = base;
  position = 0;
  capacity = 0;
  size = 0;
  endian = big;
  nodes = new_node heap 0 base ∷ [];
  cur = 0;
  heap = heap;
}

abbrev pub get_enable_read_size : ByteArray → ℕ
get_enable_read_size s = sub_size s.size s.position

abbrev pub get_free_capacity : ByteArray → ℕ
get_free_capacity s = sub_size s.capacity s.position

-- `ceil(1.0 * a / b)`.
unfoldable pub ceil_div : ℕ → ℕ → ℕ
ceil_div a b = (a + (b - 1)) / b

-- The loop `while (cnt > 0)` behind the last node, with the value of `cnt` that it leaves.
unfoldable pub append_nodes : ℕ → ByteArray → ByteArray × ℕ
unfolding new_node
append_nodes zero s = (s, 0)
append_nodes (suc cnt) s = append_nodes cnt (record s {
  nodes = s.nodes ++ (new_node s.heap (length s.nodes) s.base_size ∷ []);
  capacity = s.capacity + s.base_size;
})

unfoldable pub add_free_capacity_to : ℕ → ByteArray → ByteArray
unfolding append_nodes ceil_div
add_free_capacity_to size s =
    let free_cap = get_free_capacity s in
    if ltb size free_cap
    then s
    else let (t, cnt) = append_nodes (ceil_div (size - free_cap) s.base_size + 1) s in
      if free_cap == 0 && ltb 0 cnt then record t { cur = t.cur + 1 } else t

-- `m_cur->size`.
unfoldable pub cur_size : M ℕ
cur_size s = elim (get_elem? s.nodes s.cur) [ none ↦ fault | some n ↦ ok n.size s ]

-- `memcpy(m_cur->ptr + npos, bytes, length bytes)`.
unfoldable pub store : ℕ → List ℕ → M (Unit {0})
store npos bytes s = elim (get_elem? s.nodes s.cur) [
  | none ↦ fault
  | some n ↦
      if leb (npos + length bytes) n.size
      then ok tt
          (record s { nodes = set s.nodes s.cur (record n { ptr = overlay n.ptr npos bytes }) })
      else fault
]

-- `memcpy(to, m_cur->ptr + npos, k)`.
unfoldable pub load : ℕ → ℕ → M (List ℕ)
load npos k s = elim (get_elem? s.nodes s.cur) [
  | none ↦ fault
  | some n ↦ if leb (npos + k) n.size then ok (slice n.ptr npos k) s else fault
]

-- `m_cur = m_cur->next`.
abbrev pub next_node : M (Unit {0})
next_node s = ok tt (record s { cur = s.cur + 1 })

-- `if (m_cur->size == used && m_cur->next) m_cur = m_cur->next`.
unfoldable pub pass_full : ℕ → M (Unit {0})
pass_full used s = elim (get_elem? s.nodes s.cur) [
  | none ↦ fault
  | some n ↦
      if n.size == used && ltb (s.cur + 1) (length s.nodes)
      then ok tt (record s { cur = s.cur + 1 })
      else ok tt s
]

-- `m_position += k`.
abbrev pub move : ℕ → M (Unit {0})
move k s = ok tt (record s { position = s.position + k })
