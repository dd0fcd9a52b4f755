-- ===== src/ByteArray/Grow.antt =====
-- `add_free_capacity_to` adds nodes behind the last, so that more room than asked for is there.
use tiger.Base.{ℕ, zero, suc, ◌+◌, ◌-◌, ◌*◌, ◌≤◌, ◌<◌, ◌≡◌, refl, ap₂, ◌∙◌, arith}
use tiger.Base.{[], ◌∷◌, ◌++◌, length, length-append, All-append, Bool-cases}
use tiger.Base.{inl, inr, lt→ltb, le→leb, le→ltb}
use native.Mathlib.Nat.{div-add-mod', mod-lt}
use tiger.Base.{◌==◌}
use native.Mathlib.Decide.{dec_lt}
use tiger.ByteArray.Defs.{ByteArray, new_node, append_nodes, ceil_div, add_free_capacity_to}
use tiger.ByteArray.Memory.{peek, Sized, peek-append}
use tiger.ByteArray.Valid.{Layout, IsValid}

-- `t` is `s` with `k` nodes more.
pub record Grown (k : ℕ) (s t : ByteArray) : Type 0 where
  pub base_size : t.base_size ≡ s.base_size
  pub position : t.position ≡ s.position
  pub size : t.size ≡ s.size
  pub endian : t.endian ≡ s.endian
  pub heap : t.heap ≡ s.heap
  pub cur : t.cur ≡ s.cur
  pub capacity : t.capacity ≡ s.capacity + k * s.base_size
  pub nodes : length t.nodes ≡ length s.nodes + k
  pub sizes : Sized t.base_size t.nodes
  pub memory : (a : ℕ) → a < length s.nodes * s.base_size → peek t.nodes a ≡ peek s.nodes a

Grown-zero : (s : ByteArray) → Sized s.base_size s.nodes → Grown 0 s s
Grown-zero s h = record {
  base_size = refl;
  position = refl;
  size = refl;
  endian = refl;
  heap = refl;
  cur = refl;
  capacity = omega arith;
  nodes = omega arith;
  sizes = h;
  memory = λ a lt. refl;
}

abbrev one_more : ByteArray → ByteArray
one_more s = record s {
  nodes = s.nodes ++ (new_node s.heap (length s.nodes) s.base_size ∷ []);
  capacity = s.capacity + s.base_size;
}

-- The loop adds as many nodes as it is told to, and leaves its counter at 0.
append_nodes-Grown :
    (cnt : ℕ) (s : ByteArray)
    → Sized s.base_size s.nodes
    → Grown cnt s (append_nodes cnt s).0 × ((append_nodes cnt s).1 ≡ 0)
unfolding append_nodes
append_nodes-Grown zero s h = (Grown-zero s h, refl)
append_nodes-Grown (suc cnt) s h =
    let sized =
      All-append (λ n. n.size ≡ s.base_size) s.nodes
        (new_node s.heap (length s.nodes) s.base_size ∷ []) h (refl, tt) in
    let len = length-append s.nodes (new_node s.heap (length s.nodes) s.base_size ∷ []) in
    let (g, e) = append_nodes-Grown cnt (one_more s) sized in
    (
      record {
        base_size = g.base_size;
        position = g.position;
        size = g.size;
        endian = g.endian;
        heap = g.heap;
        cur = g.cur;
        capacity = omega (arith, g.capacity);
        nodes = omega (arith, g.nodes, len);
        sizes = g.sizes;
        memory = λ a lt.
            g.memory a (rw len (omega arith))
            ∙ peek-append s.base_size s.nodes (new_node s.heap (length s.nodes) s.base_size ∷ []) a
                h lt;
      },
      e,
    )

ceil_div-ge : (a b : ℕ) → 0 < b → a ≤ ceil_div a b * b
unfolding ceil_div
ceil_div-ge a b h = omega (arith, div-add-mod' (a + (b - 1)) b, mod-lt (a + (b - 1)) h)

room_left :
    (size : ℕ) (s : ByteArray)
    → s.position ≤ s.capacity
    → size < s.capacity - s.position
    → add_free_capacity_to size s ≡ s
unfolding add_free_capacity_to
room_left size s h lt =
    rw (le→leb s.position s.capacity h) (rw (lt→ltb size (s.capacity - s.position) lt))

-- The step to the next node behind the loop is never made, for the loop has left `cnt` at 0.
room_added :
    (size : ℕ) (s : ByteArray)
    → s.position ≤ s.capacity
    → s.capacity - s.position ≤ size
    → (append_nodes (ceil_div (size - (s.capacity - s.position)) s.base_size + 1) s).1 ≡ 0
    → add_free_capacity_to size s
      ≡ (append_nodes (ceil_div (size - (s.capacity - s.position)) s.base_size + 1) s).0
unfolding add_free_capacity_to
room_added size s h le done = rw (le→leb s.position s.capacity h) (
    rw (le→ltb size (s.capacity - s.position) le, done)
      (elim (Bool-cases (s.capacity - s.position == 0)) [ inl e ↦ rw e | inr e ↦ rw e ]))

-- More room than asked for, behind the position.
pub add_free_capacity_to-Grown :
    (size : ℕ) (s : ByteArray)
    → IsValid s
    → (k : ℕ) × Grown k s (add_free_capacity_to size s)
      × (s.position + size < (add_free_capacity_to size s).capacity)
unfolding add_free_capacity_to
add_free_capacity_to-Grown size s v = elim (dec_lt size (s.capacity - s.position)) [
  | yes room ↦
      let e = room_left size s (omega arith) room in
      (0, rw e (Grown-zero s v.layout.sizes), rw e (omega arith))
  | no short ↦
      let free = s.capacity - s.position in
      let cnt = ceil_div (size - free) s.base_size + 1 in
      let (g, done) = append_nodes-Grown cnt s v.layout.sizes in
      let e = room_added size s (omega arith) (omega arith) done in
      (
        cnt,
        rw e g,
        rw e (omega (arith, g.capacity, ceil_div-ge (size - free) s.base_size v.layout.base_pos)),
      )
]

pub Grown-room :
    (k : ℕ) (s t : ByteArray)
    → Grown k s t
    → length t.nodes * t.base_size ≡ length s.nodes * s.base_size + k * s.base_size
Grown-room k s t g = ap₂ (◌*◌) g.nodes g.base_size ∙ omega arith

pub Grown-start :
    (k : ℕ) (s t : ByteArray) → Grown k s t → t.cur * t.base_size ≡ s.cur * s.base_size
Grown-start k s t g = ap₂ (◌*◌) g.cur g.base_size

pub Grown-Layout : (k : ℕ) (s t : ByteArray) → Layout s → Grown k s t → Layout t
Grown-Layout k s t v g = record {
  base_pos = omega (arith, v.base_pos, g.base_size);
  sizes = g.sizes;
  start = omega (arith, v.start, g.position, Grown-start k s t g);
  stop = omega (arith, v.stop, g.position, g.base_size, Grown-start k s t g);
  inside = omega (arith, v.inside, g.position, Grown-room k s t g);
}
