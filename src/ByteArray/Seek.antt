-- ===== src/ByteArray/Seek.antt =====
-- The constructor, `clear`, `set_position` and the reads at a given position.
use tiger.Base.{ℕ, zero, suc, ◌+◌, ◌-◌, ◌*◌, ◌≤◌, ◌<◌, ◌≡◌, refl, sym, ap, ◌∙◌, arith}
use tiger.Base.{List, [], ◌∷◌, some, ltb, ==_iff, le→ltb, lt→ltb, le→leb, lt→leb, length, take}
use tiger.Base.{if◌then◌else◌}
use native.Mathlib.Decide.{dec_lt, ℕ_discrete}
use tiger.ByteArray.Defs.{Node, ByteArray, ok, out_of_range, new}
use tiger.ByteArray.Access.{seek, seek_end, set_position, clear}
use tiger.ByteArray.Memory.{Sized}
use tiger.ByteArray.Valid.{Layout, IsValid}

-- A new object is valid: its root node is room of which the capacity knows nothing.
pub new-IsValid : (heap : ℕ → ℕ → ℕ) (base : ℕ) → 0 < base → IsValid (new heap base)
unfolding new
new-IsValid heap base h = record {
  layout = record {
    base_pos = h;
    sizes = (refl, tt);
    start = omega arith;
    stop = omega arith;
    inside = omega arith;
  };
  position_le = omega arith;
  size_le = omega arith;
  capacity_le = omega arith;
  size_inside = omega arith;
}

-- `clear` keeps the root node and leaves a valid, empty buffer.
clear_root :
    (s : ByteArray) (ns : List Node) (base : ℕ)
    → s.base_size ≡ base
    → 0 < base
    → Sized base ns
    → 0 < length ns
    → IsValid (record s { position = 0; size = 0; capacity = base; nodes = take 1 ns; cur = 0 })
clear_root s [] base e h sized lt = absurd (omega arith)
clear_root s (n ∷ ns) base e h sized lt = record {
  layout = record {
    base_pos = omega arith;
    sizes = (sized.0 ∙ sym e, tt);
    start = omega arith;
    stop = omega arith;
    inside = omega arith;
  };
  position_le = omega arith;
  size_le = omega arith;
  capacity_le = omega arith;
  size_inside = omega arith;
}

some_node : (s : ByteArray) → Layout s → 0 < length s.nodes
some_node s v = grind (arith, v.inside)

-- `clear` makes of a valid object a valid object.
pub clear-IsValid : (s : ByteArray) → IsValid s → IsValid (clear s)
unfolding clear
clear-IsValid s v =
    clear_root s s.nodes s.base_size refl v.layout.base_pos v.layout.sizes (some_node s v.layout)

-- The walk of `set_position`, step by step.
seek_end_past :
    (n : Node) (ns : List Node) (cur v : ℕ)
    → n.size < v
    → seek_end (n ∷ ns) cur v ≡ seek_end ns (cur + 1) (v - n.size)
unfolding seek_end
seek_end_past n ns cur v h = rw (lt→ltb n.size v h)

seek_end_on :
    (n : Node) (ns : List Node) (cur v : ℕ)
    → v ≡ n.size
    → 0 < length ns
    → seek_end (n ∷ ns) cur v ≡ some (cur + 1)
unfolding seek_end
seek_end_on n ns cur v h k =
    rw (le→ltb n.size v (omega arith)) (rw ((==_iff v n.size).1 h, lt→ltb 0 (length ns) k))

seek_end_in :
    (n : Node) (ns : List Node) (cur v : ℕ) → v < n.size → seek_end (n ∷ ns) cur v ≡ some cur
unfolding seek_end
seek_end_in n ns cur v h = ground arith

-- It ends in the node of the address, if that is not behind the last node.
seek_end_lem :
    (base : ℕ) (ns : List Node) (cur v : ℕ)
    → 0 < base
    → Sized base ns
    → v < length ns * base
    → (c : ℕ) × (seek_end ns cur v ≡ some (cur + c))
      × (c * base ≤ v)
      × (v < c * base + base)
      × (c < length ns)
seek_end_lem base [] cur v h sized lt = absurd (omega arith)
seek_end_lem base (n ∷ ns) cur v h sized lt = elim (dec_lt base v) [
  | yes past ↦
      let (c, e, lo, hi, l) = seek_end_lem base ns (cur + 1) (v - base) h sized.1 (omega arith) in
      (
        suc c,
        seek_end_past n ns cur v (omega (arith, sized.0))
            ∙ ap (λ (k : ℕ). seek_end ns (cur + 1) (v - k)) sized.0
            ∙ e
            ∙ ap some {y = cur + suc c} (omega arith),
        omega arith,
        omega arith,
        omega arith,
      )
  | no here ↦ elim (ℕ_discrete v base) [
    | yes end ↦ (
      1,
      seek_end_on n ns cur v (omega (arith, sized.0)) (next_exists (length ns) (omega arith)),
      omega arith,
      omega arith,
      omega (arith, next_exists (length ns) (omega arith)),
    )
    | no within ↦ (
      0,
      seek_end_in n ns cur v (omega (arith, sized.0)) ∙ ap some {y = cur + 0} (omega arith),
      omega arith,
      omega arith,
      omega arith,
    )
  ]
]
  where
    next_exists : (l : ℕ) → base < suc l * base → 0 < l
    next_exists zero k = absurd (omega arith)
    next_exists (suc l) k = omega arith

-- What a call of `set_position` promises.
pub record Placed (s : ByteArray) (v : ℕ) (t : ByteArray) : Type 0 where
  pub valid : IsValid t
  pub position : t.position ≡ v
  pub size : t.size ≡ (if ltb s.size v then v else s.size)
  pub base_size : t.base_size ≡ s.base_size
  pub endian : t.endian ≡ s.endian
  pub nodes : t.nodes ≡ s.nodes

placed-IsValid :
    (v c : ℕ) (s : ByteArray)
    → IsValid s
    → v ≤ s.capacity
    → v < length s.nodes * s.base_size
    → c * s.base_size ≤ v
    → v < c * s.base_size + s.base_size
    → IsValid (record s { position = v; size = if ltb s.size v then v else s.size; cur = c })
placed-IsValid v c s k le lt lo hi = record {
  layout = record {
    base_pos = k.layout.base_pos;
    sizes = k.layout.sizes;
    start = lo;
    stop = hi;
    inside = lt;
  };
  position_le = ground arith;
  size_le = ground (arith, k.size_le);
  capacity_le = k.capacity_le;
  size_inside = ground (arith, k.size_inside);
}

-- On a valid object `set_position` to a place that is within the capacity and in the nodes returns a
-- valid object with that position, its size raised to it if it was less, and the same nodes.
pub set_position_lem :
    (v : ℕ) (s : ByteArray)
    → IsValid s
    → v ≤ s.capacity
    → v < length s.nodes * s.base_size
    → (t : ByteArray) × (set_position v s ≡ ok tt t) × Placed s v t
set_position_lem v s k le lt =
    let (c, e, lo, hi, l) =
      seek_end_lem s.base_size s.nodes 0 v k.layout.base_pos k.layout.sizes lt in
    (
      record s { position = v; size = if ltb s.size v then v else s.size; cur = 0 + c },
      unfold set_position in rw (le→ltb s.capacity v le) (rw (e, set_position)),
      record {
        valid =
            placed-IsValid v (0 + c) s k le lt
              (omega (arith, ap (λ (i : ℕ). i * s.base_size) {x = 0 + c} {y = c} (omega arith)))
              (omega (arith, ap (λ (i : ℕ). i * s.base_size) {x = 0 + c} {y = c} (omega arith)));
        position = refl;
        size = refl;
        base_size = refl;
        endian = refl;
        nodes = refl;
      },
    )

-- Behind the capacity it throws, and leaves the state as it was.
pub set_position_beyond :
    (v : ℕ) (s : ByteArray) → s.capacity < v → set_position v s ≡ out_of_range s
unfolding set_position
set_position_beyond v s h = rw (lt→ltb s.capacity v h)

seek_step :
    (n : Node) (ns : List Node) (cur v : ℕ)
    → n.size ≤ v
    → seek (n ∷ ns) cur v ≡ seek ns (cur + 1) (v - n.size)
unfolding seek
seek_step n ns cur v h = rw (le→leb n.size v h)

seek_here :
    (n : Node) (ns : List Node) (cur v : ℕ) → v < n.size → seek (n ∷ ns) cur v ≡ some (cur, v)
unfolding seek
seek_here n ns cur v h = rw (lt→leb n.size v h)

-- The walk of the const methods ends in the node of the address.
pub seek_lem :
    (base : ℕ) (ns : List Node) (cur v : ℕ)
    → Sized base ns
    → v < length ns * base
    → (c : ℕ) × (o : ℕ) × (seek ns cur v ≡ some (cur + c, o)) × (c * base + o ≡ v) × (o < base)
seek_lem base [] cur v sized lt = absurd (omega arith)
seek_lem base (n ∷ ns) cur v sized lt = elim (dec_lt v base) [
  | yes here ↦ (
    0,
    v,
    seek_here n ns cur v (omega (arith, sized.0))
        ∙ ap (λ (i : ℕ). some (i, v)) {y = cur + 0} (omega arith),
    omega arith,
    here,
  )
  | no past ↦
      let (c, o, e, at, l) = seek_lem base ns (cur + 1) (v - base) sized.1 (omega arith) in
      (
        suc c,
        o,
        seek_step n ns cur v (omega (arith, sized.0))
            ∙ ap (λ (k : ℕ). seek ns (cur + 1) (v - k)) sized.0
            ∙ e
            ∙ ap (λ (i : ℕ). some (i, o)) {y = cur + suc c} (omega arith),
        omega arith,
        l,
      )
]

-- From the root on.
pub seek_root :
    (base : ℕ) (ns : List Node) (v : ℕ)
    → Sized base ns
    → v < length ns * base
    → (c : ℕ) × (o : ℕ) × (seek ns 0 v ≡ some (c, o)) × (c * base + o ≡ v) × (o < base)
seek_root base ns v sized lt =
    let (c, o, e, at, l) = seek_lem base ns 0 v sized lt in
    (c, o, e ∙ ap (λ (i : ℕ). some (i, o)) (omega arith), at, l)
