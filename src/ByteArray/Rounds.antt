-- ===== src/ByteArray/Rounds.antt =====
-- One round of the loop of `write`: a copy that ends in the current node.
use tiger.Base.{get_elem?-set_self}
use tiger.Base.{ℕ, ◌+◌, ◌*◌, ◌≤◌, ◌<◌, ◌≡◌, refl, ap, ap₂, ◌∙◌, arith}
use tiger.Base.{List, [], ◌++◌, some, le→leb, lt→ltb, ==_iff, length, get_elem?, set}
use tiger.Base.{length-set, length-append, All-set}
use mathlib.Core.Path.{fun_ext}
use native.Mathlib.Decide.{dec_lt}
use tiger.ByteArray.Defs.{
  Node, ByteArray, ok, M, ◌>>=◌, ◌>>◌, overlay, cur_size, store, pass_full, move, next_node,
}
use tiger.ByteArray.Memory.{peek, peek-store, overlay-append}
use tiger.ByteArray.Valid.{
  Layout, Written, Layout-node, Layout-cur-lt, lt_of_mul, >>=-ok, cur_size_lem,
}

-- The state after a copy to the current node, and a move of the position into the node `c`.
abbrev stored : ByteArray → ℕ → List ℕ → Node → ℕ → ByteArray
stored s npos bytes n c = record s {
  nodes = set s.nodes s.cur (record n { ptr = overlay n.ptr npos bytes });
  cur = c;
  position = s.position + length bytes;
}

module _ (s : ByteArray) (npos : ℕ) (bytes : List ℕ) (n : Node) (v : Layout s)
    (at : s.cur * s.base_size + npos ≡ s.position) (node : get_elem? s.nodes s.cur ≡ some n)
    (size : n.size ≡ s.base_size) (fits : npos + length bytes ≤ s.base_size) where
  store_lem :
      store npos bytes s
      ≡ ok tt (record s { nodes = set s.nodes s.cur (record n { ptr = overlay n.ptr npos bytes }) })
  unfolding store
  store_lem = rw (node, store, le→leb (npos + length bytes) n.size (omega arith))

  stored-Written :
      (c : ℕ)
      → c * s.base_size ≤ s.position + length bytes
      → s.position + length bytes < c * s.base_size + s.base_size
      → s.position + length bytes < length s.nodes * s.base_size
      → Written s bytes (stored s npos bytes n c)
  stored-Written c lo hi inside = record {
    kept = record {
      base_size = refl;
      capacity = refl;
      size = refl;
      endian = refl;
      heap = refl;
      nodes = length-set s.nodes s.cur _;
    };
    layout = record {
      base_pos = v.base_pos;
      sizes = All-set (λ m. m.size ≡ s.base_size) s.nodes s.cur _ v.sizes size;
      start = lo;
      stop = hi;
      inside = rw (length-set s.nodes s.cur (record n { ptr = overlay n.ptr npos bytes })) inside;
    };
    position = refl;
    memory = λ a.
        peek-store s.base_size s.nodes s.cur npos a n bytes v.sizes node (Layout-cur-lt s v) size
          fits
        ∙ ap (λ (p : ℕ). overlay (peek s.nodes) p bytes a) at;
  }

-- Two writes one behind the other.
pub Written-trans :
    (s t u : ByteArray) (xs ys : List ℕ) → Written s xs t → Written t ys u → Written s (xs ++ ys) u
Written-trans s t u xs ys v w = record {
  kept = record {
    base_size = w.kept.base_size ∙ v.kept.base_size;
    capacity = w.kept.capacity ∙ v.kept.capacity;
    size = w.kept.size ∙ v.kept.size;
    endian = w.kept.endian ∙ v.kept.endian;
    heap = w.kept.heap ∙ v.kept.heap;
    nodes = w.kept.nodes ∙ v.kept.nodes;
  };
  layout = w.layout;
  position = omega (arith, v.position, w.position, length-append xs ys);
  memory = λ a.
      w.memory a
      ∙ ap₂ (λ (f : ℕ → ℕ) (p : ℕ). overlay f p ys a) (fun_ext v.memory) v.position
      ∙ overlay-append (peek s.nodes) s.position a xs ys;
}

pub Written-nil : (s : ByteArray) → Layout s → Written s [] s
Written-nil s v = record {
  kept = record {
    base_size = refl;
    capacity = refl;
    size = refl;
    endian = refl;
    heap = refl;
    nodes = refl;
  };
  layout = v;
  position = omega arith;
  memory = λ a. ground arith;
}

-- The end of the last round: the step to the next node is made where the node is full.
pub pass_full_end :
    (s : ByteArray) (used : ℕ) (n : Node)
    → get_elem? s.nodes s.cur ≡ some n
    → n.size ≡ used
    → s.cur + 1 < length s.nodes
    → pass_full used s ≡ ok tt (record s { cur = s.cur + 1 })
unfolding pass_full
pass_full_end s used n e z lt =
    rw (e, pass_full, (==_iff n.size used).1 z, lt→ltb (s.cur + 1) (length s.nodes) lt)

pub pass_full_inside :
    (s : ByteArray) (used : ℕ) (n : Node)
    → get_elem? s.nodes s.cur ≡ some n
    → used < n.size
    → pass_full used s ≡ ok tt s
unfolding pass_full
pass_full_inside s used n e lt = rw (e, pass_full) (ground arith)

module _ (s : ByteArray) (npos : ℕ) (bytes : List ℕ) (v : Layout s)
    (at : s.cur * s.base_size + npos ≡ s.position)
    (inside : s.position + length bytes < length s.nodes * s.base_size) where
  pub last_round :
      npos + length bytes ≤ s.base_size
      → (t : ByteArray) × ((do
        store npos bytes
        pass_full (npos + length bytes)
        move (length bytes))
            s
          ≡ ok tt t)
        × Written s bytes t
  last_round fits =
      let (n, e, z) = Layout-node s v in
      let n' : Node = record n { ptr = overlay n.ptr npos bytes } in
      let here = get_elem?-set_self s.nodes s.cur n' (Layout-cur-lt s v) in
      let copied = store_lem s npos bytes n v at e z fits in
      elim (dec_lt (npos + length bytes) s.base_size) [
        | yes lt ↦ (
          stored s npos bytes n s.cur,
          >>=-ok (store npos bytes) _ copied
              (>>=-ok (pass_full _) _ (pass_full_inside _ _ n' here (omega arith)) refl),
          stored-Written s npos bytes n v at e z fits s.cur (omega arith) (omega arith) inside,
        )
        | no ge ↦ (
          stored s npos bytes n (s.cur + 1),
          >>=-ok (store npos bytes) _ copied (
              >>=-ok (pass_full _) _
                (pass_full_end _ _ n' here (omega arith) (
                  rw length-set (lt_of_mul (s.cur + 1) (length s.nodes) s.base_size (omega arith))))
                refl),
          stored-Written s npos bytes n v at e z fits (s.cur + 1) (omega arith) (omega arith)
              inside,
        )
      ]

  pub next_round :
      {B : Type 0} (k : ℕ → M B)
      → npos + length bytes ≡ s.base_size
      → (t : ByteArray) × ((do store npos bytes; move (length bytes); next_node; c ← cur_size; k c)
            s
          ≡ k t.base_size t)
        × (t.cur * t.base_size ≡ t.position)
        × Written s bytes t
  next_round k full =
      let (n, e, z) = Layout-node s v in
      let w =
        stored-Written s npos bytes n v at e z (omega arith) (s.cur + 1) (omega arith) (omega arith)
          inside in
      (
        stored s npos bytes n (s.cur + 1),
        >>=-ok (store npos bytes) _ (store_lem s npos bytes n v at e z (omega arith))
            (>>=-ok cur_size _ (cur_size_lem _ w.layout) refl),
        omega arith,
        w,
      )
