-- ===== src/ByteArray/Read.antt =====
-- `read` gives the bytes at the position, from whatever nodes they stand in.
use tiger.Base.{ℕ, zero, suc, ◌+◌, ◌-◌, ◌*◌, ◌%◌, ◌≤◌, ◌<◌, ◌≡◌, refl, sym, ap, ◌∙◌, arith}
use tiger.Base.{List, ◌++◌, le→leb, lt→leb, length, le→ltb, lt→ltb}
use mathlib.Core.Path.{subst}
use native.Mathlib.Nat.{mod-lt}
use native.Mathlib.Decide.{dec_le, dec_lt}
use tiger.ByteArray.Defs.{
  ByteArray, ok, M, ◌>>=◌, ◌>>◌, pure, slice, cur_size, load, pass_full, move, next_node, sub_size,
  out_of_range,
}
use tiger.ByteArray.Access.{read_loop, read_bytes, read}
use tiger.ByteArray.Memory.{peek, slice-load, slice-append}
use tiger.ByteArray.Valid.{
  Layout, IsValid, Layout-node, lt_of_mul, >>=-ok, cur_size_lem, offset_lem,
}
use tiger.ByteArray.Rounds.{pass_full_end, pass_full_inside}

-- `t` is `s` with the position `k` further, and `cur` in its node.
abbrev pub moved : ByteArray → ℕ → ℕ → ByteArray
moved s k c = record s { position = s.position + k; cur = c }

pub record ReadTo (s : ByteArray) (k : ℕ) (t : ByteArray) : Type 0 where
  pub node : ℕ
  pub state : t ≡ moved s k node
  pub layout : Layout t

abbrev last_step : ℕ → ℕ → M (List ℕ)
last_step npos k = do bytes ← load npos k; pass_full (npos + k); move k; pure bytes

abbrev next_step : ℕ → ℕ → ℕ → ℕ → M (List ℕ)
next_step npos ncap fuel k = do
  bytes ← load npos ncap
  move ncap
  next_node
  c ← cur_size
  more ← read_loop fuel k 0 c
  pure (bytes ++ more)

read_loop_last :
    (fuel k npos ncap : ℕ)
    → suc k ≤ ncap
    → read_loop (suc fuel) (suc k) npos ncap ≡ last_step npos (suc k)
unfolding read_loop
read_loop_last fuel k npos ncap h = rw (le→leb (suc k) ncap h)

read_loop_next :
    (fuel k npos ncap : ℕ)
    → ncap < suc k
    → read_loop (suc fuel) (suc k) npos ncap ≡ next_step npos ncap fuel (suc k - ncap)
unfolding read_loop
read_loop_next fuel k npos ncap h = rw (lt→leb (suc k) ncap h)

module _ (s : ByteArray) (npos k : ℕ) (v : Layout s) (at : s.cur * s.base_size + npos ≡ s.position)
    (fits : npos + k ≤ s.base_size) (inside : s.position + k < length s.nodes * s.base_size) where
  moved-Layout :
      (c : ℕ)
      → c * s.base_size ≤ s.position + k
      → s.position + k < c * s.base_size + s.base_size
      → Layout (moved s k c)
  moved-Layout c lo hi = record {
    base_pos = v.base_pos;
    sizes = v.sizes;
    start = lo;
    stop = hi;
    inside = inside;
  }

  load_lem : load npos k s ≡ ok (slice (peek s.nodes) s.position k) s
  unfolding load
  load_lem =
      let (n, e, z) = Layout-node s v in
      rw (e, load)
        (rw (le→leb (npos + k) n.size (omega arith)) (
          ap (λ (xs : List ℕ). ok xs s)
            (slice-load s.base_size s.nodes s.cur npos k n v.sizes e fits
              ∙ ap (λ (p : ℕ). slice (peek s.nodes) p k) at)))

  last_round :
      (t : ByteArray) × (last_step npos k s ≡ ok (slice (peek s.nodes) s.position k) t)
      × ReadTo s k t
  last_round =
      let (n, e, z) = Layout-node s v in
      elim (dec_lt (npos + k) s.base_size) [
        | yes lt ↦ (
          moved s k s.cur,
          >>=-ok (load npos k) _ load_lem
              (>>=-ok (pass_full _) _ (pass_full_inside s _ n e (omega arith)) refl),
          record {
            node = s.cur;
            state = refl;
            layout = moved-Layout s.cur (omega arith) (omega arith);
          },
        )
        | no ge ↦ (
          moved s k (s.cur + 1),
          >>=-ok (load npos k) _ load_lem (
              >>=-ok (pass_full _) _
                (pass_full_end s _ n e (omega arith)
                  (lt_of_mul (s.cur + 1) (length s.nodes) s.base_size (omega arith)))
                refl),
          record {
            node = s.cur + 1;
            state = refl;
            layout = moved-Layout (s.cur + 1) (omega arith) (omega arith);
          },
        )
      ]

-- With the bytes there, the loop ends without a fault and gives them all.
pub read_loop_lem :
    (fuel k npos ncap : ℕ) (s : ByteArray)
    → Layout s
    → s.cur * s.base_size + npos ≡ s.position
    → npos + ncap ≡ s.base_size
    → s.position + k < length s.nodes * s.base_size
    → k ≤ fuel
    → (t : ByteArray) × (read_loop fuel k npos ncap s ≡ ok (slice (peek s.nodes) s.position k) t)
      × ReadTo s k t
read_loop_lem fuel zero npos ncap s v at ends room enough = (
  s,
  unfold read_loop in refl,
  record {
    node = s.cur;
    state = ap (λ (p : ℕ). record s { position = p }) {y = s.position + 0} (omega arith);
    layout = v;
  },
)
read_loop_lem zero (suc k) npos ncap s v at ends room enough = absurd (omega arith)
read_loop_lem (suc fuel) (suc k) npos ncap s v at ends room enough = elim (dec_le (suc k) ncap) [
  | yes fits ↦
      let (t, e, w) = last_round s npos (suc k) v at (omega arith) room in
      (t, ap (λ (m : M (List ℕ)). m s) (read_loop_last fuel k npos ncap fits) ∙ e, w)
  | no more ↦
      let t = moved s ncap (s.cur + 1) in
      let w =
        moved-Layout s npos ncap v at (omega arith) (omega arith) (s.cur + 1) (omega arith)
          (omega arith) in
      let (u, e, w') =
        read_loop_lem fuel (suc k - ncap) 0 s.base_size t w (omega arith) (omega arith)
          (omega arith) (omega (arith, v.stop)) in
      (
        u,
        ap (λ (m : M (List ℕ)). m s) (read_loop_next fuel k npos ncap (omega arith))
            ∙ >>=-ok (load npos ncap) _ (load_lem s npos ncap v at (omega arith) (omega arith))
                (>>=-ok cur_size _ (cur_size_lem t w) (>>=-ok (read_loop _ _ _ _) _ e refl))
            ∙ ap (λ (xs : List ℕ). ok xs u)
                (slice-append (peek s.nodes) s.position ncap (suc k - ncap)
                  ∙ ap (slice (peek s.nodes) s.position) {y = suc k} (omega arith)),
        record {
          node = w'.node;
          state =
              w'.state
              ∙ ap (λ (p : ℕ). record s { position = p; cur = w'.node }) {y = s.position + suc k}
                  (omega arith);
          layout = w'.layout;
        },
      )
]

read_there :
    (k : ℕ) (s : ByteArray)
    → IsValid s
    → s.position + k ≤ s.size
    → read k s
      ≡ (do
        c ← cur_size
        read_loop k k (s.position % s.base_size) (sub_size c (s.position % s.base_size)))
          s
read_there k s v there =
    unfold read read_bytes in
    rw (le→leb s.position s.size v.position_le, le→ltb (s.size - s.position) k (omega arith))

ReadTo-IsValid :
    (k : ℕ) (s t : ByteArray) → IsValid s → s.position + k ≤ s.size → ReadTo s k t → IsValid t
ReadTo-IsValid k s t v there w = subst IsValid (sym w.state) (record {
  layout = subst Layout w.state w.layout;
  position_le = there;
  size_le = v.size_le;
  capacity_le = v.capacity_le;
  size_inside = v.size_inside;
})

-- On a valid object `read` of no more bytes than are left gives those at the position, with no access
-- outside the nodes, and changes nothing but the position, which is behind them, and its node.
pub read_lem :
    (k : ℕ) (s : ByteArray)
    → IsValid s
    → s.position + k ≤ s.size
    → (t : ByteArray) × (read k s ≡ ok (slice (peek s.nodes) s.position k) t)
      × IsValid t
      × ReadTo s k t
read_lem k s v there =
    let npos = s.position % s.base_size in
    let at : s.cur * s.base_size + npos ≡ s.position = offset_lem s v.layout in
    let below : npos < s.base_size = mod-lt s.position v.layout.base_pos in
    let (t, e, w) =
      read_loop_lem k k npos (sub_size s.base_size npos) s v.layout at
        (rw (le→leb npos s.base_size (omega arith)) (omega arith)) (omega (arith, v.size_inside))
        (omega arith) in
    (
      t,
      read_there k s v there ∙ >>=-ok cur_size _ (cur_size_lem s v.layout) e,
      ReadTo-IsValid k s t v there w,
      w,
    )

-- On a valid object `read` of more bytes than are left throws std::out_of_range and changes nothing.
pub read_beyond :
    (k : ℕ) (s : ByteArray) → IsValid s → s.size < s.position + k → read k s ≡ out_of_range s
unfolding read
read_beyond k s v beyond = rw (
  le→leb s.position s.size v.position_le,
  lt→ltb (s.size - s.position) k (omega (arith, v.position_le)),
)
