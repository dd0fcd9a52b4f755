-- ===== src/ByteArray/Valid.antt =====
-- The invariant of a ByteArray, and what a write changes.
use tiger.Base.{refl}
use tiger.ByteArray.Defs.{out_of_range, fault, out_of_fuel}
use tiger.Base.{ap₂}
use tiger.Base.{ℕ, ◌+◌, ◌-◌, ◌*◌, ◌%◌, ◌≤◌, ◌<◌, ◌≡◌, ap, ◌∙◌, arith}
use tiger.Base.{List, some, length, get_elem?, get_elem?-some}
use tiger.Base.{All-get_elem?}
use native.Mathlib.Nat.{mul-add-mod_self_right, mod-eq_of_lt}
use tiger.ByteArray.Defs.{Node, ByteArray, Outcome, ok, M, ◌>>=◌, overlay, cur_size}
use tiger.ByteArray.Memory.{peek, Sized}

-- `cur` is the node in which the position lies.
pub record Layout (s : ByteArray) : Type 0 where
  pub base_pos : 0 < s.base_size
  pub sizes : Sized s.base_size s.nodes
  pub start : s.cur * s.base_size ≤ s.position
  pub stop : s.position < s.cur * s.base_size + s.base_size
  pub inside : s.position < length s.nodes * s.base_size

pub record IsValid (s : ByteArray) : Type 0 where
  pub layout : Layout s
  pub position_le : s.position ≤ s.size
  pub size_le : s.size ≤ s.capacity
  pub capacity_le : s.capacity ≤ length s.nodes * s.base_size
  pub size_inside : s.size < length s.nodes * s.base_size

-- What the loops leave alone.
pub record Kept (s t : ByteArray) : Type 0 where
  pub base_size : t.base_size ≡ s.base_size
  pub capacity : t.capacity ≡ s.capacity
  pub size : t.size ≡ s.size
  pub endian : t.endian ≡ s.endian
  pub heap : t.heap ≡ s.heap
  pub nodes : length t.nodes ≡ length s.nodes

-- `t` is `s` after `bytes` were written at its position.
pub record Written (s : ByteArray) (bytes : List ℕ) (t : ByteArray) : Type 0 where
  pub kept : Kept s t
  pub layout : Layout t
  pub position : t.position ≡ s.position + length bytes
  pub memory : (a : ℕ) → peek t.nodes a ≡ overlay (peek s.nodes) s.position bytes a

pub lt_of_mul : (a b c : ℕ) → a * c < b * c → a < b
lt_of_mul a b c h = grind arith

-- The current node exists, and has the size of all nodes.
pub Layout-node :
    (s : ByteArray)
    → Layout s
    → (n : Node) × (get_elem? s.nodes s.cur ≡ some n) × (n.size ≡ s.base_size)
Layout-node s v =
    let (n, e) =
      get_elem?-some s.nodes s.cur
        (lt_of_mul s.cur (length s.nodes) s.base_size (omega (arith, v.start, v.inside))) in
    (n, e, All-get_elem? (λ n. n.size ≡ s.base_size) s.nodes s.cur v.sizes e)

pub Layout-cur-lt : (s : ByteArray) → Layout s → s.cur < length s.nodes
Layout-cur-lt s v = lt_of_mul s.cur (length s.nodes) s.base_size (omega (arith, v.start, v.inside))

pub >>=-ok {ℓ κ} :
    {A : Type ℓ} {B : Type κ} (m : M A) (f : A → M B) {s t : ByteArray} {a : A} {r : Outcome B}
    → m s ≡ ok a t
    → f a t ≡ r
    → (m >>= f) s ≡ r
>>=-ok m f e h = rw (e, ◌>>=◌) h

pub cur_size_lem : (s : ByteArray) → Layout s → cur_size s ≡ ok s.base_size s
unfolding cur_size
cur_size_lem s v = let (n, e, z) = Layout-node s v in rw (e, cur_size) (ap (λ (k : ℕ). ok k s) z)

-- The offset in the node, by which every access begins.
pub offset_lem :
    (s : ByteArray) → Layout s → s.cur * s.base_size + s.position % s.base_size ≡ s.position
offset_lem s v =
    let o = s.position - s.cur * s.base_size in
    let e : s.position % s.base_size ≡ o =
      ap (λ (x : ℕ). x % s.base_size) {y = s.cur * s.base_size + o} (omega arith)
      ∙ mul-add-mod_self_right s.cur s.base_size o
      ∙ mod-eq_of_lt (omega arith) in
    omega (arith, e)

pub Kept-room :
    (s t : ByteArray) → Kept s t → length t.nodes * t.base_size ≡ length s.nodes * s.base_size
Kept-room s t k = ap₂ (◌*◌) k.nodes k.base_size

>>=-outcome {ℓ κ μ} :
    {A : Type ℓ} {B : Type κ} {C : Type μ} (o : Outcome A) (f : A → M B) (g : B → M C)
    → (let m : M A = λ _. o in (s : ByteArray) → ((m >>= f) >>= g) s ≡ (m >>= λ a. f a >>= g) s)
>>=-outcome (ok a t) f g s = refl
>>=-outcome (out_of_range t) f g s = refl
>>=-outcome fault f g s = refl
>>=-outcome out_of_fuel f g s = refl

pub >>=_assoc {ℓ κ μ} :
    {A : Type ℓ} {B : Type κ} {C : Type μ} (m : M A) (f : A → M B) (g : B → M C) (s : ByteArray)
    → ((m >>= f) >>= g) s ≡ (m >>= λ a. f a >>= g) s
>>=_assoc m f g s = >>=-outcome (m s) f g s
