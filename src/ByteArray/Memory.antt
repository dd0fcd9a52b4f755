-- ===== src/ByteArray/Memory.antt =====
-- The nodes seen as one flat memory.
use tiger.Base.{le→leb}
use tiger.Base.{
  ℕ, zero, suc, ◌+◌, ◌-◌, ◌*◌, ◌≤◌, ◌<◌, ◌≡◌, refl, sym, ap, ap₂, ◌∙◌, arith, ◌⊎◌, inl, inr,
}
use tiger.Base.{List, [], ◌∷◌, ◌++◌, some, ltb, lt→ltb, if◌then◌else◌}
use tiger.Base.{length, get_elem?, get_or, set, All, length-append}
use Prim.Native.Nat.add
use native.Mathlib.Decide.{dec_lt}
use tiger.ByteArray.Defs.{Node, slice, overlay}

-- The byte at the address `a`, counted from the start of the first node; 0 past the last.
unfoldable pub peek : List Node → ℕ → ℕ
peek [] a = 0
peek (n ∷ ns) a = if ltb a n.size then n.ptr a else peek ns (a - n.size)

abbrev pub Sized : ℕ → List Node → Type 0
Sized base = All (λ n. n.size ≡ base)

-- Past the first node the walk goes on in the rest.
peek_rest :
    (base : ℕ) (n : Node) (ns : List Node) (a : ℕ)
    → n.size ≡ base
    → base ≤ a
    → peek (n ∷ ns) a ≡ peek ns (a - base)
unfolding peek
peek_rest base n ns a e h = ground arith

peek_first : (n : Node) (ns : List Node) (a : ℕ) → a < n.size → peek (n ∷ ns) a ≡ n.ptr a
unfolding peek
peek_first n ns a h = rw (lt→ltb _ _ h)

-- A write to one node changes the addresses of that node, and no other.
pub peek-set_in :
    (base : ℕ) (ns : List Node) (c o : ℕ) (n : Node)
    → Sized base ns
    → n.size ≡ base
    → c < length ns
    → o < base
    → peek (set ns c n) (c * base + o) ≡ n.ptr o
peek-set_in base [] c o n h e lt ho = elim lt [ ]
peek-set_in base (m ∷ ns) zero o n h e lt ho =
    peek_first n ns (0 * base + o) (omega arith) ∙ ap n.ptr (omega arith)
peek-set_in base (m ∷ ns) (suc c) o n h e lt ho =
    peek_rest base m (set ns c n) (suc c * base + o) h.0 (omega arith)
    ∙ ap (peek (set ns c n)) (omega arith)
    ∙ peek-set_in base ns c o n h.1 e (omega arith) ho

pub peek-set_out :
    (base : ℕ) (ns : List Node) (c : ℕ) (n : Node) (a : ℕ)
    → Sized base ns
    → n.size ≡ base
    → (a < c * base) ⊎ (c * base + base ≤ a)
    → peek (set ns c n) a ≡ peek ns a
peek-set_out base [] c n a h e out = refl
peek-set_out base (m ∷ ns) zero n a h e out =
    peek_rest base n ns a e (omega arith) ∙ sym (peek_rest base m ns a h.0 (omega arith))
peek-set_out base (m ∷ ns) (suc c) n a h e out = elim (dec_lt a base) [
  | yes lt ↦
      peek_first m (set ns c n) a (omega (arith, h.0))
      ∙ sym (peek_first m ns a (omega (arith, h.0)))
  | no ge ↦
      peek_rest base m (set ns c n) a h.0 (omega arith)
      ∙ peek-set_out base ns c n (a - base) h.1 e (omega arith)
      ∙ sym (peek_rest base m ns a h.0 (omega arith))
]

pub peek-get_elem? :
    (base : ℕ) (ns : List Node) (c o : ℕ) (n : Node)
    → Sized base ns
    → get_elem? ns c ≡ some n
    → o < base
    → peek ns (c * base + o) ≡ n.ptr o
unfolding peek
peek-get_elem? base [] c o n h e lt = cc
peek-get_elem? base (m ∷ ns) zero o n h e lt = ground (arith, h.0)
peek-get_elem? base (m ∷ ns) (suc c) o n h e lt =
    ground (arith, h.0, peek-get_elem? base ns c o n h.1 e lt)

-- Nodes added behind leave the addresses before as they are.
pub peek-append :
    (base : ℕ) (ns more : List Node) (a : ℕ)
    → Sized base ns
    → a < length ns * base
    → peek (ns ++ more) a ≡ peek ns a
unfolding peek
peek-append base [] more a h lt = absurd (omega arith)
peek-append base (m ∷ ns) more a h lt = ground (arith, h.0, peek-append base ns more (a - base) h.1)

pub slice-cong :
    (f g : ℕ → ℕ) (a b k : ℕ)
    → ((i : ℕ) → i < k → f (a + i) ≡ g (b + i))
    → slice f a k ≡ slice g b k
slice-cong f g a b zero h = refl
slice-cong f g a b (suc k) h =
    ap₂ (◌∷◌) (ap f (omega arith) ∙ h 0 (omega arith) ∙ ap g (omega arith)) (
      slice-cong f g (a + 1) (b + 1) k
        (λ i lt. ap f (omega arith) ∙ h (i + 1) (omega arith) ∙ ap g (omega arith)))

pub length-slice : (f : ℕ → ℕ) (a k : ℕ) → length (slice f a k) ≡ k
length-slice f a zero = refl
length-slice f a (suc k) = ap suc (length-slice f (a + 1) k)

pub slice-append : (f : ℕ → ℕ) (a j k : ℕ) → slice f a j ++ slice f (a + j) k ≡ slice f a (j + k)
slice-append f a zero k = ap₂ (slice f) (omega arith) (omega arith)
slice-append f a (suc j) k = rw add.suc (
    ap (◌∷◌ (f a))
      (ap (λ (b : ℕ). slice f (a + 1) j ++ slice f b k) (omega arith) ∙ slice-append f (a + 1) j k))

pub overlay_at :
    (f : ℕ → ℕ) (a : ℕ) (bytes : List ℕ) (i : ℕ)
    → i < length bytes
    → overlay f a bytes (a + i) ≡ get_or bytes i 0
overlay_at f a bytes i h =
    ground (arith, ap (λ (j : ℕ). get_or bytes j 0) {x = a + i - a} {y = i} (omega arith))

pub slice-overlay :
    (f : ℕ → ℕ) (a : ℕ) (bytes : List ℕ) → slice (overlay f a bytes) a (length bytes) ≡ bytes
slice-overlay f a [] = refl
slice-overlay f a (b ∷ bs) =
    ap₂ (◌∷◌) (ap (overlay f a (b ∷ bs)) (omega arith) ∙ overlay_at f a (b ∷ bs) 0 (omega arith)) (
      slice-cong (overlay f a (b ∷ bs)) (overlay f (a + 1) bs) (a + 1) (a + 1) (length bs) (λ i lt.
        ap (overlay f a (b ∷ bs)) {y = a + suc i} (omega arith)
        ∙ overlay_at f a (b ∷ bs) (suc i) (omega arith)
        ∙ sym (overlay_at f (a + 1) bs i lt))
      ∙ slice-overlay f (a + 1) bs)

get_or-append_left :
    (xs ys : List ℕ) (i : ℕ) → i < length xs → get_or (xs ++ ys) i 0 ≡ get_or xs i 0
get_or-append_left [] ys i h = elim h [ ]
get_or-append_left (x ∷ xs) ys zero h = refl
get_or-append_left (x ∷ xs) ys (suc i) h = get_or-append_left xs ys i (omega arith)

get_or-append_right :
    (xs ys : List ℕ) (i : ℕ) → length xs ≤ i → get_or (xs ++ ys) i 0 ≡ get_or ys (i - length xs) 0
get_or-append_right [] ys i h = ap (λ (j : ℕ). get_or ys j 0) (omega arith)
get_or-append_right (x ∷ xs) ys zero h = absurd (omega arith)
get_or-append_right (x ∷ xs) ys (suc i) h =
    get_or-append_right xs ys i (omega arith) ∙ ap (λ (j : ℕ). get_or ys j 0) (omega arith)

-- Two writes one behind the other are one write.
pub overlay-append :
    (f : ℕ → ℕ) (p a : ℕ) (xs ys : List ℕ)
    → overlay (overlay f p xs) (p + length xs) ys a ≡ overlay f p (xs ++ ys) a
overlay-append f p a xs ys = ground (
  arith,
  length-append xs ys,
  get_or-append_left xs ys (a - p),
  get_or-append_right xs ys (a - p),
  ap (λ (i : ℕ). get_or ys i 0) {x = a - (p + length xs)} {y = a - p - length xs} (omega arith),
)

pub overlay_shift :
    (f g : ℕ → ℕ) (k p o : ℕ) (bytes : List ℕ)
    → f o ≡ g (k + o)
    → overlay f p bytes o ≡ overlay g (k + p) bytes (k + o)
overlay_shift f g k p o bytes h =
    ground (arith, ap (λ (j : ℕ). get_or bytes j 0) {x = k + o - (k + p)} {y = o - p} (omega arith))

pub overlay_out :
    (f : ℕ → ℕ) (p a : ℕ) (bytes : List ℕ)
    → (a < p) ⊎ (p + length bytes ≤ a)
    → overlay f p bytes a ≡ f a
overlay_out f p a bytes h = ground arith

-- What lies under the bytes put in does not matter.
pub overlay-cong :
    (f g : ℕ → ℕ) (p a : ℕ) (bytes : List ℕ)
    → ((a < p) ⊎ (p + length bytes ≤ a) → f a ≡ g a)
    → overlay f p bytes a ≡ overlay g p bytes a
overlay-cong f g p a bytes h = elim (dec_lt a p) [
  | yes lt ↦ ground (arith, h (inl lt))
  | no ge ↦ elim (dec_lt a (p + length bytes)) [
    | yes within ↦ rw (le→leb p a (omega arith), lt→ltb a (p + length bytes) within) refl
    | no beyond ↦ ground (arith, h (inr (omega arith)))
  ]
]

-- A copy into one node is a write to the flat memory.
pub peek-store :
    (base : ℕ) (ns : List Node) (c p a : ℕ) (n : Node) (bytes : List ℕ)
    → Sized base ns
    → get_elem? ns c ≡ some n
    → c < length ns
    → n.size ≡ base
    → p + length bytes ≤ base
    → peek (set ns c (record n { ptr = overlay n.ptr p bytes })) a
      ≡ overlay (peek ns) (c * base + p) bytes a
peek-store base ns c p a n bytes h e lt size fits = elim (dec_lt a (c * base)) [
  | yes before ↦
      peek-set_out base ns c n' a h size (inl before)
      ∙ sym (overlay_out (peek ns) (c * base + p) a bytes (inl (omega arith)))
  | no after ↦ elim (dec_lt a (c * base + base)) [
    | yes within ↦
        ap (peek (set ns c n')) (omega arith)
        ∙ peek-set_in base ns c (a - c * base) n' h size lt (omega arith)
        ∙ overlay_shift n.ptr (peek ns) (c * base) p (a - c * base) bytes
            (sym (peek-get_elem? base ns c (a - c * base) n h e (omega arith)))
        ∙ ap (overlay (peek ns) (c * base + p) bytes) (omega arith)
    | no beyond ↦
        peek-set_out base ns c n' a h size (inr (omega arith))
        ∙ sym (overlay_out (peek ns) (c * base + p) a bytes (inr (omega arith)))
  ]
]
  where
    n' : Node
    n' = record n { ptr = overlay n.ptr p bytes }

-- So a copy out of one node reads the flat memory.
pub slice-load :
    (base : ℕ) (ns : List Node) (c p k : ℕ) (n : Node)
    → Sized base ns
    → get_elem? ns c ≡ some n
    → p + k ≤ base
    → slice n.ptr p k ≡ slice (peek ns) (c * base + p) k
slice-load base ns c p k n h e fits = slice-cong n.ptr (peek ns) p (c * base + p) k (λ i lt.
    sym (peek-get_elem? base ns c (p + i) n h e (omega arith)) ∙ ap (peek ns) (omega arith))
