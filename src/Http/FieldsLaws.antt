-- ===== src/Http/FieldsLaws.antt =====
-- src/servers/http/http.cc: finding, assigning and erasing fields whose names ignore the case.
use tiger.Base.{ℕ, true, List, [], ◌∷◌, map, none, some, arith}
use tiger.Base.{if◌then◌else◌, ◌≡◌, refl, sym, ap, ◌∙◌, Bool-cases, true-false, inl, inr}
use tiger.Http.Bytes.{strcmp}
use tiger.Http.Fields.{lower, strcasecmp, Fields, find, assign, erase}

pub strcmp-eq : (a b : List ℕ) → strcmp a b ≡ true → a ≡ b
strcmp-eq [] [] h = refl
strcmp-eq [] (y ∷ ys) h = absurd (cc)
strcmp-eq (x ∷ xs) [] h = absurd (cc)
strcmp-eq (x ∷ xs) (y ∷ ys) h = grind (arith, strcmp-eq xs ys)

pub strcmp_refl : (a : List ℕ) → strcmp a a ≡ true
strcmp_refl [] = refl
strcmp_refl (x ∷ xs) = ground (arith, strcmp_refl xs)

-- Keys that are the same compare in the same way with another.
pub strcasecmp-same :
    (k key other : List ℕ) → strcasecmp k key ≡ true → strcasecmp k other ≡ strcasecmp key other
strcasecmp-same k key other h =
    ap (λ a. strcmp a (map lower other)) (strcmp-eq (map lower k) (map lower key) h)

-- And two that are the same as a third are the same.
pub strcasecmp-joined :
    (k key other : List ℕ)
    → strcasecmp k other ≡ true
    → strcasecmp key other ≡ true
    → strcasecmp k key ≡ true
strcasecmp-joined k key other h j =
    ap (λ a. strcmp a (map lower key))
      (strcmp-eq (map lower k) (map lower other) h
        ∙ sym (strcmp-eq (map lower key) (map lower other) j))
    ∙ strcmp_refl (map lower key)

-- An assigned value is found under any spelling of the key, and other keys keep what they had.
pub find-assign :
    (m : Fields) (key value other : List ℕ)
    → find (assign m key value) other ≡ (if strcasecmp key other then some value else find m other)
unfolding find assign
find-assign [] key value other = refl
find-assign ((k, v) ∷ rest) key value other = elim (Bool-cases (strcasecmp k key)) [
  | inl e ↦ rw e (
      rw (strcasecmp-same k key other e)
        (elim (Bool-cases (strcasecmp key other)) [ inl f ↦ rw f refl | inr f ↦ rw f refl ]))
  | inr e ↦ rw e (elim (Bool-cases (strcasecmp k other)) [
    | inl f ↦ elim (Bool-cases (strcasecmp key other)) [
      | inl g ↦ absurd (true-false (strcasecmp-joined k key other f g) e)
      | inr g ↦ rw f (rw g refl)
    ]
    | inr f ↦ rw f (find-assign rest key value other)
  ])
]

pub find-erase : (m : Fields) (key : List ℕ) → find (erase m key) key ≡ none
unfolding find erase
find-erase [] key = refl
find-erase ((k, v) ∷ rest) key = elim (Bool-cases (strcasecmp k key)) [
  | inl e ↦ rw e (find-erase rest key)
  | inr e ↦ rw e (rw e (find-erase rest key))
]

-- Erasing a key that is not there changes nothing.
pub erase-missing : (m : Fields) (key : List ℕ) → find m key ≡ none → erase m key ≡ m
unfolding find erase
erase-missing [] key h = refl
erase-missing ((k, v) ∷ rest) key h = elim (Bool-cases (strcasecmp k key)) [
  | inl e ↦ absurd (cc)
  | inr e ↦ rw e (ap (◌∷◌ (k, v)) (erase-missing rest key (rw e at h)))
]
