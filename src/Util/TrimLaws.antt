-- ===== src/Util/TrimLaws.antt =====
-- src/util.cc: what Trim, TrimLeft and TrimRight leave of a string.
use tiger.Base.{ℕ, ◌+◌, ◌-◌, true, false, List, [], ◌∷◌, ◌++◌}
use tiger.Base.{none, some, length, take, drop, All, arith}
use tiger.Base.{◌≡◌, refl, sym, ap, ◌∙◌, length-append}
use mathlib.Core.List.{append_assoc}
use tiger.Util.Trim.{
  contains, find_first_not_of, find_last_not_of, substr, trim, trim_left, trim_right,
}

module _ (delimit : List ℕ) where
  find_first_lem :
      (pre rest : List ℕ) (c : ℕ)
      → All (λ d. contains delimit d ≡ true) pre
      → contains delimit c ≡ false
      → find_first_not_of delimit (pre ++ c ∷ rest) ≡ some (length pre)
  unfolding find_first_not_of
  find_first_lem [] rest c h e = rw e refl
  find_first_lem (d ∷ pre) rest c h e = rw h.0 (rw (find_first_lem pre rest c h.1 e) refl)

  find_last_none :
      (post : List ℕ)
      → All (λ d. contains delimit d ≡ true) post
      → find_last_not_of delimit post ≡ none
  unfolding find_last_not_of
  find_last_none [] h = refl
  find_last_none (d ∷ post) h = rw (find_last_none post h.1) (rw h.0 refl)

  find_last_lem :
      (pre post : List ℕ) (c : ℕ)
      → All (λ d. contains delimit d ≡ true) post
      → contains delimit c ≡ false
      → find_last_not_of delimit (pre ++ c ∷ post) ≡ some (length pre)
  unfolding find_last_not_of
  find_last_lem [] post c h e = rw (find_last_none post h) (rw e refl)
  find_last_lem (d ∷ pre) post c h e = rw (find_last_lem pre post c h e) refl

  drop_front : (pre rest : List ℕ) → drop (length pre) (pre ++ rest) ≡ rest
  drop_front [] rest = refl
  drop_front (d ∷ pre) rest = drop_front pre rest

  take_front : (pre rest : List ℕ) → take (length pre) (pre ++ rest) ≡ pre
  take_front [] rest = refl
  take_front (d ∷ pre) rest = ap (◌∷◌ d) (take_front pre rest)

  -- TrimLeft drops the delimiters in front of the first other byte, and nothing else.
  pub trim_left_lem :
      (pre rest : List ℕ) (c : ℕ)
      → All (λ d. contains delimit d ≡ true) pre
      → contains delimit c ≡ false
      → trim_left delimit (pre ++ c ∷ rest) ≡ c ∷ rest
  unfolding trim_left
  trim_left_lem pre rest c h e =
      rw (find_first_lem pre rest c h e, trim_left) (drop_front pre (c ∷ rest))

  -- TrimRight drops the delimiters behind the last other byte, and that byte too.
  pub trim_right_lem :
      (pre post : List ℕ) (c : ℕ)
      → All (λ d. contains delimit d ≡ true) post
      → contains delimit c ≡ false
      → trim_right delimit (pre ++ c ∷ post) ≡ pre
  unfolding trim_right substr
  trim_right_lem pre post c h e =
      rw (find_last_lem pre post c h e, trim_right) (take_front pre (c ∷ post))

  trim_at :
      (str : List ℕ) (i j : ℕ)
      → find_first_not_of delimit str ≡ some i
      → find_last_not_of delimit str ≡ some j
      → trim delimit str ≡ substr i (j - i + 1) str
  unfolding trim
  trim_at str i j e f = rw (e, trim) (rw (f, trim) refl)

  take_middle :
      (pre xs post : List ℕ) (n : ℕ)
      → n ≡ length xs
      → substr (length pre) n (pre ++ (xs ++ post)) ≡ xs
  unfolding substr
  take_middle pre xs post n e = rw e (rw (drop_front pre (xs ++ post)) (take_front xs post))

  -- Trim drops the delimiters on both sides and keeps what is between them, when that begins and
  -- ends with a byte that is none.
  pub trim_lem :
      (pre xs post ys zs : List ℕ) (c d : ℕ)
      → All (λ b. contains delimit b ≡ true) pre
      → All (λ b. contains delimit b ≡ true) post
      → xs ≡ c ∷ ys
      → contains delimit c ≡ false
      → xs ≡ zs ++ d ∷ []
      → contains delimit d ≡ false
      → trim delimit (pre ++ (xs ++ post)) ≡ xs
  trim_lem pre xs post ys zs c d h k e f e' f' =
      let first : find_first_not_of delimit (pre ++ (xs ++ post)) ≡ some (length pre) =
        ap (λ w. find_first_not_of delimit (pre ++ (w ++ post))) e
        ∙ find_first_lem pre (ys ++ post) c h f in
      let last : find_last_not_of delimit (pre ++ (xs ++ post)) ≡ some (length (pre ++ zs)) =
        ap (find_last_not_of delimit) (
          ap (λ w. pre ++ (w ++ post)) e'
          ∙ ap (◌++◌ pre) (append_assoc zs (d ∷ []) post)
          ∙ sym (append_assoc pre zs (d ∷ post)))
        ∙ find_last_lem (pre ++ zs) post d k f' in
      let size : length (pre ++ zs) - length pre + 1 ≡ length xs =
        omega (arith, length-append pre zs, length-append zs (d ∷ []), ap length e') in
      trim_at (pre ++ (xs ++ post)) (length pre) (length (pre ++ zs)) first last
      ∙ take_middle pre xs post _ size
