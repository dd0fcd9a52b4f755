-- ===== src/Util/Trim.antt =====
-- src/util.cc: IsValidName and StringUtils::Random, Trim, TrimLeft and TrimRight, on bytes.
use tiger.Base.{ℕ, zero, suc, ◌+◌, ◌-◌, ◌%◌, Bool, true, false, ◌||◌, List, [], ◌∷◌, ◌++◌}
use tiger.Base.{Option, none, some, ◌==◌, if◌then◌else◌, length, get_or, take, drop}

-- Whether a byte is one of those of a string.
unfoldable pub contains : List ℕ → ℕ → Bool
contains [] c = false
contains (d ∷ ds) c = (c == d) || contains ds c

-- `std::string::find_first_not_of` and `find_last_not_of`; `none` is npos.
unfoldable pub find_first_not_of : List ℕ → List ℕ → Option ℕ
unfolding contains
find_first_not_of set [] = none
find_first_not_of set (c ∷ rest) =
    let later = find_first_not_of set rest in
    if contains set c then elim later [ none ↦ none | some i ↦ some (suc i) ] else some 0

unfoldable pub find_last_not_of : List ℕ → List ℕ → Option ℕ
find_last_not_of set [] = none
find_last_not_of set (c ∷ rest) = elim (find_last_not_of set rest) [
  | some i ↦ some (suc i)
  | none ↦ if contains set c then none else some 0
]

-- `std::string::substr(begin, count)` for `begin` in the string.
unfoldable pub substr : ℕ → ℕ → List ℕ → List ℕ
substr begin count str = take count (drop begin str)

unfoldable pub trim : List ℕ → List ℕ → List ℕ
unfolding find_first_not_of find_last_not_of substr
trim delimit str = elim (find_first_not_of delimit str) [
  | none ↦ []
  | some begin ↦ elim (find_last_not_of delimit str) [
    | some end ↦ substr begin (end - begin + 1) str
    -- npos is the largest size_t, and the rest of the string is taken
    | none ↦ drop begin str
  ]
]

unfoldable pub trim_left : List ℕ → List ℕ → List ℕ
trim_left delimit str = elim (find_first_not_of delimit str) [
  | none ↦ []
  | some begin ↦ drop begin str
]

unfoldable pub trim_right : List ℕ → List ℕ → List ℕ
trim_right delimit str = elim (find_last_not_of delimit str) [
  | none ↦ []
  | some end ↦ substr 0 end str
]

-- The bytes from `low` on.
abbrev span : ℕ → ℕ → List ℕ
span low zero = []
span low (suc n) = low ∷ span (low + 1) n

-- The letters, `_`, the digits and `.`.
abbrev name_chars : List ℕ
name_chars = span 97 26 ++ span 65 26 ++ 95 ∷ span 48 10 ++ 46 ∷ []

unfoldable pub is_valid_name : List ℕ → Bool
is_valid_name name = elim (find_first_not_of name_chars name) [ none ↦ true | some i ↦ false ]

-- The loop of `Random`, for `n` bytes from the i-th call of `rand` on.
unfoldable pub random_loop : (ℕ → ℕ) → List ℕ → ℕ → ℕ → List ℕ
random_loop rand chars i zero = []
random_loop rand chars i (suc n) =
    get_or chars (rand i % length chars) 0 ∷ random_loop rand chars (i + 1) n

unfoldable pub random : (ℕ → ℕ) → ℕ → List ℕ → List ℕ
unfolding random_loop
random rand len chars =
    if (len == 0) || (length chars == 0) then [] else random_loop rand chars 0 len
