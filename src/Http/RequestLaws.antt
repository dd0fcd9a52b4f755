-- ===== src/Http/RequestLaws.antt =====
-- src/servers/http/http.cc: the lazy parsing of the parameters and cookies.
use tiger.Base.{ℕ, zero, suc, ◌+◌, ◌≤◌, ◌<◌, true, false, List, [], ◌∷◌, ◌++◌, All, arith}
use tiger.Base.{Option, none, some, ◌==◌, ==_iff, if◌then◌else◌, ◌≡◌, refl, ap, ◌∙◌}
use tiger.Base.{length, length-append, Bool-cases, Option-cases, inl, inr}
use tiger.Util.Url.{url_encode}
use tiger.Http.Fields.{Fields, find, insert, strcasecmp, is_found, get_with_default}
use tiger.Http.FieldsLaws.{find-assign, erase-missing}
use tiger.Http.Request.{
  HttpRequest, split_at, parse_param_loop, parse_param, get_header, set_header, del_cookie,
}

-- A piece without the byte `c`, up to the first `c`.
split_at_first :
    (c : ℕ) (piece rest : List ℕ)
    → All (λ b. (b == c) ≡ false) piece
    → split_at c (piece ++ c ∷ rest) ≡ some (piece, rest)
unfolding split_at
split_at_first c [] rest h = rw ((==_iff c c).1 refl) refl
split_at_first c (b ∷ piece) rest h = rw h.0 (rw (split_at_first c piece rest h.1) refl)

split_at-none :
    (c : ℕ) (piece : List ℕ) → All (λ b. (b == c) ≡ false) piece → split_at c piece ≡ none
unfolding split_at
split_at-none c [] h = refl
split_at-none c (b ∷ piece) h = rw h.0 (rw (split_at-none c piece h.1) refl)

behind_length : Option (List ℕ × List ℕ) → ℕ
behind_length none = 0
behind_length (some (before, behind)) = suc (length behind)

-- What is behind the byte is shorter than the whole.
split_at_shorter : (c : ℕ) (str : List ℕ) → behind_length (split_at c str) ≤ length str
unfolding split_at behind_length
split_at_shorter c [] = omega arith
split_at_shorter c (b ∷ bs) = elim (Bool-cases (b == c)) [
  | inl f ↦ rw f (omega arith)
  | inr f ↦ elim (Option-cases (split_at c bs)) [
    | inl g ↦ rw f (rw g (omega arith))
    | inr ((x, y), g) ↦ rw f (rw g (shorter bs y (ap behind_length g) (split_at_shorter c bs)))
  ]
]
  where
    shorter :
        {n : ℕ} (bs y : List ℕ)
        → n ≡ suc (length y)
        → n ≤ length bs
        → suc (length y) ≤ suc (length bs)
    shorter bs y e h = omega arith

split_at_behind :
    (c : ℕ) (str before behind : List ℕ)
    → split_at c str ≡ some (before, behind)
    → length behind < length str
unfolding behind_length
split_at_behind c str before behind e = omega (arith, split_at_shorter c str, ap behind_length e)

-- With more fuel than bytes the loop ends, whatever the text is.
parse_param_loop-ends :
    (fuel flag : ℕ) (trim' : List ℕ → List ℕ) (str : List ℕ) (m : Fields)
    → length str < fuel
    → (m' : Fields) × (parse_param_loop fuel flag trim' str m ≡ some m')
unfolding parse_param_loop
parse_param_loop-ends zero flag trim' str m h = absurd (omega arith)
parse_param_loop-ends (suc fuel) flag trim' str m h = elim (Option-cases (split_at 61 str)) [
  | inl e ↦ rw (e, parse_param_loop) (m, refl)
  | inr ((key, tail), e) ↦ elim (Option-cases (split_at flag tail)) [
    | inl f ↦ rw (e, parse_param_loop) (rw (f, parse_param_loop) (_, refl))
    | inr ((value, rest), f) ↦
        rw (e, parse_param_loop)
          (rw (f, parse_param_loop)
            (parse_param_loop-ends fuel flag trim' rest
              (insert m (trim' key) (url_encode true value))
              (omega (
                arith,
                split_at_behind 61 str key tail e,
                split_at_behind flag tail value rest f,
              ))))
  ]
]

-- PARSE_PARAM ends for every text, with some map.
pub parse_param-ends :
    (flag : ℕ) (trim' : List ℕ → List ℕ) (str : List ℕ) (m : Fields)
    → (m' : Fields) × (parse_param flag trim' str m ≡ some m')
unfolding parse_param
parse_param-ends flag trim' str m =
    parse_param_loop-ends (length str + 1) flag trim' str m (omega arith)

-- A query: `key=value`, and `&key=value` for each pair more.
unfoldable pub joined : ℕ → List ℕ → List ℕ → List (List ℕ × List ℕ) → List ℕ
joined flag key value [] = key ++ 61 ∷ value
joined flag key value ((k, v) ∷ more) = key ++ 61 ∷ (value ++ flag ∷ joined flag k v more)

-- Each pair in turn, where the first value of a key stays.
unfoldable pub inserted :
    (List ℕ → List ℕ) → Fields → List ℕ → List ℕ → List (List ℕ × List ℕ) → Fields
inserted trim' m key value [] = insert m (trim' key) (url_encode true value)
inserted trim' m key value ((k, v) ∷ more) =
    inserted trim' (insert m (trim' key) (url_encode true value)) k v more

abbrev pub Lacks : ℕ → List ℕ → Type 0
Lacks c = All (λ b. (b == c) ≡ false)

parse_param_loop-joined :
    (fuel flag : ℕ) (trim' : List ℕ → List ℕ) (m : Fields) (key value : List ℕ)
    (more : List (List ℕ × List ℕ))
    → Lacks 61 key
    → Lacks flag value
    → All (λ p. Lacks 61 (p.0) × Lacks flag (p.1)) more
    → length (joined flag key value more) < fuel
    → parse_param_loop fuel flag trim' (joined flag key value more) m
      ≡ some (inserted trim' m key value more)
unfolding parse_param_loop joined inserted
parse_param_loop-joined zero flag trim' m key value more a b c h = absurd (omega arith)
parse_param_loop-joined (suc fuel) flag trim' m key value [] a b c h =
    rw (split_at_first 61 key value a, parse_param_loop)
      (rw (split_at-none flag value b, parse_param_loop) refl)
parse_param_loop-joined (suc fuel) flag trim' m key value ((k, v) ∷ more) a b c h =
    rw (split_at_first 61 key (value ++ flag ∷ joined flag k v more) a, parse_param_loop)
      (rw (split_at_first flag value (joined flag k v more) b, parse_param_loop)
        (parse_param_loop-joined fuel flag trim' _ k v more c.0.0 c.0.1 c.1 (
          omega (
            arith,
            h,
            length-append key (61 ∷ (value ++ flag ∷ joined flag k v more)),
            length-append value (flag ∷ joined flag k v more),
          ))))

-- PARSE_PARAM inserts each pair of a text `key=value&key=value` (with `flag` between the pairs), the
-- key trimmed and the value url-encoded, when no key has a `=` and no value has the flag.
pub parse_param-joined :
    (flag : ℕ) (trim' : List ℕ → List ℕ) (m : Fields) (key value : List ℕ)
    (more : List (List ℕ × List ℕ))
    → Lacks 61 key
    → Lacks flag value
    → All (λ p. Lacks 61 (p.0) × Lacks flag (p.1)) more
    → parse_param flag trim' (joined flag key value more) m ≡ some (inserted trim' m key value more)
unfolding parse_param
parse_param-joined flag trim' m key value more a b c =
    parse_param_loop-joined (length (joined flag key value more) + 1) flag trim' m key value more a
      b c (omega arith)

-- get_header finds what set_header stored, under any spelling of the key's case; any other header
-- stays as it was.
pub get_header-set_header :
    (r : HttpRequest) (key val other def : List ℕ)
    → get_header (set_header r key val) other def
      ≡ (if strcasecmp key other then val else get_header r other def)
unfolding get_header set_header get_with_default
get_header-set_header r key val other def =
    ap (λ o. get_with_default o def) (find-assign r.headers key val other)
    ∙ elim (Bool-cases (strcasecmp key other)) [ inl e ↦ rw e refl | inr e ↦ rw e refl ]

-- del_cookie never removes a cookie: the request is as before.
pub del_cookie-unchanged : (r : HttpRequest) (key : List ℕ) → del_cookie r key ≡ r
unfolding del_cookie is_found
del_cookie-unchanged r key = elim (Option-cases (find r.cookies key)) [
  | inl e ↦ rw e (ap (λ m. record r { cookies = m }) (erase-missing r.cookies key e))
  | inr (v, e) ↦ rw e refl
]
