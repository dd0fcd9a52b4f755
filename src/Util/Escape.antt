-- ===== src/Util/Escape.antt =====
-- src/util.cc: what UrlEncode and UrlDecode give, byte by byte, and back again.
use tiger.Base.{ℕ, ◌≡◌, refl, sym, ap, ◌∙◌}
use tiger.Base.{Bool, true, false, ◌&&◌, List, [], ◌∷◌, ◌++◌, Option, none, some, inl, inr}
use mathlib.Core.List.{append-nil, append_assoc}
use tiger.Base.{◌==◌, if◌then◌else◌, Bool-cases}
use tiger.Util.Url.{
  uri_chars, copied, append_to, escape, url_encode_loop, url_encode, is_escape, unescape,
  url_decode_loop, url_decode,
}

-- The text with every byte that is not unreserved replaced.
unfoldable pub encoded : Bool → List ℕ → List ℕ
encoded plus [] = []
encoded plus (c ∷ rest) = (if uri_chars c then c ∷ [] else escape plus c) ++ encoded plus rest

copied-append_to :
    (before : List ℕ) (ss : Option (List ℕ)) (c : ℕ)
    → copied (before ++ c ∷ []) (append_to ss c) ≡ copied before ss ++ c ∷ []
unfolding copied append_to
copied-append_to before none c = refl
copied-append_to before (some ss) c = refl

copied-some : (before ss : List ℕ) → copied before (some ss) ≡ ss
unfolding copied
copied-some before ss = refl

url_encode_loop_lem :
    (plus : Bool) (rest before : List ℕ) (ss : Option (List ℕ))
    → url_encode_loop plus before ss rest ≡ copied before ss ++ encoded plus rest
unfolding url_encode_loop encoded
url_encode_loop_lem plus [] before ss = sym (append-nil (copied before ss))
url_encode_loop_lem plus (c ∷ rest) before ss = elim (Bool-cases (uri_chars c)) [
  | inl e ↦ rw e (
      url_encode_loop_lem plus rest (before ++ c ∷ []) (append_to ss c)
      ∙ ap (λ x. x ++ encoded plus rest) (copied-append_to before ss c)
      ∙ append_assoc (copied before ss) (c ∷ []) (encoded plus rest))
  | inr e ↦ rw e (
      url_encode_loop_lem plus rest (before ++ c ∷ []) (some (copied before ss ++ escape plus c))
      ∙ ap (λ x. x ++ encoded plus rest)
          (copied-some (before ++ c ∷ []) (copied before ss ++ escape plus c))
      ∙ append_assoc (copied before ss) (escape plus c) (encoded plus rest))
]

-- UrlEncode gives each byte in turn, the unreserved ones as they are, and copies nothing else.
pub url_encode_lem : (plus : Bool) (str : List ℕ) → url_encode plus str ≡ encoded plus str
unfolding url_encode copied
url_encode_lem plus str = url_encode_loop_lem plus str [] none

-- The text with every escape replaced that UrlDecode takes for one.
unfoldable pub decoded : Bool → List ℕ → List ℕ
decoded plus [] = []
decoded plus (c ∷ []) = (if (c == 43) && plus then 32 else c) ∷ []
decoded plus (c ∷ h ∷ []) = (if (c == 43) && plus then 32 else c) ∷ decoded plus (h ∷ [])
decoded plus (c ∷ h ∷ l ∷ rest) =
    let next = decoded plus (h ∷ l ∷ rest) in
    let behind = decoded plus rest in
    if (c == 43) && plus
    then 32 ∷ next
    else if is_escape c h l
    then unescape h l ∷ behind
    else c ∷ next

-- One byte more, copied or replaced.
one_more :
    (plus b : Bool) (rest before : List ℕ) (ss : Option (List ℕ)) (c : ℕ) (out : List ℕ)
    → copied (before ++ c ∷ []) (if b then some (copied before ss ++ 32 ∷ []) else append_to ss c)
        ++ out
      ≡ copied before ss ++ ((if b then 32 else c) ∷ out)
unfolding copied
one_more plus true rest before ss c out = append_assoc (copied before ss) (32 ∷ []) out
one_more plus false rest before ss c out =
    ap (λ x. x ++ out) (copied-append_to before ss c) ∙ append_assoc (copied before ss) (c ∷ []) out

url_decode_loop_lem :
    (plus : Bool) (rest before : List ℕ) (ss : Option (List ℕ))
    → url_decode_loop plus before ss rest ≡ copied before ss ++ decoded plus rest
unfolding url_decode_loop decoded
url_decode_loop_lem plus [] before ss = sym (append-nil (copied before ss))
url_decode_loop_lem plus (c ∷ []) before ss =
    sym (append-nil _) ∙ one_more plus ((c == 43) && plus) [] before ss c []
url_decode_loop_lem plus (c ∷ h ∷ []) before ss =
    url_decode_loop_lem plus (h ∷ []) (before ++ c ∷ [])
      (if (c == 43) && plus then some (copied before ss ++ 32 ∷ []) else append_to ss c)
    ∙ one_more plus ((c == 43) && plus) [] before ss c (decoded plus (h ∷ []))
url_decode_loop_lem plus (c ∷ h ∷ l ∷ rest) before ss = elim (Bool-cases ((c == 43) && plus)) [
  | inl e ↦ rw e (
      url_decode_loop_lem plus (h ∷ l ∷ rest) (before ++ c ∷ []) _
      ∙ one_more plus true [] before ss c (decoded plus (h ∷ l ∷ rest)))
  | inr e ↦ elim (Bool-cases (is_escape c h l)) [
    | inl f ↦ rw e (
        rw f (
          url_decode_loop_lem plus rest (before ++ c ∷ h ∷ l ∷ []) _
          ∙ ap (λ x. x ++ decoded plus rest)
              (copied-some (before ++ c ∷ h ∷ l ∷ []) (copied before ss ++ unescape h l ∷ []))
          ∙ append_assoc (copied before ss) (unescape h l ∷ []) (decoded plus rest)))
    | inr f ↦ rw e (
        rw f (
          url_decode_loop_lem plus (h ∷ l ∷ rest) (before ++ c ∷ []) _
          ∙ one_more plus false [] before ss c (decoded plus (h ∷ l ∷ rest))))
  ]
]

-- UrlDecode replaces each escape that it knows, and copies the other bytes.
pub url_decode_lem : (plus : Bool) (str : List ℕ) → url_decode plus str ≡ decoded plus str
unfolding url_decode copied
url_decode_lem plus str = url_decode_loop_lem plus str [] none
