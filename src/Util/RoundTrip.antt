-- ===== src/Util/RoundTrip.antt =====
-- src/util.cc: UrlDecode behind UrlEncode.
use tiger.Base.{ℕ, ◌/◌, ◌%◌, ◌<◌, ◌≤◌, ◌≡◌, ◌⊎◌, inl, inr, refl, sym, ap, ◌∙◌}
use tiger.Base.{Bool, true, false, ◌&&◌, List, [], ◌∷◌, ◌++◌, arith}
use tiger.Base.{◌==◌, All, Bool-cases, ==_iff}
use tiger.Base.Bits.{fields-bit_or}
use tiger.Util.Url.{
  uri_chars, xdigit_chars, hexdigits, escape, url_encode, is_escape, unescape, url_decode,
}
use tiger.Util.Escape.{encoded, decoded, url_encode_lem, url_decode_lem}

decoded_plain :
    (plus : Bool) (c : ℕ) (ys : List ℕ)
    → (c == 43) ≡ false
    → (c == 37) ≡ false
    → decoded plus (c ∷ ys) ≡ c ∷ decoded plus ys
unfolding decoded is_escape
decoded_plain plus c [] e f = rw e refl
decoded_plain plus c (h ∷ []) e f = rw e refl
decoded_plain plus c (h ∷ l ∷ ys) e f = rw e (rw f refl)

decoded_escape :
    (plus : Bool) (h l : ℕ) (ys : List ℕ)
    → is_escape 37 h l ≡ true
    → decoded plus (37 ∷ h ∷ l ∷ ys) ≡ unescape h l ∷ decoded plus ys
unfolding decoded
decoded_escape plus h l ys e = rw e refl

-- An escape whose second digit is a letter stays as it is.
decoded_letter :
    (plus : Bool) (h l : ℕ)
    → is_escape 37 h l ≡ false
    → decoded plus (37 ∷ h ∷ l ∷ []) ≡ 37 ∷ decoded plus (h ∷ l ∷ [])
unfolding decoded
decoded_letter plus h l e = rw e refl

decoded_space : (ys : List ℕ) → decoded true (43 ∷ ys) ≡ 32 ∷ decoded true ys
unfolding decoded
decoded_space [] = refl
decoded_space (h ∷ []) = refl
decoded_space (h ∷ l ∷ ys) = refl

xdigit_chars-hexdigits : (d : ℕ) → d < 16 → xdigit_chars (hexdigits d) ≡ d
unfolding xdigit_chars hexdigits
xdigit_chars-hexdigits d h = ground arith

unescape-hexdigits : (c : ℕ) → c < 256 → unescape (hexdigits (c / 16)) (hexdigits (c % 16)) ≡ c
unfolding unescape
unescape-hexdigits c h = rw (xdigit_chars-hexdigits (c / 16) (omega arith)) (
    rw (xdigit_chars-hexdigits (c % 16) (omega arith))
      (omega (arith, fields-bit_or 4 (c % 16) (c / 16) (omega arith))))

is_escape-hexdigits :
    (c : ℕ) → c < 256 → c % 16 < 10 → is_escape 37 (hexdigits (c / 16)) (hexdigits (c % 16)) ≡ true
unfolding is_escape hexdigits
is_escape-hexdigits c h k = ground arith

is_escape-letter :
    (c : ℕ) → c < 256 → 10 ≤ c % 16 → is_escape 37 (hexdigits (c / 16)) (hexdigits (c % 16)) ≡ false
unfolding is_escape hexdigits
is_escape-letter c h k = ground arith

-- The bytes that come back: those that are not escaped, a space as `+`, and those whose second
-- hexadecimal digit is not a letter.
unfoldable pub IsDecodable : Bool → ℕ → Type 0
IsDecodable plus c =
    (uri_chars c ≡ true) ⊎ (((plus ≡ true) × (c ≡ 32)) ⊎ ((c < 256) × (c % 16 < 10)))

uri_chars-IsPlain : (c : ℕ) → uri_chars c ≡ true → ((c == 43) ≡ false) × ((c == 37) ≡ false)
unfolding uri_chars
uri_chars-IsPlain c e = ground arith

both : (a b : Bool) → (a && b) ≡ true → (a ≡ true) × (b ≡ true)
both true true h = (refl, refl)
both true false h = absurd (cc)
both false b h = absurd (cc)

decoded-escape :
    (plus : Bool) (c : ℕ) (ys : List ℕ)
    → ((plus ≡ true) × (c ≡ 32)) ⊎ ((c < 256) × (c % 16 < 10))
    → decoded plus (escape plus c ++ ys) ≡ c ∷ decoded plus ys
unfolding escape
decoded-escape plus c ys (inl (e, f)) = rw e (rw f (decoded_space ys))
decoded-escape plus c ys (inr (lt, low)) = elim (Bool-cases ((c == 32) && plus)) [
  | inl e ↦
      let (is_space, is_plus) = both (c == 32) plus e in
      rw e (
        rw is_plus (
          decoded_space ys
          ∙ ap (λ x. x ∷ decoded true ys) {x = 32} {y = c} (sym ((==_iff c 32).0 is_space))))
  | inr e ↦ rw e (
      decoded_escape plus (hexdigits (c / 16)) (hexdigits (c % 16)) ys
        (is_escape-hexdigits c lt low)
      ∙ ap (λ x. x ∷ decoded plus ys) (unescape-hexdigits c lt))
]

decoded-encoded :
    (plus : Bool) (str : List ℕ)
    → All (IsDecodable plus) str
    → decoded plus (encoded plus str) ≡ str
unfolding encoded decoded IsDecodable
decoded-encoded plus [] h = refl
decoded-encoded plus (c ∷ rest) h = elim (Bool-cases (uri_chars c)) [
  | inl e ↦
      let plain = uri_chars-IsPlain c e in
      rw e (
        decoded_plain plus c (encoded plus rest) plain.0 plain.1
        ∙ ap (◌∷◌ c) (decoded-encoded plus rest h.1))
  | inr e ↦ elim h.0 [
    | inl kept ↦ absurd (cc)
    | inr how ↦
        rw e (
          decoded-escape plus c (encoded plus rest) how
          ∙ ap (◌∷◌ c) (decoded-encoded plus rest h.1))
  ]
]

-- UrlDecode gives back what UrlEncode was given, with the same `space_as_plus`, when each byte is
-- unreserved, or a space that becomes a plus, or has no letter as its second hexadecimal digit.
pub url_decode-url_encode :
    (plus : Bool) (str : List ℕ)
    → All (IsDecodable plus) str
    → url_decode plus (url_encode plus str) ≡ str
url_decode-url_encode plus str h =
    url_decode_lem plus (url_encode plus str)
    ∙ ap (decoded plus) (url_encode_lem plus str)
    ∙ decoded-encoded plus str h

not_space : (c : ℕ) → 10 ≤ c % 16 → (c == 32) ≡ false
not_space c h = ground arith

hexdigits-plain : (d : ℕ) → d < 16 → (hexdigits d == 43) ≡ false
unfolding hexdigits
hexdigits-plain d h = ground arith

encoded_letter :
    (plus : Bool) (c : ℕ)
    → uri_chars c ≡ false
    → 10 ≤ c % 16
    → encoded plus (c ∷ []) ≡ 37 ∷ hexdigits (c / 16) ∷ hexdigits (c % 16) ∷ []
unfolding encoded escape
encoded_letter plus c e high = rw e (rw (not_space c high) refl)

decoded_digits :
    (plus : Bool) (d k : ℕ)
    → d < 16
    → k < 16
    → decoded plus (hexdigits d ∷ hexdigits k ∷ []) ≡ hexdigits d ∷ hexdigits k ∷ []
unfolding decoded
decoded_digits plus d k h j = rw (hexdigits-plain d h) (rw (hexdigits-plain k j) refl)

-- A byte below 256 that is escaped and has a letter as its second hexadecimal digit is not given
-- back: the escape stays in the text, as three bytes.
url_decode-url_encode_letter :
    (plus : Bool) (c : ℕ)
    → c < 256
    → uri_chars c ≡ false
    → 10 ≤ c % 16
    → url_decode plus (url_encode plus (c ∷ [])) ≡ 37 ∷ hexdigits (c / 16) ∷ hexdigits (c % 16) ∷ []
url_decode-url_encode_letter plus c lt e high =
    url_decode_lem plus (url_encode plus (c ∷ []))
    ∙ ap (decoded plus) (url_encode_lem plus (c ∷ []) ∙ encoded_letter plus c e high)
    ∙ decoded_letter plus (hexdigits (c / 16)) (hexdigits (c % 16)) (is_escape-letter c lt high)
    ∙ ap (◌∷◌ 37) (decoded_digits plus (c / 16) (c % 16) (omega arith) (omega arith))
