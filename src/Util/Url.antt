-- ===== src/Util/Url.antt =====
-- src/util.cc: StringUtils::UrlEncode and StringUtils::UrlDecode, on bytes.
-- Both copy the text only from the first byte that they change: `ss` is the pointer of the code, and
-- `before` is what of the text stands before the byte that the loop is at.
use tiger.Base.{ℕ, ◌+◌, ◌-◌, ◌*◌, ◌/◌, ◌%◌, bit_or, Bool, ◌&&◌, ◌||◌}
use tiger.Base.{List, [], ◌∷◌, ◌++◌, Option, none, some, ltb, leb, ◌==◌, if◌then◌else◌}

-- `low <= c && c <= high`.
abbrev pub between : ℕ → ℕ → ℕ → Bool
between low high c = leb low c && leb c high

-- The table `uri_chars`, which is 1 for `-`, `.`, the digits, `=`, the letters, `_` and `~`.
unfoldable pub uri_chars : ℕ → Bool
uri_chars c =
    (c == 45)
    || (c == 46)
    || between 48 57 c
    || (c == 61)
    || between 65 90 c
    || (c == 95)
    || between 97 122 c
    || (c == 126)

-- The table `xdigit_chars`.
unfoldable pub xdigit_chars : ℕ → ℕ
xdigit_chars c =
    if between 48 57 c
    then c - 48
    else if between 65 70 c
    then c - 55
    else if between 97 102 c
    then c - 87
    else 0

abbrev pub isdigit : ℕ → Bool
isdigit c = between 48 57 c

abbrev pub isxdigit : ℕ → Bool
isxdigit c = between 48 57 c || between 65 70 c || between 97 102 c

-- `hexdigits[d]` for d < 16.
unfoldable pub hexdigits : ℕ → ℕ
hexdigits d = if ltb d 10 then 48 + d else 55 + d

-- What the code has of the result so far: `*ss`, or the text itself while `ss` is null.
unfoldable pub copied : List ℕ → Option (List ℕ) → List ℕ
copied before none = before
copied before (some ss) = ss

-- `else if (ss) ss->append(1, *c)`.
unfoldable pub append_to : Option (List ℕ) → ℕ → Option (List ℕ)
append_to none c = none
append_to (some ss) c = some (ss ++ c ∷ [])

-- What UrlEncode appends for a byte that is not unreserved.
unfoldable pub escape : Bool → ℕ → List ℕ
escape space_as_plus c =
    if (c == 32) && space_as_plus
    then 43 ∷ []
    else 37 ∷ hexdigits (c / 16) ∷ hexdigits (c % 16) ∷ []

unfoldable pub url_encode_loop : Bool → List ℕ → Option (List ℕ) → List ℕ → List ℕ
url_encode_loop plus before ss [] = copied before ss
url_encode_loop plus before ss (c ∷ rest) =
    url_encode_loop plus (before ++ c ∷ [])
      (if uri_chars c then append_to ss c else some (copied before ss ++ escape plus c)) rest

unfoldable pub url_encode : Bool → List ℕ → List ℕ
unfolding url_encode_loop
url_encode space_as_plus str = url_encode_loop space_as_plus [] none str

-- `*c == '%' && isxdigit(*(c + 1)) && isdigit(*(c + 2))`: the second test is isdigit.
unfoldable pub is_escape : ℕ → ℕ → ℕ → Bool
is_escape c h l = (c == 37) && isxdigit h && isdigit l

unfoldable pub unescape : ℕ → ℕ → ℕ
unfolding xdigit_chars
unescape h l = bit_or (xdigit_chars h * 16) (xdigit_chars l) % 256

unfoldable pub url_decode_loop : Bool → List ℕ → Option (List ℕ) → List ℕ → List ℕ
unfolding copied append_to is_escape
url_decode_loop plus before ss [] = copied before ss
url_decode_loop plus before ss (c ∷ []) =
    copied (before ++ c ∷ [])
      (if (c == 43) && plus then some (copied before ss ++ 32 ∷ []) else append_to ss c)
url_decode_loop plus before ss (c ∷ h ∷ []) =
    url_decode_loop plus (before ++ c ∷ [])
      (if (c == 43) && plus then some (copied before ss ++ 32 ∷ []) else append_to ss c) (h ∷ [])
url_decode_loop plus before ss (c ∷ h ∷ l ∷ rest) =
    let next : Option (List ℕ) → List ℕ =
      λ ss'. url_decode_loop plus (before ++ c ∷ []) ss' (h ∷ l ∷ rest) in
    let behind =
      url_decode_loop plus (before ++ c ∷ h ∷ l ∷ []) (some (copied before ss ++ unescape h l ∷ []))
        rest in
    if (c == 43) && plus
    then next (some (copied before ss ++ 32 ∷ []))
    else if is_escape c h l
    then behind
    else next (append_to ss c)

unfoldable pub url_decode : Bool → List ℕ → List ℕ
unfolding url_decode_loop
url_decode space_as_plus str = url_decode_loop space_as_plus [] none str
