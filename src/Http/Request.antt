-- ===== src/Http/Request.antt =====
-- src/servers/http/http.h and src/servers/http/http.cc: HTTPRequest and its lazily parsed parameters.
use tiger.Base.{ℕ, zero, suc, ◌+◌, Bool, true, false, ◌||◌, List, [], ◌∷◌, map}
use tiger.Base.{Option, none, some, ◌==◌, if◌then◌else◌, length, bit_and, bit_or}
use tiger.Util.Url.{url_encode}
use tiger.Util.Trim.{trim}
use tiger.Http.Bytes.{bytes, strncmp}
use tiger.Http.Method.{HttpMethod}
use tiger.Http.Fields.{
  lower, strcasecmp, Fields, find, assign, insert, erase, get_with_default, is_found,
}

pub record HttpRequest : Type 0 where
  pub method : HttpMethod
  pub version : ℕ
  pub close : Bool
  pub websocket : Bool
  pub parser_param_flag : ℕ
  pub path : List ℕ
  pub query : List ℕ
  pub fragment : List ℕ
  pub body : List ℕ
  pub headers : Fields
  pub params : Fields
  pub cookies : Fields

-- HTTPRequest(version, close).
unfoldable pub new_request : ℕ → Bool → HttpRequest
new_request version close = record {
  method = HttpMethod.get;
  version = version;
  close = close;
  websocket = false;
  parser_param_flag = 0;
  path = bytes "/";
  query = [];
  fragment = [];
  body = [];
  headers = [];
  params = [];
  cookies = [];
}

-- What stands before and behind the first byte `c`.
unfoldable pub split_at : ℕ → List ℕ → Option (List ℕ × List ℕ)
split_at c [] = none
split_at c (b ∷ bs) =
    let later = split_at c bs in
    if b == c
    then some ([], bs)
    else elim later [ none ↦ none | some (before, behind) ↦ some (b ∷ before, behind) ]

-- PARSE_PARAM. The text is what stands from `last` on; a round takes one byte of it at least.
unfoldable pub parse_param_loop : ℕ → ℕ → (List ℕ → List ℕ) → List ℕ → Fields → Option Fields
parse_param_loop zero flag trim' str m = none
parse_param_loop (suc fuel) flag trim' str m = elim (split_at 61 str) [
  | none ↦ some m
  | some (key, tail) ↦ elim (split_at flag tail) [
    | none ↦ some (insert m (trim' key) (url_encode true tail))
    | some (value, rest) ↦
        parse_param_loop fuel flag trim' rest (insert m (trim' key) (url_encode true value))
  ]
]

unfoldable pub parse_param : ℕ → (List ℕ → List ℕ) → List ℕ → Fields → Option Fields
unfolding parse_param_loop
parse_param flag trim' str m = parse_param_loop (length str + 1) flag trim' str m

unfoldable pub get_header : HttpRequest → List ℕ → List ℕ → List ℕ
get_header r key def = get_with_default (find r.headers key) def

unfoldable pub has_header : HttpRequest → List ℕ → Bool
has_header r key = is_found (find r.headers key)

unfoldable pub del_header : HttpRequest → List ℕ → HttpRequest
del_header r key = record r { headers = erase r.headers key }

unfoldable pub set_header : HttpRequest → List ℕ → List ℕ → HttpRequest
set_header r key val = record r { headers = assign r.headers key val }

unfoldable pub init : HttpRequest → HttpRequest
unfolding get_header
init r =
    let conn = get_header r (bytes "connection") [] in
    if length conn == 0
    then r
    else if strcasecmp conn (bytes "keep-alive")
    then record r { close = false }
    else record r { close = true }

-- `strcasestr(text, part) != nullptr`.
unfoldable pub strcasestr : List ℕ → List ℕ → Bool
strcasestr [] part = length part == 0
strcasestr (b ∷ bs) part = strncmp (map lower part) (map lower (b ∷ bs)) || strcasestr bs part

-- Of the last three, `none` is a loop that has run out of fuel.
unfoldable pub init_query_param : HttpRequest → Option HttpRequest
unfolding parse_param
init_query_param r =
    if bit_and r.parser_param_flag 1 == 0
    then elim (parse_param 38 (λ key. key) r.query r.params) [
      | none ↦ none
      | some m ↦ some (record r { params = m; parser_param_flag = bit_or r.parser_param_flag 1 })
    ]
    else some r

unfoldable pub init_body_param : HttpRequest → Option HttpRequest
unfolding parse_param get_header strcasestr
init_body_param r =
    let done : Fields → HttpRequest =
      λ m. record r { params = m; parser_param_flag = bit_or r.parser_param_flag 2 } in
    let content_type = get_header r (bytes "content-type") [] in
    if bit_and r.parser_param_flag 2 == 0
    then if strcasestr content_type (bytes "application/x-www-form-urlencoded")
      then elim (parse_param 38 (λ key. key) r.body r.params) [
        | none ↦ none
        | some m ↦ some (done m)
      ]
      else some (done r.params)
    else some r

unfoldable pub init_cookies : HttpRequest → Option HttpRequest
unfolding parse_param get_header
init_cookies r =
    let done : Fields → HttpRequest =
      λ m. record r { cookies = m; parser_param_flag = bit_or r.parser_param_flag 4 } in
    let cookie = get_header r (bytes "cookie") [] in
    if bit_and r.parser_param_flag 4 == 0
    then if length cookie == 0
      then some (done r.cookies)
      else elim (parse_param 59 (trim (32 ∷ 9 ∷ 13 ∷ 10 ∷ [])) cookie r.cookies) [
        | none ↦ none
        | some m ↦ some (done m)
      ]
    else some r

abbrev pub then_init : Option HttpRequest → (HttpRequest → Option HttpRequest) → Option HttpRequest
then_init none next = none
then_init (some r) next = next r

unfoldable pub init_param : HttpRequest → Option HttpRequest
init_param r = then_init (then_init (init_query_param r) init_body_param) init_cookies

-- The queries give the request too, since the first of them parses.
abbrev pub answer {ℓ} :
    {A : Type ℓ} → Option HttpRequest → (HttpRequest → A) → Option (A × HttpRequest)
answer none f = none
answer (some r) f = some (f r, r)

abbrev both_params : HttpRequest → Option HttpRequest
both_params r = then_init (init_query_param r) init_body_param

unfoldable pub get_params : HttpRequest → Option (Fields × HttpRequest)
get_params r = answer (both_params r) (λ s. s.params)

unfoldable pub get_param : HttpRequest → List ℕ → List ℕ → Option (List ℕ × HttpRequest)
get_param r key def = answer (both_params r) (λ s. get_with_default (find s.params key) def)

unfoldable pub has_param : HttpRequest → List ℕ → Option (Bool × HttpRequest)
has_param r key = answer (both_params r) (λ s. is_found (find s.params key))

unfoldable pub del_param : HttpRequest → List ℕ → HttpRequest
del_param r key = record r { params = erase r.params key }

unfoldable pub set_param : HttpRequest → List ℕ → List ℕ → HttpRequest
set_param r key val = record r { params = assign r.params key val }

unfoldable pub get_cookies : HttpRequest → Option (Fields × HttpRequest)
get_cookies r = answer (init_cookies r) (λ s. s.cookies)

unfoldable pub get_cookie : HttpRequest → List ℕ → List ℕ → Option (List ℕ × HttpRequest)
get_cookie r key def = answer (init_cookies r) (λ s. get_with_default (find s.cookies key) def)

unfoldable pub has_cookie : HttpRequest → List ℕ → Option (Bool × HttpRequest)
has_cookie r key = answer (init_cookies r) (λ s. is_found (find s.cookies key))

-- The test is for a key that is not there.
unfoldable pub del_cookie : HttpRequest → List ℕ → HttpRequest
del_cookie r key =
    if is_found (find r.cookies key) then r else record r { cookies = erase r.cookies key }

unfoldable pub set_cookie : HttpRequest → List ℕ → List ℕ → HttpRequest
set_cookie r key val = record r { cookies = assign r.cookies key val }
