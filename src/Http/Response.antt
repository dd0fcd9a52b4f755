-- ===== src/Http/Response.antt =====
-- src/servers/http/http.h and src/servers/http/http.cc: HTTPResponse, without its text form.
use tiger.Base.{ℕ, Bool, false, List, [], ◌∷◌, ◌++◌}
use tiger.Base.{ltb, ◌==◌, if◌then◌else◌, length, ◌≡◌, refl, ap, ◌∙◌, Bool-cases, inl, inr}
use tiger.Http.Bytes.{bytes}
use tiger.Http.Status.{HttpStatus}
use tiger.Http.Fields.{Fields, strcasecmp, find, assign, erase, get_with_default, is_found}
use tiger.Http.FieldsLaws.{find-assign}

pub record HttpResponse : Type 0 where
  pub status : HttpStatus
  pub version : ℕ
  pub close : Bool
  pub websocket : Bool
  pub body : List ℕ
  pub reason : List ℕ
  pub headers : Fields
  pub cookies : List (List ℕ)

unfoldable pub new_response : ℕ → Bool → HttpResponse
new_response version close = record {
  status = HttpStatus.ok_status;
  version = version;
  close = close;
  websocket = false;
  body = [];
  reason = [];
  headers = [];
  cookies = [];
}

unfoldable pub del_header : HttpResponse → List ℕ → HttpResponse
del_header r key =
    if is_found (find r.headers key) then record r { headers = erase r.headers key } else r

unfoldable pub set_header : HttpResponse → List ℕ → List ℕ → HttpResponse
set_header r key value = record r { headers = assign r.headers key value }

unfoldable pub set_redirect : HttpResponse → List ℕ → HttpResponse
unfolding set_header
set_redirect r uri = set_header (record r { status = HttpStatus.found }) (bytes "Location") uri

unfoldable pub get_header : HttpResponse → List ℕ → List ℕ → List ℕ
get_header r key def = get_with_default (find r.headers key) def

-- The text of one cookie; `time_text` is Time2Str with the cookie's format.
unfoldable pub set_cookies :
    (ℕ → List ℕ) → HttpResponse → List ℕ → List ℕ → ℕ → List ℕ → List ℕ → Bool → HttpResponse
set_cookies time_text r key val expired path domain secure =
    let expires =
      if ltb 0 expired then bytes ";expires=" ++ time_text expired ++ bytes " GMT" else [] in
    let in_domain = if length domain == 0 then [] else bytes ";dlomain=" ++ domain in
    let in_path = if length path == 0 then [] else bytes ";path=" ++ path in
    let is_secure = if secure then bytes ";secure" else [] in
    record r {
      cookies =
          r.cookies
          ++ (key ++ bytes "=" ++ val ++ expires ++ in_domain ++ in_path ++ is_secure) ∷ [];
    }

-- After set_redirect the status is FOUND, the header Location under any spelling is the address, and
-- any other header is as it was.
pub set_redirect_lem :
    (r : HttpResponse) (uri key def : List ℕ)
    → ((set_redirect r uri).status ≡ HttpStatus.found)
      × (get_header (set_redirect r uri) key def
          ≡ (if strcasecmp (bytes "Location") key then uri else get_header r key def))
unfolding set_redirect get_header get_with_default
set_redirect_lem r uri key def = (
  refl,
  ap (λ o. get_with_default o def) (find-assign r.headers (bytes "Location") uri key)
      ∙ elim (Bool-cases (strcasecmp (bytes "Location") key)) [
        | inl e ↦ rw e refl
        | inr e ↦ rw e refl
      ],
)
