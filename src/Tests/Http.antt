-- ===== src/Tests/Http.antt =====
-- src/servers/http/http.cc on concrete inputs.
use tiger.Base.{true, [], ◌∷◌, some, ◌≡◌, refl}
use tiger.Http.Bytes.{bytes}
use tiger.Http.Method.{HttpMethod, string_to_http_method}
use tiger.Http.Status.{HttpStatus, http_status_to_string}
use tiger.Util.Url.{url_encode, copied, uri_chars, append_to, escape}
use tiger.Http.Fields.{insert}
use tiger.Http.Request.{HttpRequest, new_request, parse_param, split_at}
use tiger.Http.RequestLaws.{joined, inserted, parse_param-joined}

abbrev fresh : HttpRequest
fresh = new_request 0x11 true

http_status_run : http_status_to_string HttpStatus.not_found ≡ bytes "Not Found"
unfolding http_status_to_string
http_status_run = refl

msearch_run : string_to_http_method (bytes "M-SEARCH") ≡ HttpMethod.invalid_method
unfolding string_to_http_method
msearch_run = refl

parse_param_run :
    parse_param 38 (λ key. key) (bytes "a=b c&d=e") []
    ≡ some ((bytes "a", bytes "b+c") ∷ (bytes "d", bytes "e") ∷ [])
unfolding parse_param split_at insert url_encode copied uri_chars append_to escape
parse_param_run = refl

parse_param-joined_example :
    parse_param 38 (λ key. key) (joined 38 (bytes "a") (bytes "b") ((bytes "c", bytes "d") ∷ [])) []
    ≡ some (inserted (λ key. key) [] (bytes "a") (bytes "b") ((bytes "c", bytes "d") ∷ []))
parse_param-joined_example =
    parse_param-joined 38 (λ key. key) [] (bytes "a") (bytes "b") ((bytes "c", bytes "d") ∷ [])
      (refl, tt) (refl, tt) (((refl, tt), (refl, tt)), tt)
