-- ===== src/Http/Method.antt =====
-- src/servers/http/http.h and src/servers/http/http.cc: the methods and their names.
use tiger.Base.{ℕ, Bool, List, [], ◌∷◌, map}
use tiger.Base.{Option, some, ltb, if◌then◌else◌, length, get_elem?}
use tiger.Http.Bytes.{bytes, strcmp, strncmp}

-- The methods of HTTP_METHOD_MAP, in its order, and INVALID_METHOD.
pub data HttpMethod : Type 0 where
  delete get head post put connect options trace copy lock mkcol move propfind proppatch search
        unlock bind rebind unbind acl report mkactivity checkout merge msearch notify subscribe
        unsubscribe patch purge mkcalendar link unlink source invalid_method :
      HttpMethod

-- HTTP_METHOD_MAP: each method and its string, as `#string` writes it.
abbrev pub method_map : List (HttpMethod × List ℕ)
method_map =
    (HttpMethod.delete, bytes "DELETE")
    ∷ (HttpMethod.get, bytes "GET")
    ∷ (HttpMethod.head, bytes "HEAD")
    ∷ (HttpMethod.post, bytes "POST")
    ∷ (HttpMethod.put, bytes "PUT")
    ∷ (HttpMethod.connect, bytes "CONNECT")
    ∷ (HttpMethod.options, bytes "OPTIONS")
    ∷ (HttpMethod.trace, bytes "TRACE")
    ∷ (HttpMethod.copy, bytes "COPY")
    ∷ (HttpMethod.lock, bytes "LOCK")
    ∷ (HttpMethod.mkcol, bytes "MKCOL")
    ∷ (HttpMethod.move, bytes "MOVE")
    ∷ (HttpMethod.propfind, bytes "PROPFIND")
    ∷ (HttpMethod.proppatch, bytes "PROPPATCH")
    ∷ (HttpMethod.search, bytes "SEARCH")
    ∷ (HttpMethod.unlock, bytes "UNLOCK")
    ∷ (HttpMethod.bind, bytes "BIND")
    ∷ (HttpMethod.rebind, bytes "REBIND")
    ∷ (HttpMethod.unbind, bytes "UNBIND")
    ∷ (HttpMethod.acl, bytes "ACL")
    ∷ (HttpMethod.report, bytes "REPORT")
    ∷ (HttpMethod.mkactivity, bytes "MKACTIVITY")
    ∷ (HttpMethod.checkout, bytes "CHECKOUT")
    ∷ (HttpMethod.merge, bytes "MERGE")
    ∷ (HttpMethod.msearch, bytes "M - SEARCH")
    ∷ (HttpMethod.notify, bytes "NOTIFY")
    ∷ (HttpMethod.subscribe, bytes "SUBSCRIBE")
    ∷ (HttpMethod.unsubscribe, bytes "UNSUBSCRIBE")
    ∷ (HttpMethod.patch, bytes "PATCH")
    ∷ (HttpMethod.purge, bytes "PURGE")
    ∷ (HttpMethod.mkcalendar, bytes "MKCALENDAR")
    ∷ (HttpMethod.link, bytes "LINK")
    ∷ (HttpMethod.unlink, bytes "UNLINK")
    ∷ (HttpMethod.source, bytes "SOURCE")
    ∷ []

-- The number of a method in the enumeration.
unfoldable pub method_index : HttpMethod → ℕ
method_index delete = 0
method_index get = 1
method_index head = 2
method_index post = 3
method_index put = 4
method_index connect = 5
method_index options = 6
method_index trace = 7
method_index copy = 8
method_index lock = 9
method_index mkcol = 10
method_index move = 11
method_index propfind = 12
method_index proppatch = 13
method_index search = 14
method_index unlock = 15
method_index bind = 16
method_index rebind = 17
method_index unbind = 18
method_index acl = 19
method_index report = 20
method_index mkactivity = 21
method_index checkout = 22
method_index merge = 23
method_index msearch = 24
method_index notify = 25
method_index subscribe = 26
method_index unsubscribe = 27
method_index patch = 28
method_index purge = 29
method_index mkcalendar = 30
method_index link = 31
method_index unlink = 32
method_index source = 33
method_index invalid_method = 34

-- The chain of tests that the macro writes out, for a test of the method's string.
unfoldable pub first_method : (List ℕ → Bool) → List (HttpMethod × List ℕ) → HttpMethod
first_method test [] = invalid_method
first_method test ((m, name) ∷ rest) = if test name then m else first_method test rest

unfoldable pub string_to_http_method : List ℕ → HttpMethod
unfolding first_method
string_to_http_method m = first_method (λ name. strcmp name m) method_map

unfoldable pub chars_to_http_method : List ℕ → HttpMethod
unfolding first_method
chars_to_http_method m = first_method (λ name. strncmp name m) method_map

-- `none` is a read behind the array `s_method_string`.
unfoldable pub http_method_to_string : HttpMethod → Option (List ℕ)
unfolding method_index
http_method_to_string m =
    if ltb (length method_map) (method_index m)
    then some (bytes "UNKNOWN")
    else get_elem? (map (λ e. e.1) method_map) (method_index m)
