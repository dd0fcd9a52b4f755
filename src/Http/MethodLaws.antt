-- ===== src/Http/MethodLaws.antt =====
-- src/servers/http/http.h and src/servers/http/http.cc: the methods and their names, there and back.
use tiger.Base.{ℕ, List, ◌++◌, none, some, ◌≡◌, ◌⊎◌, inl, inr, refl}
use tiger.Http.Bytes.{bytes}
use tiger.Http.Method.{
  HttpMethod, invalid_method, method_index, first_method, string_to_http_method,
  chars_to_http_method, http_method_to_string, delete, get, head, post, put, connect, options,
  trace, copy, lock, mkcol, move, propfind, proppatch, search, unlock, bind, rebind, unbind, acl,
  report, mkactivity, checkout, merge, msearch, notify, subscribe, unsubscribe, patch, purge,
  mkcalendar, link, unlink, source,
}

-- A method has a name that stands for it, alone and with any bytes behind it.
pub Named : HttpMethod → Type 0
Named m =
    (name : List ℕ) × (http_method_to_string m ≡ some name)
    × (string_to_http_method name ≡ m)
    × ((rest : List ℕ) → chars_to_http_method (name ++ rest) ≡ m)

-- Each method but INVALID_METHOD has a name from which StringToHTTPMethod gives the method, and
-- CharsToHTTPMethod too, with any bytes behind the name. For INVALID_METHOD the name is read behind
-- the table.
method_names :
    (m : HttpMethod) → Named m ⊎ ((m ≡ invalid_method) × (http_method_to_string m ≡ none))
unfolding method_index first_method string_to_http_method chars_to_http_method http_method_to_string
    Named
method_names delete = inl (bytes "DELETE", refl, refl, λ rest. refl)
method_names get = inl (bytes "GET", refl, refl, λ rest. refl)
method_names head = inl (bytes "HEAD", refl, refl, λ rest. refl)
method_names post = inl (bytes "POST", refl, refl, λ rest. refl)
method_names put = inl (bytes "PUT", refl, refl, λ rest. refl)
method_names connect = inl (bytes "CONNECT", refl, refl, λ rest. refl)
method_names options = inl (bytes "OPTIONS", refl, refl, λ rest. refl)
method_names trace = inl (bytes "TRACE", refl, refl, λ rest. refl)
method_names copy = inl (bytes "COPY", refl, refl, λ rest. refl)
method_names lock = inl (bytes "LOCK", refl, refl, λ rest. refl)
method_names mkcol = inl (bytes "MKCOL", refl, refl, λ rest. refl)
method_names move = inl (bytes "MOVE", refl, refl, λ rest. refl)
method_names propfind = inl (bytes "PROPFIND", refl, refl, λ rest. refl)
method_names proppatch = inl (bytes "PROPPATCH", refl, refl, λ rest. refl)
method_names search = inl (bytes "SEARCH", refl, refl, λ rest. refl)
method_names unlock = inl (bytes "UNLOCK", refl, refl, λ rest. refl)
method_names bind = inl (bytes "BIND", refl, refl, λ rest. refl)
method_names rebind = inl (bytes "REBIND", refl, refl, λ rest. refl)
method_names unbind = inl (bytes "UNBIND", refl, refl, λ rest. refl)
method_names acl = inl (bytes "ACL", refl, refl, λ rest. refl)
method_names report = inl (bytes "REPORT", refl, refl, λ rest. refl)
method_names mkactivity = inl (bytes "MKACTIVITY", refl, refl, λ rest. refl)
method_names checkout = inl (bytes "CHECKOUT", refl, refl, λ rest. refl)
method_names merge = inl (bytes "MERGE", refl, refl, λ rest. refl)
method_names msearch = inl (bytes "M - SEARCH", refl, refl, λ rest. refl)
method_names notify = inl (bytes "NOTIFY", refl, refl, λ rest. refl)
method_names subscribe = inl (bytes "SUBSCRIBE", refl, refl, λ rest. refl)
method_names unsubscribe = inl (bytes "UNSUBSCRIBE", refl, refl, λ rest. refl)
method_names patch = inl (bytes "PATCH", refl, refl, λ rest. refl)
method_names purge = inl (bytes "PURGE", refl, refl, λ rest. refl)
method_names mkcalendar = inl (bytes "MKCALENDAR", refl, refl, λ rest. refl)
method_names link = inl (bytes "LINK", refl, refl, λ rest. refl)
method_names unlink = inl (bytes "UNLINK", refl, refl, λ rest. refl)
method_names source = inl (bytes "SOURCE", refl, refl, λ rest. refl)
method_names invalid_method = inr (refl, refl)
