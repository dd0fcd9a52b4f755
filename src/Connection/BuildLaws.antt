-- ===== src/Connection/BuildLaws.antt =====
-- src/servers/http/http_connection.cc: which headers and which close flag a request is built with.
use tiger.Base.{ℕ, Bool, true, false, not, ◌||◌, ◌&&◌, List, [], ◌∷◌, Option, none, some}
use tiger.Base.{if◌then◌else◌, ◌≡◌, refl, ap, sym, ◌∙◌, Bool-cases, true-false, inl, inr, arith}
use tiger.Http.Bytes.{bytes}
use tiger.Http.Method.{HttpMethod}
use tiger.Http.Fields.{Fields, strcasecmp, find}
use tiger.Http.FieldsLaws.{find-assign, strcasecmp-same, strcasecmp-joined}
use tiger.Http.Request.{HttpRequest, new_request, set_header}
use tiger.Connection.Build.{
  Uri, is_empty, copy_header, copy_headers, fill_request, keeps_alive, build_request,
}

-- The value of the last header with this name, or `before`.
unfoldable pub last_value : Fields → List ℕ → Option (List ℕ) → Option (List ℕ)
last_value [] name before = before
last_value ((key, value) ∷ rest) name before =
    last_value rest name (if strcasecmp key name then some value else before)

-- A header names a host that is not empty.
unfoldable pub names_host : Fields → Bool
unfolding is_empty
names_host [] = false
names_host ((key, value) ∷ rest) =
    not (strcasecmp key (bytes "connection"))
      && strcasecmp key (bytes "host")
      && not (is_empty value)
    || names_host rest

-- Some header "connection" asks to keep the connection.
unfoldable pub asks_to_keep : Fields → Bool
asks_to_keep [] = false
asks_to_keep ((key, value) ∷ rest) =
    strcasecmp key (bytes "connection") && strcasecmp value (bytes "keep-alive")
    || asks_to_keep rest

-- A header "connection" is not copied; any other is.
copy_header-connection :
    (on : List ℕ → Bool → Bool) (key value : List ℕ) (has : Bool) (req : HttpRequest)
    → strcasecmp key (bytes "connection") ≡ true
    → copy_header on key value has req ≡ (has, record req { close = on value req.close })
unfolding copy_header
copy_header-connection on key value has req e = rw (e, copy_header) refl

copy_header-other :
    (on : List ℕ → Bool → Bool) (key value : List ℕ) (has : Bool) (req : HttpRequest)
    → strcasecmp key (bytes "connection") ≡ false
    → copy_header on key value has req ≡ (
      if not has && strcasecmp key (bytes "host") then not (is_empty value) else has,
      set_header req key value,
    )
unfolding copy_header
copy_header-other on key value has req e = rw (e, copy_header) refl

close_step :
    (close k later : Bool) → (if k then false else close) && not later ≡ close && not (k || later)
close_step true k later = ground arith
close_step false k later = ground arith

-- The close flag behind the headers.
copy_headers-close :
    (headers : Fields) (has : Bool) (req : HttpRequest)
    → (copy_headers keeps_alive headers has req).1.close ≡ req.close && not (asks_to_keep headers)
unfolding copy_headers asks_to_keep keeps_alive set_header
copy_headers-close [] has req = ground arith
copy_headers-close ((key, value) ∷ rest) has req =
    elim (Bool-cases (strcasecmp key (bytes "connection"))) [
      | inl e ↦
          ap (λ p. (copy_headers keeps_alive rest p.0 p.1).1.close)
            (copy_header-connection keeps_alive key value has req e)
          ∙ copy_headers-close rest has (record req { close = keeps_alive value req.close })
          ∙ rw e (close_step req.close (strcasecmp value (bytes "keep-alive")) (asks_to_keep rest))
      | inr e ↦
          ap (λ p. (copy_headers keeps_alive rest p.0 p.1).1.close)
            (copy_header-other keeps_alive key value has req e)
          ∙ copy_headers-close rest _ (set_header req key value)
          ∙ rw e refl
    ]

host_step :
    (has h empty later : Bool)
    → (if not has && h then not empty else has) || later ≡ has || (h && not empty || later)
host_step true h empty later = refl
host_step false true empty later = refl
host_step false false empty later = refl

copy_headers-host :
    (on : List ℕ → Bool → Bool) (headers : Fields) (has : Bool) (req : HttpRequest)
    → (copy_headers on headers has req).0 ≡ has || names_host headers
unfolding copy_headers names_host
copy_headers-host on [] has req = ground arith
copy_headers-host on ((key, value) ∷ rest) has req =
    elim (Bool-cases (strcasecmp key (bytes "connection"))) [
      | inl e ↦
          ap (λ p. (copy_headers on rest p.0 p.1).0) (copy_header-connection on key value has req e)
          ∙ copy_headers-host on rest has (record req { close = on value req.close })
          ∙ rw e refl
      | inr e ↦
          ap (λ p. (copy_headers on rest p.0 p.1).0) (copy_header-other on key value has req e)
          ∙ copy_headers-host on rest _ (set_header req key value)
          ∙ rw e (host_step has (strcasecmp key (bytes "host")) (is_empty value) (names_host rest))
    ]

not_connection :
    (key name : List ℕ)
    → strcasecmp (bytes "connection") name ≡ true
    → strcasecmp key (bytes "connection") ≡ false
    → strcasecmp key name ≡ false
not_connection key name c e = elim (Bool-cases (strcasecmp key name)) [
  | inl f ↦ absurd (true-false (strcasecmp-joined key (bytes "connection") name f c) e)
  | inr f ↦ f
]

-- The header "connection" stays what it was, under any spelling.
copy_headers-connection :
    (on : List ℕ → Bool → Bool) (headers : Fields) (has : Bool) (req : HttpRequest) (name : List ℕ)
    → strcasecmp (bytes "connection") name ≡ true
    → find (copy_headers on headers has req).1.headers name ≡ find req.headers name
unfolding copy_headers set_header
copy_headers-connection on [] has req name c = refl
copy_headers-connection on ((key, value) ∷ rest) has req name c =
    elim (Bool-cases (strcasecmp key (bytes "connection"))) [
      | inl e ↦
          ap (λ p. find (copy_headers on rest p.0 p.1).1.headers name)
            (copy_header-connection on key value has req e)
          ∙ copy_headers-connection on rest has (record req { close = on value req.close }) name c
      | inr e ↦
          ap (λ p. find (copy_headers on rest p.0 p.1).1.headers name)
            (copy_header-other on key value has req e)
          ∙ copy_headers-connection on rest _ (set_header req key value) name c
          ∙ find-assign req.headers key value name
          ∙ ap (λ b. if b then some value else find req.headers name) (not_connection key name c e)
    ]

-- Any other header has the last value that is given for it, or else what it had.
copy_headers-find :
    (on : List ℕ → Bool → Bool) (headers : Fields) (has : Bool) (req : HttpRequest) (name : List ℕ)
    → strcasecmp (bytes "connection") name ≡ false
    → find (copy_headers on headers has req).1.headers name
      ≡ last_value headers name (find req.headers name)
unfolding copy_headers set_header last_value
copy_headers-find on [] has req name c = refl
copy_headers-find on ((key, value) ∷ rest) has req name c =
    elim (Bool-cases (strcasecmp key (bytes "connection"))) [
      | inl e ↦
          ap (λ p. find (copy_headers on rest p.0 p.1).1.headers name)
            (copy_header-connection on key value has req e)
          ∙ copy_headers-find on rest has (record req { close = on value req.close }) name c
          ∙ ap (λ b. last_value rest name (if b then some value else find req.headers name))
              (sym (strcasecmp-same key (bytes "connection") name e ∙ c))
      | inr e ↦
          ap (λ p. find (copy_headers on rest p.0 p.1).1.headers name)
            (copy_header-other on key value has req e)
          ∙ copy_headers-find on rest _ (set_header req key value) name c
          ∙ ap (last_value rest name) (find-assign req.headers key value name)
    ]

-- The header Host is set where the loop has found none.
set_host-find :
    (has : Bool) (r : HttpRequest) (host name : List ℕ)
    → find (if has then r else set_header r (bytes "Host") host).headers name
      ≡ (if not has && strcasecmp (bytes "Host") name then some host else find r.headers name)
unfolding set_header
set_host-find true r host name = refl
set_host-find false r host name = find-assign r.headers (bytes "Host") host name

set_host-close :
    (has : Bool) (r : HttpRequest) (host : List ℕ)
    → (if has then r else set_header r (bytes "Host") host).close ≡ r.close
unfolding set_header
set_host-close true r host = refl
set_host-close false r host = refl

-- No name is spelled like both.
connection_or_host :
    (name : List ℕ)
    → strcasecmp (bytes "connection") name ≡ true
    → strcasecmp (bytes "Host") name ≡ false
connection_or_host name c = elim (Bool-cases (strcasecmp (bytes "Host") name)) [
  | inl h ↦
      absurd (true-false (strcasecmp-joined (bytes "connection") (bytes "Host") name c h) refl)
  | inr h ↦ h
]

-- What a header is, by what the loop leaves for it.
header_of :
    (has : Bool) (host name : List ℕ) (found last : Option (List ℕ))
    → (strcasecmp (bytes "connection") name ≡ true → found ≡ none)
    → (strcasecmp (bytes "connection") name ≡ false → found ≡ last)
    → (if not has && strcasecmp (bytes "Host") name then some host else found) ≡ (
        if strcasecmp (bytes "connection") name
        then none
        else if not has && strcasecmp (bytes "Host") name
        then some host
        else last)
header_of has host name found last a b = elim (Bool-cases (strcasecmp (bytes "connection") name)) [
  | inl c ↦ rw (c, connection_or_host name c) (no_host has host found ∙ a c)
  | inr c ↦ rw c (rw (b c) refl)
]
  where
    no_host :
        (has : Bool) (host : List ℕ) (found : Option (List ℕ))
        → (if not has && false then some host else found) ≡ found
    no_host true host found = refl
    no_host false host found = refl

-- Whatever the headers and the rest of the request are: the close flag is set unless a header
-- "connection" says keep-alive. The request has no header "connection"; Host, when no header names a
-- host that is not empty, is the host of the URI; and any other header has the value that the last
-- header with its name has, in whatever case.
pub build_request_lem :
    (method : HttpMethod) (uri : Uri) (headers : Fields) (body name : List ℕ)
    → ((build_request method uri headers body).close ≡ not (asks_to_keep headers))
      × (find (build_request method uri headers body).headers name ≡ (
          if strcasecmp (bytes "connection") name
          then none
          else if not (names_host headers) && strcasecmp (bytes "Host") name
          then some uri.host
          else last_value headers name none))
unfolding build_request fill_request new_request find
build_request_lem method uri headers body name =
    let r = record (new_request 17 true) {
      method = method;
      path = uri.path;
      query = uri.query;
      fragment = uri.fragment;
      close = true;
    } in
    let p = copy_headers keeps_alive headers false r in
    (
      set_host-close p.0 p.1 uri.host ∙ copy_headers-close headers false r,
      set_host-find p.0 p.1 uri.host name
          ∙ ap
              (λ b.
                if not b && strcasecmp (bytes "Host") name
                then some uri.host
                else find p.1.headers name)
              (copy_headers-host keeps_alive headers false r)
          ∙ header_of (names_host headers) uri.host name (find p.1.headers name)
              (last_value headers name none)
              (copy_headers-connection keeps_alive headers false r name)
              (copy_headers-find keeps_alive headers false r name),
    )
