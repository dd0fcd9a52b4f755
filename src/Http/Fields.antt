-- ===== src/Http/Fields.antt =====
-- std::map<std::string, std::string, CaseInsensitiveLess>, as src/servers/http/http.cc uses it: pairs
-- in the order of their insertion. No method modelled here depends on the order of the keys.
use tiger.Base.{ℕ, ◌+◌, Bool, true, false, ◌&&◌, List, [], ◌∷◌, map, Option, none, some}
use tiger.Base.{leb, if◌then◌else◌}
use tiger.Http.Bytes.{strcmp}

abbrev pub lower : ℕ → ℕ
lower c = if leb 65 c && leb c 90 then c + 32 else c

-- `strcasecmp(a, b) == 0`: neither of the keys is less than the other.
abbrev pub strcasecmp : List ℕ → List ℕ → Bool
strcasecmp a b = strcmp (map lower a) (map lower b)

abbrev pub Fields : Type 0
Fields = List (List ℕ × List ℕ)

-- `find(key)`, with the value; `none` is `end()`.
unfoldable pub find : Fields → List ℕ → Option (List ℕ)
find [] key = none
find ((k, v) ∷ rest) key = if strcasecmp k key then some v else find rest key

-- `m[key] = value`, which keeps the key that is there.
unfoldable pub assign : Fields → List ℕ → List ℕ → Fields
assign [] key value = (key, value) ∷ []
assign ((k, v) ∷ rest) key value =
    let later = assign rest key value in
    if strcasecmp k key then (k, value) ∷ rest else (k, v) ∷ later

-- `m.insert({key, value})`, which keeps the value that is there.
unfoldable pub insert : Fields → List ℕ → List ℕ → Fields
insert [] key value = (key, value) ∷ []
insert ((k, v) ∷ rest) key value =
    let later = insert rest key value in if strcasecmp k key then (k, v) ∷ rest else (k, v) ∷ later

unfoldable pub erase : Fields → List ℕ → Fields
erase [] key = []
erase ((k, v) ∷ rest) key =
    let later = erase rest key in if strcasecmp k key then later else (k, v) ∷ later

-- `it == m.end() ? def : it->second`.
unfoldable pub get_with_default : Option (List ℕ) → List ℕ → List ℕ
get_with_default none def = def
get_with_default (some v) def = v

unfoldable pub is_found : Option (List ℕ) → Bool
is_found none = false
is_found (some v) = true
