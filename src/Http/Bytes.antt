-- ===== src/Http/Bytes.antt =====
-- Strings as lists of bytes, and the comparisons of them that the code calls.
use Prim.Native.String.{String}
use Prim.Native.Char.{code}
use tiger.Base.{ℕ, Bool, true, false, ◌&&◌, List, [], ◌∷◌, ◌==◌}

-- The bytes of an ASCII text.
abbrev pub bytes : String → List ℕ
bytes String.[] = []
bytes (String.◌∷◌ c text) = code c ∷ bytes text

-- `strcmp(a, b) == 0`.
abbrev pub strcmp : List ℕ → List ℕ → Bool
strcmp [] [] = true
strcmp [] (y ∷ ys) = false
strcmp (x ∷ xs) [] = false
strcmp (x ∷ xs) (y ∷ ys) = (x == y) && strcmp xs ys

-- `strncmp(a, b, strlen(a)) == 0`.
abbrev pub strncmp : List ℕ → List ℕ → Bool
strncmp [] ys = true
strncmp (x ∷ xs) [] = false
strncmp (x ∷ xs) (y ∷ ys) = (x == y) && strncmp xs ys
