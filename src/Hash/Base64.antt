-- ===== src/Hash/Base64.antt =====
-- src/hash.cc: Base64Encode and Base64Decode, on bytes. `x << k` is `x * 2 ^ k` and `x >> k` is
-- `x / 2 ^ k`: `packed` stays below 2^24.
use tiger.Base.{ℕ, ◌+◌, ◌-◌, ◌*◌, ◌/◌, ◌^◌, bit_and, bit_or, ◌&&◌}
use tiger.Base.{
  List, [], ◌∷◌, ◌++◌, Option, none, some, ltb, leb, ◌==◌, if◌then◌else◌, length, get_or,
}
use tiger.Base.{replicate}
use tiger.Http.Bytes.{bytes}

abbrev pub alphabet : List ℕ
alphabet = bytes "ABCDEFGHIJKLMNOPQRSTUVWXYZabcdefghijklmnopqrstuvwxyz0123456789+/"

-- What Base64Encode appends for the 24 bits `packed`.
unfoldable pub encode_group : ℕ → ℕ → List ℕ
encode_group padding packed =
    let third =
      if padding == 2 then [] else get_or alphabet (bit_and (packed / 2 ^ 6) 0x3f) 0 ∷ [] in
    let fourth = if padding == 0 then get_or alphabet (bit_and packed 0x3f) 0 ∷ [] else [] in
    get_or alphabet (packed / 2 ^ 18) 0
    ∷ get_or alphabet (bit_and (packed / 2 ^ 12) 0x3f) 0
    ∷ (third ++ fourth ++ replicate padding 61)

-- `packed = (packed << 8) | *ptr`.
abbrev pub push_byte : ℕ → ℕ → ℕ
push_byte packed b = bit_or (packed * 2 ^ 8) b

unfoldable pub base64_encode : List ℕ → List ℕ
unfolding encode_group
base64_encode [] = []
base64_encode (a ∷ []) = encode_group 2 (push_byte 0 a * 2 ^ 8 * 2 ^ 8)
base64_encode (a ∷ b ∷ []) = encode_group 1 (push_byte (push_byte 0 a) b * 2 ^ 8)
base64_encode (a ∷ b ∷ c ∷ rest) =
    encode_group 0 (push_byte (push_byte (push_byte 0 a) b) c) ++ base64_encode rest

-- The value of a character; `none` is an invalid one.
unfoldable pub value : ℕ → Option ℕ
value c =
    if leb 65 c && leb c 90
    then some (c - 65)
    else if leb 97 c && leb c 122
    then some (c - 97 + 26)
    else if leb 48 c && leb c 57
    then some (c - 48 + 52)
    else if c == 43
    then some 62
    else if c == 47
    then some 63
    else none

-- One character of the inner loop, from `padding` and `packed`.
unfoldable pub take_char : ℕ → ℕ × ℕ → Option (ℕ × ℕ)
unfolding value
take_char c (padding, packed) =
    if c == 61
    then some (padding + 1, packed * 2 ^ 6)
    else if ltb 0 padding
    then none
    else elim (value c) [ none ↦ none | some v ↦ some (padding, bit_or (packed * 2 ^ 6) v) ]

abbrev pub and_then {ℓ κ} : {A : Type ℓ} {B : Type κ} → Option A → (A → Option B) → Option B
and_then none f = none
and_then (some a) f = f a

-- The inner loop: four characters.
unfoldable pub take_group : ℕ → ℕ → ℕ → ℕ → Option (ℕ × ℕ)
unfolding take_char
take_group a b c d =
    and_then (and_then (and_then (take_char a (0, 0)) (take_char b)) (take_char c)) (take_char d)

-- The bytes of a group.
unfoldable pub decode_group : ℕ → ℕ → List ℕ
decode_group padding packed =
    let second = if padding == 2 then [] else bit_and (packed / 2 ^ 8) 0xff ∷ [] in
    let third = if padding == 0 then bit_and packed 0xff ∷ [] else [] in
    bit_and (packed / 2 ^ 16) 0xff ∷ (second ++ third)

-- `none` is `return ""`. A group of less than four characters is one whatever they are.
unfoldable pub decode_loop : List ℕ → Option (List ℕ)
unfolding take_group decode_group
decode_loop [] = some []
decode_loop (a ∷ b ∷ c ∷ d ∷ rest) =
    let more = decode_loop rest in
    elim (take_group a b c d) [
      | none ↦ none
      | some (padding, packed) ↦
          if ltb 0 padding && ltb 0 (length rest)
          then none
          else if ltb 2 padding
          then none
          else and_then more (λ bs. some (decode_group padding packed ++ bs))
    ]
decode_loop (a ∷ []) = none
decode_loop (a ∷ b ∷ []) = none
decode_loop (a ∷ b ∷ c ∷ []) = none

unfoldable pub base64_decode : List ℕ → List ℕ
unfolding decode_loop
base64_decode src = elim (decode_loop src) [ none ↦ [] | some bs ↦ bs ]
