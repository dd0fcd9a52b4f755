-- ===== src/Hash/Base64Length.antt =====
-- src/hash.cc: the length of what Base64Encode gives.
use tiger.Base.{ℕ, ◌+◌, ◌*◌, ◌/◌, ◌%◌, List, [], ◌∷◌, ◌≡◌, refl, arith}
use tiger.Base.{
  ◌^◌, ◌≢◌, length, length-append, Option-cases, Bool-cases, inl, inr, ltb, ◌&&◌, none,
}
use tiger.Hash.Base64.{
  encode_group, push_byte, base64_encode, base64_decode, decode_loop, take_group,
}

length-encode_group :
    (packed : ℕ)
    → (length (encode_group 0 packed) ≡ 4)
      × (length (encode_group 1 packed) ≡ 4)
      × (length (encode_group 2 packed) ≡ 4)
unfolding encode_group
length-encode_group packed = (refl, refl, refl)

-- Base64Encode gives four characters for each three bytes that are begun.
length-base64_encode : (src : List ℕ) → length (base64_encode src) ≡ 4 * ((length src + 2) / 3)
unfolding base64_encode
length-base64_encode [] = refl
length-base64_encode (a ∷ []) = (length-encode_group (push_byte 0 a * 2 ^ 8 * 2 ^ 8)).2
length-base64_encode (a ∷ b ∷ []) = (length-encode_group (push_byte (push_byte 0 a) b * 2 ^ 8)).1
length-base64_encode (a ∷ b ∷ c ∷ rest) = omega (
  arith,
  length-append (encode_group 0 (push_byte (push_byte (push_byte 0 a) b) c)) (base64_encode rest),
  (length-encode_group (push_byte (push_byte (push_byte 0 a) b) c)).0,
  length-base64_encode rest,
)

decode_loop-uneven : (src : List ℕ) → length src % 4 ≢ 0 → decode_loop src ≡ none
unfolding decode_loop
decode_loop-uneven [] h = absurd (h refl)
decode_loop-uneven (a ∷ []) h = refl
decode_loop-uneven (a ∷ b ∷ []) h = refl
decode_loop-uneven (a ∷ b ∷ c ∷ []) h = refl
decode_loop-uneven (a ∷ b ∷ c ∷ d ∷ rest) h = elim (Option-cases (take_group a b c d)) [
  | inl e ↦ rw (e, decode_loop) refl
  | inr ((padding, packed), e) ↦ elim (Bool-cases (ltb 0 padding && ltb 0 (length rest))) [
    | inl f ↦ rw (e, decode_loop) (rw (f, decode_loop) refl)
    | inr f ↦ elim (Bool-cases (ltb 2 padding)) [
      | inl g ↦ rw (e, decode_loop) (rw (f, decode_loop) (rw (g, decode_loop) refl))
      | inr g ↦
          rw (e, decode_loop)
            (rw (f, decode_loop)
              (rw (g, decode_loop)
                (rw (decode_loop-uneven rest (λ k. h (omega arith)), decode_loop) refl)))
    ]
  ]
]

-- Base64Decode gives the empty text for a text whose length four does not divide.
pub base64_decode_uneven : (src : List ℕ) → length src % 4 ≢ 0 → base64_decode src ≡ []
unfolding base64_decode
base64_decode_uneven src h = rw (decode_loop-uneven src h, base64_decode) refl
