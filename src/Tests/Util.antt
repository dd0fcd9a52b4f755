-- ===== src/Tests/Util.antt =====
-- src/util.cc on concrete inputs.
use tiger.Base.{◌+◌, ℕ, true, false, List, [], ◌∷◌, ◌≡◌, refl, arith, inl, inr}
use tiger.Http.Bytes.{bytes}
use tiger.Util.Url.{
  append_to, copied, escape, unescape, uri_chars, hexdigits, url_encode, url_decode,
}
use tiger.Util.RoundTrip.{IsDecodable, url_decode-url_encode}
use tiger.Util.Trim.{trim, is_valid_name, find_first_not_of, random}

abbrev spaces : List ℕ
spaces = 32 ∷ 9 ∷ 13 ∷ 10 ∷ []

url_encode_run : url_encode true (bytes "a b!") ≡ bytes "a+b%21"
unfolding url_encode copied uri_chars append_to escape hexdigits
url_encode_run = refl

url_decode_run : url_decode false (bytes "%21+%2F") ≡ bytes "!+%2F"
unfolding url_decode unescape
url_decode_run = refl

trim_run : trim spaces (bytes " a b ") ≡ bytes "a b"
unfolding trim
trim_run = refl

is_valid_name_run : is_valid_name (bytes "a-b") ≡ false
unfolding is_valid_name find_first_not_of
is_valid_name_run = refl

random_run : random (λ i. i + 7) 3 (bytes "abcd") ≡ bytes "dab"
unfolding random
random_run = refl

url_decode-url_encode_example : url_decode true (url_encode true (bytes "a &")) ≡ bytes "a &"
unfolding IsDecodable uri_chars
url_decode-url_encode_example =
    url_decode-url_encode true (bytes "a &")
      (inl refl, (inr (inl (refl, refl)), (inr (inr (omega arith, omega arith)), tt)))
