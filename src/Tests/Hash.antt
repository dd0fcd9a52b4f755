-- ===== src/Tests/Hash.antt =====
-- src/hash.cc on concrete inputs.
use tiger.Base.{◌≡◌, refl}
use tiger.Http.Bytes.{bytes}
use tiger.Hash.Base64.{base64_encode, base64_decode, value}

base64_encode_run : base64_encode (bytes "light wor") ≡ bytes "bGlnaHQgd29y"
unfolding base64_encode
base64_encode_run = refl

base64_encode_padded : base64_encode (bytes "ab") ≡ bytes "YWI="
unfolding base64_encode
base64_encode_padded = refl

base64_decode_run : base64_decode (bytes "bGlnaHQ=") ≡ bytes "light"
unfolding base64_decode value
base64_decode_run = refl
