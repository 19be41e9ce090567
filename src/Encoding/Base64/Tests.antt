-- ===== src/Encoding/Base64/Tests.antt =====
-- Texts for common/src/base64.cpp.
use encoder_next.Prelude.{◌≡◌, refl, true, Bytes, codes, all, arith}
use encoder_next.Encoding.Base64.{base64_encode, base64_decode}
use encoder_next.Encoding.Base64.RoundTrip.{
  is_accepted, base64_decode-encode, base64_decode-success,
}

abbrev foobar : Bytes
foobar = codes "fooba"

foobar_encoded : base64_encode foobar ≡ codes "Zm9vYmE="
unfolding base64_encode
foobar_encoded = refl

base64_decode-encode_example : base64_decode (base64_encode foobar) ≡ (foobar, true)
base64_decode-encode_example = base64_decode-encode foobar (omega arith)

base64_decode-success_example : (base64_decode (codes "Zm9*")).1 ≡ all is_accepted (codes "Zm9*")
base64_decode-success_example = base64_decode-success (codes "Zm9*")
