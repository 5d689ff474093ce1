-- ===== src/Gateway/Multibase/Tests.antt =====
-- Witnesses and small runs of the codec.
use olane.Common.{ℕ, ◌≡◌, refl, List, [], ◌∷◌, Text, codes, arith, ok, err}
use olane.Gateway.Multibase.{
  invalid_character, index, char_at, flush, absorb, absorb_all, leading, repeat, decode_all,
  base58_encode, base58_decode, strip_multicodec, decode_ed25519_public_key,
  encode_ed25519_public_key,
}
use olane.Gateway.Multibase.RoundTrip.{decode-encode, encode-decode}

run : Unit {0}
unfolding base58_encode base58_decode char_at index flush absorb absorb_all leading repeat
    decode_all strip_multicodec decode_ed25519_public_key encode_ed25519_public_key
run = tt

abbrev hello : List ℕ
hello = 0 ∷ 0 ∷ codes "hello world"

hello_encoded : base58_encode hello ≡ codes "11StV1DL6CwTryKyV"
unfolding run
hello_encoded = refl

zero_refused : base58_decode (codes "1O0") ≡ err (invalid_character b'O')
unfolding run
zero_refused = refl

abbrev key : List ℕ
key = codes "an Ed25519 key of 32 plain bytes"

decode-encode_example : base58_decode (base58_encode hello) ≡ ok hello
decode-encode_example = decode-encode hello (omega arith)

encode-decode_example : base58_encode (0 ∷ 57 ∷ []) ≡ codes "1z"
unfolding run
encode-decode_example = encode-decode (codes "1z") refl

abbrev encoded : Text
encoded = b'z' ∷ base58_encode (0xed ∷ 0x01 ∷ key)
