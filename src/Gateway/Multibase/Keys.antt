-- ===== src/Gateway/Multibase/Keys.antt =====
-- The multibase form of an Ed25519 public key.
use olane.Common.{
  ℕ, ◌≡◌, List, [], ◌∷◌, Text, arith, ◌==◌, Bool-cases, inl, inr, length, ok, ◌>>=◌, >>=-eq-ok,
}
use olane.Gateway.Multibase.{
  base58_encode, base58_decode, strip_multicodec, decode_ed25519_public_key,
  encode_ed25519_public_key,
}
use olane.Gateway.Multibase.RoundTrip.{IsBytes, decode-encode, encode-decode}

-- A key of 32 bytes is encoded without an error, and the text is decoded to that key.
pub decode_ed25519-encode :
    (raw_key : List ℕ)
    → IsBytes raw_key
    → length raw_key ≡ 32
    → (encode_ed25519_public_key raw_key >>= decode_ed25519_public_key) ≡ ok raw_key
unfolding encode_ed25519_public_key decode_ed25519_public_key
decode_ed25519-encode raw_key h n =
    let bytes : IsBytes (0xed ∷ 0x01 ∷ raw_key) = (omega arith, (omega arith, h)) in
    rw (n, decode-encode (0xed ∷ 0x01 ∷ raw_key) bytes) (unfold strip_multicodec in rw n)

strip_multicodec_inv :
    (decoded : List ℕ) {key : List ℕ}
    → strip_multicodec decoded ≡ ok key
    → (decoded ≡ 0xed ∷ 0x01 ∷ key) × (length key ≡ 32)
unfolding strip_multicodec
strip_multicodec_inv (a ∷ b ∷ rest) h = ground arith
strip_multicodec_inv (a ∷ []) h = absurd (cc)
strip_multicodec_inv [] h = absurd (cc)

-- Only a key of 32 bytes is ever decoded, and only from the one text that encodes it.
pub encode-decode_ed25519 :
    (multibase : Text) {key : List ℕ}
    → decode_ed25519_public_key multibase ≡ ok key
    → (length key ≡ 32) × (encode_ed25519_public_key key ≡ ok multibase)
unfolding decode_ed25519_public_key encode_ed25519_public_key
encode-decode_ed25519 [] h = absurd (cc)
encode-decode_ed25519 (c ∷ s) {key} h = elim (Bool-cases (c == b'z')) [
  | inl e ↦
      let (decoded, p, q) = >>=-eq-ok (base58_decode s) strip_multicodec (rw e at h) in
      let (form, n) = strip_multicodec_inv decoded q in
      let back : base58_encode (0xed ∷ 0x01 ∷ key) ≡ s = rw (← form) (encode-decode s p) in
      let z : c ≡ b'z' = ground arith in (n, rw (n, back, z))
  | inr e ↦ absurd (let no = rw e at h in cc)
]
