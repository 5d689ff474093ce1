-- ===== src/Gateway/Verifier/Tests.antt =====
-- Witnesses of the verifier.
use olane.Common.{
  ℕ, ◌≡◌, refl, Bool, false, List, [], ◌∷◌, ◌++◌, Option, none, some, Text, codes, text_eq,
  starts_with, strip_prefix, split, cons_head, if◌then◌else◌, ok,
}
use olane.Common.Json.{null, string, Fields, field, closed}
use olane.Gateway.Canonical.{
  omit, canonicalize, text_le, insert, sort, join, member, members, snapshot_signing_payload,
}
use olane.Gateway.Multibase.{
  index, char_at, flush, absorb, absorb_all, leading, repeat, decode_all, base58_encode,
  base58_decode, strip_multicodec, decode_ed25519_public_key,
}
use olane.Gateway.Verifier.{
  DidDocument, Signature, did_web_to_url, resolve_did_web, find_method, find_verification_key,
  extract_ed25519_key, ed25519_raw_to_spki, ed25519_verify, verify_signed, verify_snapshot,
}
use olane.Gateway.Verifier.Accepted.{Signed, verify_snapshot_lem}

abbrev key : List ℕ
key = codes "an Ed25519 key of 32 plain bytes"

abbrev did : Text
did = codes "did:web:reg.org:keys"

abbrev document : DidDocument
document = record {
  id = some did;
  verification_method =
      record {
        id = codes "#k";
        type = codes "Ed25519VerificationKey2020";
        public_key_multibase = some (b'z' ∷ base58_encode (0xed ∷ 0x01 ∷ key));
      }
      ∷ [];
}

abbrev signature : Signature
signature = record {
  did = did;
  key_id = codes "#k";
  algorithm = codes "Ed25519";
  value = codes "sig";
}

abbrev check : List ℕ → Text → Text → Bool
check spki payload value = text_eq value (codes "sig")

abbrev fetch : Text → Option DidDocument
fetch url = if text_eq url (codes "https://reg.org/keys/did.json") then some document else none

found : resolve_did_web (λ s. s) false fetch did ≡ ok document
unfolding resolve_did_web did_web_to_url text_eq starts_with strip_prefix split cons_head
found = refl

-- A snapshot without entries.
abbrev snapshot : Fields
snapshot =
    field (codes "commit") (string (codes "c0")) (field (codes "maintainerSignature") null closed)

abbrev quoted : Text → Text
quoted s = b'"' ∷ (s ++ codes "\"")

verified :
    verify_snapshot check
      (resolve_did_web (λ s. s) false fetch)
      quoted
      did
      (some signature)
      snapshot
    ≡ ok tt
unfolding resolve_did_web did_web_to_url text_eq starts_with strip_prefix split cons_head
    find_method find_verification_key extract_ed25519_key ed25519_raw_to_spki ed25519_verify
    verify_signed base58_encode base58_decode char_at index flush absorb absorb_all leading repeat
    decode_all strip_multicodec decode_ed25519_public_key snapshot_signing_payload omit canonicalize
    text_le insert sort join member members
verified = refl

verify_snapshot_lem_example :
    (s : Signature) × (text : Text) × (some signature ≡ some s)
    × (s.did ≡ did)
    × (snapshot_signing_payload quoted snapshot ≡ ok text)
    × Signed check (resolve_did_web (λ s. s) false fetch) s.did s text
verify_snapshot_lem_example =
    verify_snapshot_lem check (resolve_did_web (λ s. s) false fetch) quoted did (some signature)
      snapshot verified
