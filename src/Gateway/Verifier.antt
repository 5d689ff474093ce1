-- ===== src/Gateway/Verifier.antt =====
-- packages/o-gateway-registry/src/did/did-web-resolver.ts and did-web-snapshot-verifier.ts: where a DID
-- document is found, and which signatures are accepted. `decodeURIComponent`, the answer to a request
-- for a URL, `JSON.stringify` of a string and the check of node:crypto are parameters. What is signed is
-- the canonical text of packages/o-gateway-registry/src/canonical; a snapshot or an entry stands here as
-- the fields that it has, with its signature once more by itself.
pub mod Accepted
mod Tests
use olane.Common.{
  ℕ, Bool, true, false, not, ◌&&◌, ◌||◌, List, [], ◌∷◌, ◌++◌, Option, none, some, Text, codes,
  text_eq, starts_with, strip_prefix, split, map, length, if◌then◌else◌, ◌==◌, Result, ok, err,
  ◌>>=◌, Dict, get, set, delete,
}
use olane.Common.Json.{Fields}
use olane.Gateway.Canonical
use olane.Gateway.Canonical.{entry_signing_payload, snapshot_signing_payload}
use olane.Gateway.Multibase.{decode_ed25519_public_key}

pub data Problem : Type 0 where
  not_did_web missing_host resolution_failed invalid_id id_mismatch : Problem
  no_key unsupported_method missing_key bad_key wrong_length : Problem
  no_signature did_mismatch unsupported_algorithm not_verified : Problem
  not_canonical : Canonical.Problem → Problem

abbrev pub ends_with_part : Text → Text → Bool
ends_with_part p [] = text_eq p []
ends_with_part p (c ∷ s) = text_eq p (c ∷ s) || ends_with_part p s

abbrev pub join_parts : List Text → Text
join_parts [] = []
join_parts (s ∷ []) = s
join_parts (s ∷ t ∷ rest) = s ++ (b'/' ∷ join_parts (t ∷ rest))

abbrev pub path_of : (Text → Text) → List Text → Text
path_of decode [] = codes "/.well-known/did.json"
path_of decode (s ∷ rest) = b'/' ∷ (join_parts (map decode (s ∷ rest)) ++ codes "/did.json")

abbrev pub protocol_of : Bool → Text → Text
protocol_of allow_http host =
    if allow_http
      && (text_eq host (codes "localhost")
          || starts_with (codes "127.0.0.1") host
          || ends_with_part (codes ":localhost") host)
    then codes "http"
    else codes "https"

abbrev pub url_of : (Text → Text) → Bool → List Text → Result Problem Text
url_of decode allow_http [] = err missing_host
url_of decode allow_http ([] ∷ rest) = err missing_host
url_of decode allow_http ((c ∷ s) ∷ rest) =
    let host = decode (c ∷ s) in
    ok (protocol_of allow_http host ++ (codes "://" ++ (host ++ path_of decode rest)))

abbrev pub url_behind : (Text → Text) → Bool → Option Text → Result Problem Text
url_behind decode allow_http none = err not_did_web
url_behind decode allow_http (some rest) = url_of decode allow_http (split b':' rest)

unfoldable pub did_web_to_url : (Text → Text) → Bool → Text → Result Problem Text
did_web_to_url decode allow_http did =
    url_behind decode allow_http (strip_prefix (codes "did:web:") did)

pub record VerificationMethod : Type 0 where
  pub id : Text
  pub type : Text
  pub public_key_multibase : Option Text

pub record DidDocument : Type 0 where
  pub id : Option Text
  pub verification_method : List VerificationMethod

abbrev pub with_id : Text → DidDocument → Option Text → Result Problem DidDocument
with_id did doc none = err invalid_id
with_id did doc (some i) = if text_eq i did then ok doc else err id_mismatch

abbrev pub answered : Text → Option DidDocument → Result Problem DidDocument
answered did none = err resolution_failed
answered did (some doc) = with_id did doc doc.id

-- `none` is an answer that is not `ok`, or no answer.
unfoldable pub resolve_did_web :
    (Text → Text) → Bool → (Text → Option DidDocument) → Text → Result Problem DidDocument
resolve_did_web decode allow_http fetch did =
    did_web_to_url decode allow_http did >>= λ url. answered did (fetch url)

-- `resolveDid`: the documents that were found are kept, and a failure is not.
abbrev pub remembered :
    Text
    → Dict DidDocument
    → Result Problem DidDocument
    → Result Problem DidDocument × Dict DidDocument
remembered did cache (err e) = (err e, delete did cache)
remembered did cache (ok doc) = (ok doc, set did doc cache)

abbrev pub cached_or :
    Result Problem DidDocument
    → Text
    → Dict DidDocument
    → Option DidDocument
    → Result Problem DidDocument × Dict DidDocument
cached_or resolved did cache (some doc) = (ok doc, cache)
cached_or resolved did cache none = remembered did cache resolved

unfoldable pub resolve_did :
    Result Problem DidDocument
    → Text
    → Dict DidDocument
    → Result Problem DidDocument × Dict DidDocument
resolve_did resolved did cache = cached_or resolved did cache (get did cache)

abbrev pub decoded : Option Text → Result Problem (List ℕ)
decoded none = err missing_key
decoded (some []) = err missing_key
decoded (some (c ∷ s)) = elim (decode_ed25519_public_key (c ∷ s)) [
  | err e ↦ err bad_key
  | ok k ↦ ok k
]

unfoldable pub extract_ed25519_key : VerificationMethod → Result Problem (List ℕ)
extract_ed25519_key m =
    if text_eq m.type (codes "Ed25519VerificationKey2020")
    then decoded m.public_key_multibase
    else err unsupported_method

unfoldable pub find_method : Text → List VerificationMethod → Result Problem (List ℕ)
find_method key_id [] = err no_key
find_method key_id (m ∷ ms) =
    let later = find_method key_id ms in
    if text_eq m.id key_id then extract_ed25519_key m else later

unfoldable pub find_verification_key : DidDocument → Text → Result Problem (List ℕ)
find_verification_key doc key_id = find_method key_id doc.verification_method

abbrev pub spki_prefix : List ℕ
spki_prefix = 48 ∷ 42 ∷ 48 ∷ 5 ∷ 6 ∷ 3 ∷ 43 ∷ 101 ∷ 112 ∷ 3 ∷ 33 ∷ 0 ∷ []

unfoldable pub ed25519_raw_to_spki : List ℕ → Result Problem (List ℕ)
ed25519_raw_to_spki raw = if length raw == 32 then ok (spki_prefix ++ raw) else err wrong_length

pub record Signature : Type 0 where
  pub did : Text
  pub key_id : Text
  pub algorithm : Text
  pub value : Text

module _ (crypto_verify : List ℕ → Text → Text → Bool)
    (documents : Text → Result Problem DidDocument) where
  unfoldable pub ed25519_verify : List ℕ → Text → Text → Result Problem Bool
  ed25519_verify key payload signature =
      ed25519_raw_to_spki key >>= λ spki. ok (crypto_verify spki payload signature)

  -- The text that was signed, or what `canonicalize` throws.
  abbrev pub signed_text : Result Canonical.Problem Text → Result Problem Text
  signed_text (ok t) = ok t
  signed_text (err e) = err (not_canonical e)

  abbrev pub accepted : Bool → Result Problem Unit
  accepted true = ok tt
  accepted false = err not_verified

  -- What both verifications end with.
  unfoldable pub verify_signed :
      Text → Signature → Result Canonical.Problem Text → Result Problem Unit
  verify_signed did s payload =
      if text_eq s.algorithm (codes "Ed25519")
      then (documents did >>= λ doc. find_verification_key doc s.key_id >>= λ key.
          signed_text payload >>= λ text. ed25519_verify key text s.value >>= accepted)
      else err unsupported_algorithm

  module _ (stringify : Text → Text) where
    abbrev pub verify_entry : Text → Option Signature → Fields → Result Problem Unit
    verify_entry operator_did none entry = err no_signature
    verify_entry operator_did (some s) entry =
        verify_signed operator_did s (entry_signing_payload stringify entry)

    abbrev pub verify_snapshot : Text → Option Signature → Fields → Result Problem Unit
    verify_snapshot expected none snapshot = err no_signature
    verify_snapshot expected (some s) snapshot =
        if text_eq s.did expected
        then verify_signed s.did s (snapshot_signing_payload stringify snapshot)
        else err did_mismatch
