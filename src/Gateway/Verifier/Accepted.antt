-- ===== src/Gateway/Verifier/Accepted.antt =====
-- What an accepted signature stands for.
use olane.Common.{
  ℕ, ◌≡◌, refl, sym, ap, ◌∙◌, Bool, true, false, List, [], ◌∷◌, ◌++◌, Option, none, some, Text,
  codes, text_eq, text_eq_iff, starts_with, starts_with-append, strip_prefix, split, length,
  if◌then◌else◌, ◌==◌, ==_iff, Result, ok, err, ◌>>=◌, >>=-eq-ok, arith,
}
use olane.Common.Json.{Fields}
use olane.Gateway.Canonical
use olane.Gateway.Canonical.{snapshot_signing_payload}
use olane.Gateway.Verifier.{
  Problem, DidDocument, path_of, url_of, url_behind, did_web_to_url, with_id, answered,
  resolve_did_web, find_verification_key, spki_prefix, ed25519_raw_to_spki, Signature,
  ed25519_verify, accepted, signed_text, verify_signed, verify_snapshot,
}

when_ok :
    {A : Type 0} {a : A} (b : Bool) (r : Result Problem A) (e : Problem)
    → (if b then r else err e) ≡ ok a
    → (b ≡ true) × (r ≡ ok a)
when_ok true r e h = (refl, h)
when_ok false r e h = absurd (cc)

module _ (crypto_verify : List ℕ → Text → Text → Bool)
    (documents : Text → Result Problem DidDocument) where
  -- A key of 32 bytes of the signer's document, in an envelope of 44 bytes, verifies the signature.
  abbrev pub Signed : Text → Signature → Text → Type 0
  Signed did s payload =
      (doc : DidDocument) × (key : List ℕ) × (s.algorithm ≡ codes "Ed25519")
      × (documents did ≡ ok doc)
      × (find_verification_key doc s.key_id ≡ ok key)
      × (length key ≡ 32)
      × (length (spki_prefix ++ key) ≡ 44)
      × (crypto_verify (spki_prefix ++ key) payload s.value ≡ true)

  accepted-true : (b : Bool) → accepted crypto_verify documents b ≡ ok tt → b ≡ true
  accepted-true true e = refl
  accepted-true false e = absurd (cc)

  ok_value : {A : Type 0} (x y : A) → Path (Result Problem A) (ok x) (ok y) → x ≡ y
  ok_value x y e = cc

  enveloped :
      (key spki : List ℕ)
      → ed25519_raw_to_spki key ≡ ok spki
      → (length key ≡ 32) × (spki ≡ spki_prefix ++ key)
  unfolding ed25519_raw_to_spki
  enveloped key spki e =
      let (b, q) = when_ok (length key == 32) (ok (spki_prefix ++ key)) Problem.wrong_length e in
      ((==_iff (length key) 32).0 b, sym (ok_value (spki_prefix ++ key) spki q))

  signed_text-ok :
      (payload : Result Canonical.Problem Text) (text : Text)
      → signed_text crypto_verify documents payload ≡ ok text
      → payload ≡ ok text
  signed_text-ok (ok t) text e = ap ok (ok_value t text e)
  signed_text-ok (err x) text e = absurd (cc)

  verify_signed_lem :
      (did : Text) (s : Signature) (payload : Result Canonical.Problem Text)
      → verify_signed crypto_verify documents did s payload ≡ ok tt
      → (text : Text) × (payload ≡ ok text) × Signed did s text
  unfolding verify_signed ed25519_verify
  verify_signed_lem did s payload e =
      let check : List ℕ → Text → Result Problem Unit = λ key text.
        ed25519_verify crypto_verify documents key text s.value
        >>= accepted crypto_verify documents in
      let of_key : List ℕ → Result Problem Unit =
        λ key. signed_text crypto_verify documents payload >>= check key in
      let of_document : DidDocument → Result Problem Unit =
        λ doc. find_verification_key doc s.key_id >>= of_key in
      let (alg, chain) =
        when_ok (text_eq s.algorithm (codes "Ed25519")) (documents did >>= of_document)
          Problem.unsupported_algorithm e in
      let (doc, d, from_doc) = >>=-eq-ok (documents did) of_document chain in
      let (key, k, from_key) = >>=-eq-ok (find_verification_key doc s.key_id) of_key from_doc in
      let (text, t, from_text) =
        >>=-eq-ok (signed_text crypto_verify documents payload) (check key) from_key in
      let (b, v, from_check) =
        >>=-eq-ok (ed25519_verify crypto_verify documents key text s.value)
          (accepted crypto_verify documents) from_text in
      let (spki, w, from_spki) =
        >>=-eq-ok (ed25519_raw_to_spki key) (λ spki. ok (crypto_verify spki text s.value)) v in
      let (size, envelope) = enveloped key spki w in
      (
        text,
        signed_text-ok payload text t,
        (
          doc,
          key,
          (text_eq_iff s.algorithm (codes "Ed25519")).0 alg,
          d,
          k,
          size,
          (omega arith),
          ap (λ x. crypto_verify x text s.value) (sym envelope)
              ∙ ok_value (crypto_verify spki text s.value) b from_spki
              ∙ accepted-true b from_check,
        ),
      )

  -- A snapshot that is accepted has a signature in the name of the expected maintainer, which a key of
  -- 32 bytes of the maintainer's document verifies, in an envelope of 44 bytes, over the canonical text
  -- of the snapshot without that signature.
  pub verify_snapshot_lem :
      (stringify : Text → Text) (expected : Text) (signature : Option Signature) (snapshot : Fields)
      → verify_snapshot crypto_verify documents stringify expected signature snapshot ≡ ok tt
      → (s : Signature) × (text : Text) × (signature ≡ some s)
        × (s.did ≡ expected)
        × (snapshot_signing_payload stringify snapshot ≡ ok text)
        × Signed s.did s text
  verify_snapshot_lem stringify expected none snapshot e = absurd (cc)
  verify_snapshot_lem stringify expected (some s) snapshot e =
      let payload = snapshot_signing_payload stringify snapshot in
      let (same, chain) =
        when_ok (text_eq s.did expected) (verify_signed crypto_verify documents s.did s payload)
          Problem.did_mismatch e in
      let (text, p, signed) = verify_signed_lem s.did s payload chain in
      (s, text, refl, (text_eq_iff s.did expected).0 same, p, signed)

with_id_lem :
    (did : Text) (found doc : DidDocument) (o : Option Text)
    → found.id ≡ o
    → with_id did found o ≡ ok doc
    → doc.id ≡ some did
with_id_lem did found doc none p e = absurd (cc)
with_id_lem did found doc (some i) p e =
    let (b, q) = when_ok (text_eq i did) (ok found) Problem.id_mismatch e in
    let same : found ≡ doc = same_document found doc q in
    ap (λ d. d.id) (sym same) ∙ (p ∙ ap some ((text_eq_iff i did).0 b))
  where
    same_document : (x y : DidDocument) → Path (Result Problem DidDocument) (ok x) (ok y) → x ≡ y
    same_document x y q = cc

answered_lem :
    (did : Text) (doc : DidDocument) (o : Option DidDocument)
    → answered did o ≡ ok doc
    → doc.id ≡ some did
answered_lem did doc none e = absurd (cc)
answered_lem did doc (some found) e = with_id_lem did found doc found.id refl e

url_https :
    (decode : Text → Text) (parts : List Text) (url : Text)
    → url_of decode false parts ≡ ok url
    → starts_with (codes "https://") url ≡ true
url_https decode [] url e = absurd (cc)
url_https decode ([] ∷ rest) url e = absurd (cc)
url_https decode ((c ∷ s) ∷ rest) url e =
    ap (starts_with (codes "https://"))
      (sym (same_url (codes "https://" ++ (decode (c ∷ s) ++ path_of decode rest)) url e))
    ∙ starts_with-append (codes "https://") (decode (c ∷ s) ++ path_of decode rest)
  where
    same_url : (x y : Text) → Path (Result Problem Text) (ok x) (ok y) → x ≡ y
    same_url x y q = cc

behind_https :
    (decode : Text → Text) (o : Option Text) (url : Text)
    → url_behind decode false o ≡ ok url
    → starts_with (codes "https://") url ≡ true
behind_https decode none url e = absurd (cc)
behind_https decode (some rest) url e = url_https decode (split b':' rest) url e

-- Unless plain HTTP is allowed, a document that is found for a DID was asked for by HTTPS, and names
-- that DID as its own.
pub resolve_did_web_lem :
    (decode : Text → Text) (fetch : Text → Option DidDocument) (did : Text) (doc : DidDocument)
    → resolve_did_web decode false fetch did ≡ ok doc
    → (doc.id ≡ some did)
      × ((url : Text) × (did_web_to_url decode false did ≡ ok url)
          × (answered did (fetch url) ≡ ok doc)
          × (starts_with (codes "https://") url ≡ true))
unfolding resolve_did_web did_web_to_url
resolve_did_web_lem decode fetch did doc e =
    let (url, u, a) =
      >>=-eq-ok (did_web_to_url decode false did) (λ url. answered did (fetch url)) e in
    (
      answered_lem did doc (fetch url) a,
      (url, u, a, behind_https decode (strip_prefix (codes "did:web:") did) url u),
    )
