-- ===== src/Gateway/Multibase/RoundTrip.antt =====
-- base58 is decoded to what was encoded, and encoded to what was decoded.
use mathlib.Core.List.{reverse-reverse}
use olane.Common.{
  ℕ, zero, suc, ◌+◌, ◌*◌, ◌/◌, ◌^◌, ◌<◌, ◌≡◌, refl, ap, List, [], ◌∷◌, ◌++◌, map, reverse, some,
  Option-cases, Text, arith, All, inl, inr, drop, ok, >>=-eq-ok,
}
use olane.Gateway.Multibase.{
  alphabet, char_at, index, absorb, absorb_all, leading, repeat, base58_encode, decode_all,
  base58_decode,
}
use olane.Gateway.Multibase.Digits.{IsCanonical, absorb_all-IsCanonical}
use olane.Gateway.Multibase.Leading.{
  HeadNe, leading-repeat, drop-repeat, repeat-drop-leading, drop-leading-HeadNe, reverse-HeadNe,
  reverse-digits, absorb_all-inverse,
}
use olane.Gateway.Multibase.Alphabet.{index-char_at, char_at-index}

abbrev pub IsBytes : List ℕ → Type 0
IsBytes = All (λ b. b < 256)

abbrev IsDigits : List ℕ → Type 0
IsDigits = All (λ d. d < 58)

All-drop : (n : ℕ) (xs : List ℕ) → IsBytes xs → IsBytes (drop n xs)
All-drop zero xs h = h
All-drop (suc n) [] h = tt
All-drop (suc n) (x ∷ xs) (p, h) = All-drop n xs h

-- The empty number is canonical in every base.
IsCanonical-nil : (b : ℕ) → IsCanonical b []
IsCanonical-nil b = record { digits = tt; top = tt }

decode_all-map :
    (bytes xs : List ℕ)
    → IsDigits xs
    → decode_all bytes (map (char_at alphabet) xs) ≡ ok (absorb_all 58 256 bytes xs)
unfolding decode_all absorb_all
decode_all-map bytes [] h = refl
decode_all-map bytes (x ∷ xs) (p, h) =
    rw (index-char_at x p, decode_all) (decode_all-map (absorb 58 256 x bytes) xs h)

-- What the decoding loop accepts is the text of digits, absorbed in order.
decode_all_inv :
    (bytes : List ℕ) (s : Text) {out : List ℕ}
    → decode_all bytes s ≡ ok out
    → (xs : List ℕ) × IsDigits xs
      × (map (char_at alphabet) xs ≡ s)
      × (absorb_all 58 256 bytes xs ≡ out)
unfolding decode_all absorb_all
decode_all_inv bytes [] h = ([], tt, refl, cc)
decode_all_inv bytes (ch ∷ s) h = elim (Option-cases (index ch)) [
  | inl e ↦ absurd (let no = rw (e, decode_all) at h in cc)
  | inr (d, e) ↦
      let (xs, p, q, r) = decode_all_inv (absorb 58 256 d bytes) s (rw (e, decode_all) at h) in
      let (lt, same) = char_at-index ch d e in (d ∷ xs, (lt, p), cc, r)
]

index_one : index b'1' ≡ some 0
unfolding index
index_one = refl

char_at-HeadNe : (xs : List ℕ) → IsDigits xs → HeadNe 0 xs → HeadNe b'1' (map (char_at alphabet) xs)
char_at-HeadNe [] h k = tt
char_at-HeadNe (x ∷ xs) (p, h) k = λ e.
    let found : index b'1' ≡ some x = rw e at (index-char_at x p) in k (ground (arith, index_one))

HeadNe-char_at : (xs : List ℕ) → HeadNe b'1' (map (char_at alphabet) xs) → HeadNe 0 xs
unfolding char_at
HeadNe-char_at [] h = tt
HeadNe-char_at (x ∷ xs) h = λ e. h (rw e)

-- Any bytes, encoded and decoded again, come back, leading zeros included.
pub decode-encode :
    (bytes : List ℕ) → IsBytes bytes → base58_decode (base58_encode bytes) ≡ ok bytes
unfolding base58_encode base58_decode
decode-encode bytes h =
    let zeros = leading 0 bytes in
    let rest = drop zeros bytes in
    let digits = absorb_all 256 58 [] rest in
    let canonical =
      absorb_all-IsCanonical 58 (omega arith) 256 (omega arith) [] rest (IsCanonical-nil 58) in
    let good = reverse-digits 58 digits canonical.digits in
    let head = char_at-HeadNe (reverse digits) good (reverse-HeadNe digits canonical.top) in
    let back : absorb_all 58 256 [] (reverse digits) ≡ reverse rest =
      absorb_all-inverse 256 58 (omega arith) (omega arith) rest (All-drop zeros bytes h)
        (drop-leading-HeadNe 0 bytes) in
    rw
      (
        leading-repeat b'1' zeros (map (char_at alphabet) (reverse digits)) head,
        drop-repeat b'1' zeros (map (char_at alphabet) (reverse digits)),
        decode_all-map [] (reverse digits) good,
        back,
        reverse-reverse,
      )
      (ap ok (repeat-drop-leading 0 bytes))

encode_of_digits :
    (zeros : ℕ) (xs : List ℕ)
    → IsDigits xs
    → HeadNe 0 xs
    → base58_encode (repeat zeros 0 ++ reverse (absorb_all 58 256 [] xs))
      ≡ repeat zeros b'1' ++ map (char_at alphabet) xs
unfolding base58_encode
encode_of_digits zeros xs good head =
    let bytes = absorb_all 58 256 [] xs in
    let canonical =
      absorb_all-IsCanonical 256 (omega arith) 58 (omega arith) [] xs (IsCanonical-nil 256) in
    rw (
      leading-repeat 0 zeros (reverse bytes) (reverse-HeadNe bytes canonical.top),
      drop-repeat 0 zeros (reverse bytes),
      absorb_all-inverse 58 256 (omega arith) (omega arith) xs good head,
      reverse-reverse,
    )

-- Whatever text is accepted is the encoding of the bytes that it is decoded to: no two texts
-- decode to the same bytes.
pub encode-decode :
    (s : Text) {bytes : List ℕ} → base58_decode s ≡ ok bytes → base58_encode bytes ≡ s
unfolding base58_decode
encode-decode s {bytes} h =
    let zeros = leading b'1' s in
    let rest = drop zeros s in
    let (out, p, q) = >>=-eq-ok (decode_all [] rest) _ h in
    let (xs, good, same, absorbed) = decode_all_inv [] rest p in
    let head = HeadNe-char_at xs (rw (← same) at (drop-leading-HeadNe b'1' s)) in
    let form : bytes ≡ repeat zeros 0 ++ reverse (absorb_all 58 256 [] xs) = cc in
    rw (form, encode_of_digits zeros xs good head, same, repeat-drop-leading b'1' s)

-- In the decoding loop the product fits a machine word, and the carry stays below 58.
pub decode_fits :
    (byte carry : ℕ)
    → byte < 256
    → carry < 58
    → (byte * 58 + carry < 2 ^ 32) × ((byte * 58 + carry) / 256 < 58)
decode_fits byte carry h k = (omega arith, omega arith)
