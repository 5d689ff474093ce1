-- ===== src/Gateway/Multibase.antt =====
-- packages/o-gateway-registry/src/did/multibase.ts: base58btc and the multibase form of an Ed25519
-- public key. A byte array is a list of numbers below 256; a thrown `Error` is an `err`.
pub mod Digits
pub mod Leading
pub mod Alphabet
pub mod RoundTrip
pub mod Keys
mod Tests
use olane.Common.{
  ℕ, zero, suc, ◌+◌, ◌*◌, ◌/◌, ◌%◌, Bool, not, ◌||◌, ◌&&◌, List, [], ◌∷◌, ◌++◌, map, reverse,
  Option, none, some, Text, codes, length, drop, if◌then◌else◌, ◌==◌, Result, ok, err, ◌>>=◌,
}

pub data Error : Type 0 where
  invalid_character : ℕ → Error
  bad_prefix : Error
  bad_multicodec : Error
  bad_length : ℕ → Error

abbrev pub alphabet : Text
alphabet = codes "123456789ABCDEFGHJKLMNPQRSTUVWXYZabcdefghijkmnopqrstuvwxyz"

-- `BASE58_ALPHABET[d]`; a digit is always below 58.
unfoldable pub char_at : Text → ℕ → ℕ
char_at [] d = 0
char_at (c ∷ s) zero = c
char_at (c ∷ s) (suc d) = char_at s d

-- `BASE58_INDEX[ch]`: the place of a character in the alphabet.
unfoldable pub index_from : ℕ → Text → ℕ → Option ℕ
index_from i [] ch = none
index_from i (c ∷ s) ch = if c == ch then some i else index_from (i + 1) s ch

unfoldable pub index : ℕ → Option ℕ
unfolding index_from
index ch = index_from 0 alphabet ch

-- `while (carry > 0) { digits.push(carry % b); carry = floor(carry / b); }` with fuel.
unfoldable pub flush : ℕ → ℕ → ℕ → List ℕ
flush b zero carry = []
flush b (suc fuel) carry =
    let rest = flush b fuel (carry / b) in if carry == 0 then [] else (carry % b) ∷ rest

-- One byte (or digit) goes into the little-endian number: multiply by `m`, add, and carry in base
-- `b`. The carry bounds the rounds of the `while` loop.
unfoldable pub absorb : ℕ → ℕ → ℕ → List ℕ → List ℕ
absorb m b carry [] = flush b carry carry
absorb m b carry (d ∷ ds) = let x = d * m + carry in (x % b) ∷ absorb m b (x / b) ds

unfoldable pub absorb_all : ℕ → ℕ → List ℕ → List ℕ → List ℕ
absorb_all m b ds [] = ds
absorb_all m b ds (x ∷ xs) = absorb_all m b (absorb m b x ds) xs

-- `while (zeros < s.length && s[zeros] === c) zeros += 1`.
unfoldable pub leading : ℕ → List ℕ → ℕ
leading c [] = 0
leading c (x ∷ xs) = let more = leading c xs in if x == c then suc more else 0

unfoldable pub repeat : ℕ → ℕ → List ℕ
repeat zero c = []
repeat (suc n) c = c ∷ repeat n c

unfoldable pub base58_encode : List ℕ → Text
base58_encode bytes =
    let zeros = leading 0 bytes in
    let digits = absorb_all 256 58 [] (drop zeros bytes) in
    repeat zeros b'1' ++ map (char_at alphabet) (reverse digits)

-- The decoding loop; `x & 0xff` and `x >>> 8` are `% 256` and `/ 256`, since `x` stays below 2 ^ 32
-- (`decode_fits`).
unfoldable pub decode_all : List ℕ → Text → Result Error (List ℕ)
decode_all bytes [] = ok bytes
decode_all bytes (ch ∷ s) = elim (index ch) [
  | none ↦ err (invalid_character ch)
  | some value ↦ decode_all (absorb 58 256 value bytes) s
]

unfoldable pub base58_decode : Text → Result Error (List ℕ)
base58_decode s =
    let zeros = leading b'1' s in
    decode_all [] (drop zeros s) >>= λ bytes. ok (repeat zeros 0 ++ reverse bytes)

-- `decoded.length !== 34 || decoded[0] !== 0xed || decoded[1] !== 0x01`, then `subarray(2)`.
unfoldable pub strip_multicodec : List ℕ → Result Error (List ℕ)
strip_multicodec (a ∷ b ∷ key) =
    if not (length key == 32) || not (a == 0xed) || not (b == 0x01)
    then err bad_multicodec
    else ok key
strip_multicodec _ = err bad_multicodec

unfoldable pub decode_ed25519_public_key : Text → Result Error (List ℕ)
decode_ed25519_public_key [] = err bad_prefix
decode_ed25519_public_key (c ∷ s) =
    if c == b'z' then base58_decode s >>= strip_multicodec else err bad_prefix

unfoldable pub encode_ed25519_public_key : List ℕ → Result Error Text
encode_ed25519_public_key raw_key =
    if length raw_key == 32
    then ok (b'z' ∷ base58_encode (0xed ∷ 0x01 ∷ raw_key))
    else err (bad_length (length raw_key))
