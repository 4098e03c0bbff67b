-- ===== src/Bridge/Webhook/Verify.antt =====
-- crates/sinfonia-bridge/src/webhook/verify.rs: the signature of a delivery. Texts are their bytes;
-- `hmac_sha256` is the digest of a secret and a body. An error is its cause, whose message is left out.
pub mod Signature
use sinfonia.Base.{
  ℕ, ◌+◌, ◌-◌, ◌*◌, ◌%◌, ◌==◌, leb, Bool, true, false, ◌&&◌, not, Option, none, some, List, [], ◌∷◌,
  length, if◌then◌else◌,
}

pub data Refusal : Type 0 where
  missing_header missing_prefix odd_length length_mismatch mismatch : Refusal
  non_hex_byte : ℕ → Refusal

pub data Verdict {ℓ} (A : Type ℓ) : Type ℓ where
  accept : A → Verdict A
  refuse : Refusal → Verdict A

-- "sha256="
abbrev pub signature_prefix : List ℕ
signature_prefix = 115 ∷ 104 ∷ 97 ∷ 50 ∷ 53 ∷ 54 ∷ 61 ∷ []

unfoldable pub strip_prefix : List ℕ → List ℕ → Option (List ℕ)
strip_prefix [] s = some s
strip_prefix (p ∷ ps) [] = none
strip_prefix (p ∷ ps) (c ∷ s) = let rest = strip_prefix ps s in if p == c then rest else none

unfoldable pub hex_nibble : ℕ → Verdict ℕ
hex_nibble b =
    if leb 48 b && leb b 57
    then accept (b - 48)
    else if leb 97 b && leb b 102
    then accept (b - 97 + 10)
    else if leb 65 b && leb b 70
    then accept (b - 65 + 10)
    else refuse (non_hex_byte b)

infixl 5 ◌>>=◌
abbrev pub ◌>>=◌ : {A B : Type 0} → Verdict A → (A → Verdict B) → Verdict B
◌>>=◌ (accept a) f = f a
◌>>=◌ (refuse e) f = refuse e

-- `(hi << 4) | lo` on half bytes
unfoldable pub decode_pairs : List ℕ → Verdict (List ℕ)
decode_pairs [] = accept []
decode_pairs (a ∷ []) = refuse odd_length
decode_pairs (a ∷ b ∷ rest) = do
  hi ← hex_nibble a
  lo ← hex_nibble b
  bytes ← decode_pairs rest
  accept ((hi * 16 + lo) ∷ bytes)

unfoldable pub decode_hex : List ℕ → Verdict (List ℕ)
decode_hex s = if not (length s % 2 == 0) then refuse odd_length else decode_pairs s

-- The comparison in constant time, by its result
unfoldable pub bytes_eq : List ℕ → List ℕ → Bool
bytes_eq [] [] = true
bytes_eq [] (b ∷ bs) = false
bytes_eq (a ∷ xs) [] = false
bytes_eq (a ∷ xs) (b ∷ ys) = a == b && bytes_eq xs ys

unfoldable pub compare_digest : List ℕ → List ℕ → Verdict (Unit {0})
compare_digest expected supplied =
    if not (length expected == length supplied)
    then refuse length_mismatch
    else if bytes_eq expected supplied
    then accept tt
    else refuse mismatch

-- The supplied bytes, and the text behind the prefix
abbrev pub verify_supplied : List ℕ → Verdict (List ℕ) → Verdict (Unit {0})
verify_supplied expected (refuse e) = refuse e
verify_supplied expected (accept supplied) = compare_digest expected supplied

abbrev pub verify_stripped : List ℕ → Option (List ℕ) → Verdict (Unit {0})
verify_stripped expected none = refuse missing_prefix
verify_stripped expected (some hex) = verify_supplied expected (decode_hex hex)

module _ (hmac_sha256 : List ℕ → List ℕ → List ℕ) where
  unfoldable pub verify_signature : List ℕ → Option (List ℕ) → List ℕ → Verdict (Unit {0})
  verify_signature body none secret = refuse missing_header
  verify_signature body (some header) secret =
      verify_stripped (hmac_sha256 secret body) (strip_prefix signature_prefix header)
