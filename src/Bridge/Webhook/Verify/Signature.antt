-- ===== src/Bridge/Webhook/Verify/Signature.antt =====
-- What a signature must be: the prefix, then the digest of this body in hexadecimal.
use sinfonia.Base.{
  ℕ, ◌+◌, ◌*◌, ◌/◌, ◌%◌, ◌<◌, ◌≡◌, ◌↔◌, refl, sym, ap, ltb, true, Option, none, some, List, [], ◌∷◌,
  ◌++◌, All, length, arith, if◌then◌else◌, ◌⊎◌, inl, inr, ◌≤◌, ◌==◌, ◌∙◌, Bool-cases,
}
use sinfonia.Bridge.Webhook.Verify.{
  Verdict, accept, refuse, signature_prefix, strip_prefix, hex_nibble, ◌>>=◌, decode_pairs,
  decode_hex, bytes_eq, compare_digest, verify_supplied, verify_stripped, verify_signature,
}

-- The digits of GitHub's header: lower case
abbrev pub hex_digit : ℕ → ℕ
hex_digit n = if ltb n 10 then n + 48 else n + 87

abbrev pub encode_hex : List ℕ → List ℕ
encode_hex [] = []
encode_hex (b ∷ bs) = hex_digit (b / 16) ∷ hex_digit (b % 16) ∷ encode_hex bs

hex_nibble-digit : (n : ℕ) → n < 16 → hex_nibble (hex_digit n) ≡ accept n
unfolding hex_nibble
hex_nibble-digit n h = ground (arith, h)

length-encode : (bs : List ℕ) → length (encode_hex bs) % 2 ≡ 0
length-encode [] = refl
length-encode (b ∷ bs) = omega (arith, length-encode bs)

whole : (b : ℕ) → b / 16 * 16 + b % 16 ≡ b
whole b = omega arith

decode_pairs-encode :
    (bs : List ℕ) → All (λ b. b < 256) bs → decode_pairs (encode_hex bs) ≡ accept bs
unfolding decode_pairs
decode_pairs-encode [] h = refl
decode_pairs-encode (b ∷ bs) h =
    rw
      (
        hex_nibble-digit (b / 16) (omega (arith, h.0)),
        hex_nibble-digit (b % 16) (omega arith),
        decode_pairs-encode bs h.1,
      )
      (ap (λ n. accept (n ∷ bs)) (whole b))

-- A header that GitHub writes is read back.
decode_hex-encode : (bs : List ℕ) → All (λ b. b < 256) bs → decode_hex (encode_hex bs) ≡ accept bs
unfolding decode_hex
decode_hex-encode bs h = rw (length-encode bs) (decode_pairs-encode bs h)

bytes_eq_iff : (xs ys : List ℕ) → (bytes_eq xs ys ≡ true) ↔ (xs ≡ ys)
unfolding bytes_eq
bytes_eq_iff [] [] = (λ _. refl, λ _. refl)
bytes_eq_iff [] (y ∷ ys) = (λ e. cc e, λ e. cc e)
bytes_eq_iff (x ∷ xs) [] = (λ e. cc e, λ e. cc e)
bytes_eq_iff (x ∷ xs) (y ∷ ys) =
    let ih = bytes_eq_iff xs ys in
    (
      λ e.
          let first : x ≡ y = ground (arith, e) in
          let rest : xs ≡ ys = ih.0 (ground (arith, e)) in cc (first, rest),
      λ e.
          let first : x ≡ y = cc e in
          let rest : bytes_eq xs ys ≡ true = ih.1 (cc e) in ground (arith, first, rest),
    )

strip_prefix_lem : (p s : List ℕ) (rest : List ℕ) → (strip_prefix p s ≡ some rest) ↔ (s ≡ p ++ rest)
unfolding strip_prefix
strip_prefix_lem [] s rest = (λ e. cc e, λ e. cc e)
strip_prefix_lem (p ∷ ps) [] rest = (λ e. cc e, λ e. cc e)
strip_prefix_lem (p ∷ ps) (c ∷ s) rest =
    let ih = strip_prefix_lem ps s rest in
    (
      λ e.
          let first : p ≡ c = ground (arith, e) in
          let tail : s ≡ ps ++ rest = ih.0 (ground (arith, e)) in cc (first, tail),
      λ e.
          let first : c ≡ p = cc e in
          let tail : strip_prefix ps s ≡ some rest = ih.1 (cc e) in ground (arith, first, tail),
    )

compare_digest_iff :
    (expected supplied : List ℕ)
    → (compare_digest expected supplied ≡ accept tt) ↔ (supplied ≡ expected)
unfolding compare_digest
compare_digest_iff expected supplied = (
  λ e. sym ((bytes_eq_iff expected supplied).0 (ground (arith, e))),
  λ e. rw e (ground (arith, (bytes_eq_iff expected expected).1 refl)),
)

supplied_lem :
    (expected : List ℕ) (v : Verdict (List ℕ))
    → (verify_supplied expected v ≡ accept tt) ↔ (v ≡ accept expected)
supplied_lem expected (refuse e) = (λ h. cc h, λ h. cc h)
supplied_lem expected (accept supplied) =
    let digest = compare_digest_iff expected supplied in
    (λ h. ap accept (digest.0 h), λ h. digest.1 (cc h))

-- The digit of a value, in either case
abbrev pub IsDigit : ℕ → ℕ → Type 0
IsDigit c v =
    ((c ≡ v + 48) × (v < 10))
    ⊎ ((c ≡ v + 87) × (10 ≤ v) × (v < 16))
    ⊎ ((c ≡ v + 55) × (10 ≤ v) × (v < 16))

-- A text of two digits for each byte
abbrev pub IsHex : List ℕ → List ℕ → Type 0
IsHex [] [] = Unit
IsHex [] (d ∷ ds) = ⊥
IsHex (a ∷ []) ds = ⊥
IsHex (a ∷ b ∷ rest) [] = ⊥
IsHex (a ∷ b ∷ rest) (d ∷ ds) =
    ((hi : ℕ) × (lo : ℕ) × IsDigit a hi × IsDigit b lo × (d ≡ hi * 16 + lo)) × IsHex rest ds

hex_nibble_iff : (c v : ℕ) → (hex_nibble c ≡ accept v) ↔ IsDigit c v
unfolding hex_nibble
hex_nibble_iff c v = (λ h. ground (arith, h), λ h. ground (arith, h))

-- A pair of digits, decoded
chain :
    (a b : Verdict ℕ) (rest : Verdict (List ℕ)) (ds : List ℕ)
    → ((a >>= λ hi. b >>= λ lo. rest >>= λ bytes. accept ((hi * 16 + lo) ∷ bytes)) ≡ accept ds)
    → (hi : ℕ) × (lo : ℕ) × (bytes : List ℕ) × (a ≡ accept hi)
      × (b ≡ accept lo)
      × (rest ≡ accept bytes)
      × (ds ≡ (hi * 16 + lo) ∷ bytes)
chain (refuse e) b rest ds h = absurd (cc h)
chain (accept hi) (refuse e) rest ds h = absurd (cc h)
chain (accept hi) (accept lo) (refuse e) ds h = absurd (cc h)
chain (accept hi) (accept lo) (accept bytes) ds h = (hi, lo, bytes, refl, refl, refl, cc h)

decode_pairs_iff : (s ds : List ℕ) → (decode_pairs s ≡ accept ds) ↔ IsHex s ds
unfolding decode_pairs
decode_pairs_iff [] [] = (λ h. tt, λ h. refl)
decode_pairs_iff [] (d ∷ ds) = (λ h. cc h, λ h. absurd h)
decode_pairs_iff (a ∷ []) ds = (λ h. cc h, λ h. absurd h)
decode_pairs_iff (a ∷ b ∷ rest) [] = (
  λ h. let c = chain (hex_nibble a) (hex_nibble b) (decode_pairs rest) [] h in cc (c.6),
  λ h. absurd h,
)
decode_pairs_iff (a ∷ b ∷ rest) (d ∷ ds) = (
  λ h.
      let c = chain (hex_nibble a) (hex_nibble b) (decode_pairs rest) (d ∷ ds) h in
      (
        (c.0, c.1, (hex_nibble_iff a c.0).0 c.3, (hex_nibble_iff b c.1).0 c.4, cc (c.6)),
        (decode_pairs_iff rest ds).0 (c.5 ∙ ap accept (cc (c.6))),
      ),
  λ h.
      rw
        (
          (hex_nibble_iff a h.0.0).1 h.0.2,
          (hex_nibble_iff b h.0.1).1 h.0.3,
          (decode_pairs_iff rest ds).1 h.1,
        )
        (ap (λ n. accept (n ∷ ds)) (sym h.0.4)),
)

IsHex-length : (s ds : List ℕ) → IsHex s ds → length s % 2 ≡ 0
IsHex-length [] [] h = refl
IsHex-length [] (d ∷ ds) h = absurd h
IsHex-length (a ∷ []) ds h = absurd h
IsHex-length (a ∷ b ∷ rest) [] h = absurd h
IsHex-length (a ∷ b ∷ rest) (d ∷ ds) h = omega (arith, IsHex-length rest ds h.1)

decode_hex_iff : (s ds : List ℕ) → (decode_hex s ≡ accept ds) ↔ IsHex s ds
unfolding decode_hex
decode_hex_iff s ds = (
  λ h. elim (Bool-cases (length s % 2 == 0)) [
    | inl e ↦ (decode_pairs_iff s ds).0 (rw (e) at h)
    | inr e ↦ cc (rw (e) at h)
  ],
  λ h. rw (IsHex-length s ds h) ((decode_pairs_iff s ds).1 h),
)

-- The digest that a header carries
abbrev pub Carries : List ℕ → Option (List ℕ) → Type 0
Carries digest header =
    (hex : List ℕ) × (header ≡ some (signature_prefix ++ hex)) × IsHex hex digest

stripped_lem :
    (expected header : List ℕ) (o : Option (List ℕ))
    → strip_prefix signature_prefix header ≡ o
    → verify_stripped expected o ≡ accept tt
    → Carries expected (some header)
stripped_lem expected header none e h = absurd (cc h)
stripped_lem expected header (some hex) e h = (
  hex,
  ap some ((strip_prefix_lem signature_prefix header hex).0 e),
  (decode_hex_iff hex expected).0 ((supplied_lem expected (decode_hex hex)).0 h),
)

module _ (hmac_sha256 : List ℕ → List ℕ → List ℕ) where
  -- A delivery is accepted exactly when its header is the prefix followed by two hexadecimal digits, in
  -- either case, for each byte of the digest of its body under the secret.
  pub verify_iff :
      (body : List ℕ) (header : Option (List ℕ)) (secret : List ℕ)
      → (verify_signature hmac_sha256 body header secret ≡ accept tt)
        ↔ Carries (hmac_sha256 secret body) header
  unfolding verify_signature
  verify_iff body none secret = (λ h. cc h, λ c. cc c.1)
  verify_iff body (some header) secret = (
    λ h.
        stripped_lem (hmac_sha256 secret body) header (strip_prefix signature_prefix header) refl h,
    λ c.
        let found : strip_prefix signature_prefix header ≡ some c.0 =
          (strip_prefix_lem signature_prefix header c.0).1 (cc c.1) in
        rw found (
          (supplied_lem (hmac_sha256 secret body) (decode_hex c.0)).1
            ((decode_hex_iff c.0 (hmac_sha256 secret body)).1 c.2)),
  )

  -- The header that GitHub writes, the digest in lower case, is accepted.
  pub verify_genuine :
      (body secret : List ℕ)
      → All (λ b. b < 256) (hmac_sha256 secret body)
      → verify_signature hmac_sha256 body
          (some (signature_prefix ++ encode_hex (hmac_sha256 secret body)))
          secret
        ≡ accept tt
  verify_genuine body secret bytes =
      (verify_iff body (some (signature_prefix ++ encode_hex (hmac_sha256 secret body))) secret).1 (
        encode_hex (hmac_sha256 secret body),
        refl,
        (decode_hex_iff (encode_hex (hmac_sha256 secret body)) (hmac_sha256 secret body)).0
            (decode_hex-encode (hmac_sha256 secret body) bytes),
      )
