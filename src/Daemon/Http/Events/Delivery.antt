-- ===== src/Daemon/Http/Events/Delivery.antt =====
-- A delivery ends with its first success, or after five attempts, with a pause that doubles between them.
use sinfonia.Base.{
  ℕ, zero, suc, ◌+◌, ◌*◌, ◌^◌, ◌≤◌, ◌≡◌, ◌⊎◌, inl, inr, refl, true, false, List, [], ◌∷◌, arith,
  Bool-cases,
}
use sinfonia.Daemon.Http.Events.{
  Reply, is_success, Step, attempted, slept, deliver_from, deliver_with_retry,
}

abbrev pub attempts : List Step → ℕ
attempts [] = 0
attempts (attempted n ∷ rest) = suc (attempts rest)
attempts (slept ms ∷ rest) = attempts rest

abbrev pub slept_ms : List Step → ℕ
slept_ms [] = 0
slept_ms (attempted n ∷ rest) = slept_ms rest
slept_ms (slept ms ∷ rest) = ms + slept_ms rest

-- The attempts 1 to `n` fail.
abbrev pub AllFail : (ℕ → Reply) → ℕ → Type 0
AllFail reply zero = Unit
AllFail reply (suc n) = AllFail reply n × (is_success (reply (suc n)) ≡ false)

-- Some attempts, of which the last alone may succeed
abbrev pub Ends : (ℕ → Reply) → List Step → Type 0
Ends reply steps =
    (n : ℕ) × (attempts steps ≡ suc n)
    × (n ≤ 4)
    × (slept_ms steps + 250 ≡ 250 * 2 ^ n)
    × AllFail reply n
    × ((is_success (reply (suc n)) ≡ true) ⊎ (n ≡ 4))

-- A delivery makes between one and five attempts and pauses 250 * (2 ^ (attempts - 1) - 1)
-- milliseconds in all. All its attempts but the last fail, and the last succeeds or is the fifth.
pub deliver_with_retry-Ends : (reply : ℕ → Reply) → Ends reply (deliver_with_retry reply)
unfolding deliver_with_retry deliver_from
deliver_with_retry-Ends reply = elim (Bool-cases (is_success (reply 1))) [
  | inl a ↦ rw (a) (0, refl, omega arith, refl, tt, inl a)
  | inr a ↦ rw (a) (elim (Bool-cases (is_success (reply 2))) [
    | inl b ↦ rw (b) (1, refl, omega arith, refl, (tt, a), inl b)
    | inr b ↦ rw (b) (elim (Bool-cases (is_success (reply 3))) [
      | inl c ↦ rw (c) (2, refl, omega arith, refl, ((tt, a), b), inl c)
      | inr c ↦ rw (c) (elim (Bool-cases (is_success (reply 4))) [
        | inl d ↦ rw (d) (3, refl, omega arith, refl, (((tt, a), b), c), inl d)
        | inr d ↦ rw (d) (elim (Bool-cases (is_success (reply 5))) [
          | inl e ↦ rw (e) (4, refl, omega arith, refl, ((((tt, a), b), c), d), inr refl)
          | inr e ↦ rw (e) (4, refl, omega arith, refl, ((((tt, a), b), c), d), inr refl)
        ])
      ])
    ])
  ])
]
