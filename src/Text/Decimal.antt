-- ===== src/Text/Decimal.antt =====
-- Decimal print, `%d` of an unsigned number below 10 ^ 20: every `uint64`.
use rr_dns.Prelude.{
  ℕ, zero, suc, ◌+◌, ◌/◌, ◌%◌, [], ◌∷◌, ltb, if◌then◌else◌, ◌≡◌, refl, arith, All, ◌^◌, ◌≤◌,
}
use rr_dns.Prelude.Bytes.{Bytes, codes}

-- The digits in front of `out`; one round for each digit.
unfoldable pub digits : ℕ → ℕ → Bytes → Bytes
digits zero n out = out
digits (suc f) n out =
    let more = digits f (n / 10) ((b'0' + n % 10) ∷ out) in
    if ltb n 10 then (b'0' + n) ∷ out else more

unfoldable pub decimal : ℕ → Bytes
unfolding digits
decimal n = digits 20 n []

-- Every byte of a decimal print is a digit.
digits-All :
    (f n : ℕ) (out : Bytes)
    → All (λ c. (b'0' ≤ c) × (c ≤ b'9')) out
    → All (λ c. (b'0' ≤ c) × (c ≤ b'9')) (digits f n out)
unfolding digits
digits-All zero n out h = h
digits-All (suc f) n out h = ground (arith, digits-All f (n / 10) ((b'0' + n % 10) ∷ out))

pub decimal-All : (n : ℕ) → All (λ c. (b'0' ≤ c) × (c ≤ b'9')) (decimal n)
unfolding decimal
decimal-All n = digits-All 20 n [] tt

max_u64_decimal : decimal (2 ^ 64) ≡ codes "18446744073709551616"
unfolding decimal
max_u64_decimal = refl
