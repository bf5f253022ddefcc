-- ===== src/Text/Numbers.antt =====
-- A number that was printed in decimal is read back.
use rr_dns.Prelude.{
  ℕ, zero, suc, ◌+◌, ◌*◌, ◌/◌, ◌%◌, ◌^◌, ◌<◌, ◌≤◌, [], ◌∷◌, ltb, all, true, some, All, Bool-cases,
  inl, inr, ◌≡◌, ◌≢◌, refl, ap, ◌∙◌, lt→ltb, arith,
}
use rr_dns.Prelude.Bytes.{Bytes}
use rr_dns.Text.Decimal.{digits, decimal, decimal-All}
use rr_dns.Text.Fields.{is_digit, value, parse_uint}

-- One digit more for each round.
abbrev pub bound : ℕ → ℕ
bound zero = 1
bound (suc f) = 10 * bound f

value-digits : (f n : ℕ) (out : Bytes) → n < bound f → value 0 (digits f n out) ≡ value n out
unfolding value digits
value-digits zero n out h = ground arith
value-digits (suc f) n out h = elim (Bool-cases (ltb n 10)) [
  | inl small ↦ rw small (ground arith)
  | inr large ↦
      rw large (value-digits f (n / 10) ((b'0' + n % 10) ∷ out) (omega arith) ∙ ground arith)
]

all-is_digit : (s : Bytes) → All (λ c. (b'0' ≤ c) × (c ≤ b'9')) s → all is_digit s ≡ true
all-is_digit [] h = refl
all-is_digit (c ∷ s) h = ground (arith, all-is_digit s h.1, h.0)

digits-ne-nil : (f n c : ℕ) (out : Bytes) → (d : ℕ) × (s : Bytes) × (digits f n (c ∷ out) ≡ d ∷ s)
unfolding digits
digits-ne-nil zero n c out = (c, out, refl)
digits-ne-nil (suc f) n c out = elim (Bool-cases (ltb n 10)) [
  | inl small ↦ (b'0' + n, c ∷ out, rw small)
  | inr large ↦
      let (d, s, e) = digits-ne-nil f (n / 10) (b'0' + n % 10) (c ∷ out) in (d, s, rw large e)
]

pub decimal-ne-nil : (n : ℕ) → decimal n ≢ []
unfolding decimal digits
decimal-ne-nil n e = elim (Bool-cases (ltb n 10)) [
  | inl small ↦ ground (arith, small)
  | inr large ↦
      let (d, s, more) = digits-ne-nil 19 (n / 10) (b'0' + n % 10) [] in ground (arith, large, more)
]

value-decimal : (n : ℕ) → n < bound 20 → value 0 (decimal n) ≡ n
unfolding decimal
value-decimal n h = value-digits 20 n [] h ∙ unfold value in refl

parse_uint-some :
    (bits n : ℕ) (s : Bytes)
    → s ≢ []
    → all is_digit s ≡ true
    → value 0 s ≡ n
    → n < 2 ^ bits
    → parse_uint bits s ≡ some n
unfolding parse_uint
parse_uint-some bits n [] ne d v h = absurd (ne refl)
parse_uint-some bits n (c ∷ s) ne d v h =
    let fits : ltb (value 0 (c ∷ s)) (2 ^ bits) ≡ true = rw v (lt→ltb n (2 ^ bits) h) in
    rw (d, fits) (ap some v)

-- A number of the given width, below 10 ^ 20, is read back from its decimal print.
pub parse_uint-decimal :
    (bits n : ℕ) → n < 2 ^ bits → n < bound 20 → parse_uint bits (decimal n) ≡ some n
parse_uint-decimal bits n h small =
    parse_uint-some bits n (decimal n) (decimal-ne-nil n) (all-is_digit (decimal n) (decimal-All n))
      (value-decimal n small) h
