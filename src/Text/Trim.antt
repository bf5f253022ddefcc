-- ===== src/Text/Trim.antt =====
-- Laws of the trimming functions and of `to_lower`.
use rr_dns.Prelude.{
  ℕ, [], ◌∷◌, ◌≡◌, ◌≢◌, inl, inr, refl, arith, All, Bool, false, Bool-cases, is_empty, ◌==◌, ◌&&◌,
  if◌then◌else◌,
}
use rr_dns.Prelude.Bytes.{Bytes}
use rr_dns.Text.{dot, is_space, lower, upper, to_lower, map_bytes, trim_left, trim_right, has_dot}

-- The last byte of the text, if any, fails the test.
abbrev pub EndsOutside : (ℕ → Bool) → Bytes → Type 0
EndsOutside p [] = Unit
EndsOutside p (c ∷ []) = p c ≡ false
EndsOutside p (c ∷ d ∷ s) = EndsOutside p (d ∷ s)

-- The first byte of the text, if any, fails the test.
abbrev pub StartsOutside : (ℕ → Bool) → Bytes → Type 0
StartsOutside p [] = Unit
StartsOutside p (c ∷ s) = p c ≡ false

pub trim_left-StartsOutside : (p : ℕ → Bool) (s : Bytes) → StartsOutside p (trim_left p s)
unfolding trim_left
trim_left-StartsOutside p [] = tt
trim_left-StartsOutside p (c ∷ s) = ground (arith, trim_left-StartsOutside p s)

EndsOutside-cons :
    (p : ℕ → Bool) (c : ℕ) (s : Bytes) → s ≢ [] → EndsOutside p s → EndsOutside p (c ∷ s)
EndsOutside-cons p c [] h e = absurd (h refl)
EndsOutside-cons p c (d ∷ s) h e = e

pub trim_right-EndsOutside : (p : ℕ → Bool) (s : Bytes) → EndsOutside p (trim_right p s)
unfolding trim_right
trim_right-EndsOutside p [] = tt
trim_right-EndsOutside p (c ∷ s) = step (trim_right p s) (trim_right-EndsOutside p s)
  where
    step : (r : Bytes) → EndsOutside p r → EndsOutside p (if p c && is_empty r then [] else c ∷ r)
    step [] e = ground arith
    step (d ∷ r) e = ground arith

-- A text whose last byte fails the test is left alone.
pub trim_right-EndsOutside_self : (p : ℕ → Bool) (s : Bytes) → EndsOutside p s → trim_right p s ≡ s
unfolding trim_right
trim_right-EndsOutside_self p [] h = refl
trim_right-EndsOutside_self p (c ∷ []) h = ground arith
trim_right-EndsOutside_self p (c ∷ d ∷ s) h =
    rw (trim_right-EndsOutside_self p (d ∷ s) h) (ground arith)

pub trim_left-StartsOutside_self :
    (p : ℕ → Bool) (s : Bytes) → StartsOutside p s → trim_left p s ≡ s
unfolding trim_left
trim_left-StartsOutside_self p [] h = refl
trim_left-StartsOutside_self p (c ∷ s) h = ground arith

-- Nothing of a text that has no byte passing the test is trimmed.
pub trim_left_none : (p : ℕ → Bool) (s : Bytes) → All (λ c. p c ≡ false) s → trim_left p s ≡ s
unfolding trim_left
trim_left_none p [] h = refl
trim_left_none p (c ∷ s) h = ground arith

pub All-EndsOutside : (p : ℕ → Bool) (s : Bytes) → All (λ c. p c ≡ false) s → EndsOutside p s
All-EndsOutside p [] h = tt
All-EndsOutside p (c ∷ []) h = h.0
All-EndsOutside p (c ∷ d ∷ s) h = All-EndsOutside p (d ∷ s) h.1

pub All-trim_left {κ} :
    (P : ℕ → Type κ) (p : ℕ → Bool) (s : Bytes) → All P s → All P (trim_left p s)
unfolding trim_left
All-trim_left P p [] h = tt
All-trim_left P p (c ∷ s) (hc, h) = elim (Bool-cases (p c)) [
  | inl e ↦ rw e (All-trim_left P p s h)
  | inr e ↦ rw e (hc, h)
]

pub All-trim_right {κ} :
    (P : ℕ → Type κ) (p : ℕ → Bool) (s : Bytes) → All P s → All P (trim_right p s)
unfolding trim_right
All-trim_right P p [] h = tt
All-trim_right P p (c ∷ s) (hc, h) = elim (Bool-cases (p c && is_empty (trim_right p s))) [
  | inl e ↦ rw e tt
  | inr e ↦ rw e (hc, All-trim_right P p s h)
]

-- The Go loop `for HasSuffix(s, ".") { s = TrimSuffix(s, ".") }`, round by round, trims as
-- `trim_right` does.
pub trim_right-has_dot-false : (s : Bytes) → has_dot s ≡ false → trim_right (λ c. c == dot) s ≡ s
unfolding trim_right has_dot
trim_right-has_dot-false [] h = refl
trim_right-has_dot-false (c ∷ []) h = ground arith
trim_right-has_dot-false (c ∷ d ∷ s) h = rw (trim_right-has_dot-false (d ∷ s) h) (ground arith)

pub lower_idem : (c : ℕ) → lower (lower c) ≡ lower c
unfolding lower
lower_idem c = ground arith

pub lower-upper : (c : ℕ) → lower (upper c) ≡ lower c
unfolding lower upper
lower-upper c = ground arith

pub is_space-lower : (c : ℕ) → is_space (lower c) ≡ is_space c
unfolding lower is_space
is_space-lower c = ground arith

pub is_space-upper : (c : ℕ) → is_space (upper c) ≡ is_space c
unfolding upper is_space
is_space-upper c = ground arith

pub to_lower_idem : (s : Bytes) → to_lower (to_lower s) ≡ to_lower s
unfolding to_lower
to_lower_idem [] = refl
to_lower_idem (c ∷ s) = rw (lower_idem c, to_lower_idem s)

pub to_lower-map_upper : (s : Bytes) → to_lower (map_bytes upper s) ≡ to_lower s
unfolding to_lower
to_lower-map_upper [] = refl
to_lower-map_upper (c ∷ s) = rw (lower-upper c, to_lower-map_upper s)
