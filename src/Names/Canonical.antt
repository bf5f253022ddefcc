-- ===== src/Names/Canonical.antt =====
-- What `CanonicalDNSName` guarantees of its result, and which names it identifies.
use rr_dns.Prelude.{
  Bool, ℕ, zero, suc, ◌≤◌, [], ◌∷◌, ◌++◌, ◌≡◌, ◌≢◌, refl, sym, ◌∙◌, arith, All, length, Bool-cases,
  inl, inr, true, false, ◌==◌, ◌&&◌, is_empty,
}
use rr_dns.Prelude.Bytes.{Bytes, codes}
use rr_dns.Text.{
  dot, is_space, lower, upper, to_lower, map_bytes, trim_right, trim_space, has_dot, trim_dot,
}
use rr_dns.Text.Trim.{
  EndsOutside, StartsOutside, trim_left-StartsOutside, trim_right-EndsOutside,
  trim_right-has_dot-false, trim_right-EndsOutside_self, trim_left_none, All-EndsOutside,
  All-trim_right, lower_idem, is_space-lower, is_space-upper, to_lower-map_upper,
}
use rr_dns.Names.{trim_dots, canonical_dns_name}

has_dot-trim :
    (s : Bytes)
    → has_dot s ≡ true
    → (trim_right (λ c. c == dot) (trim_dot s) ≡ trim_right (λ c. c == dot) s)
      × (suc (length (trim_dot s)) ≡ length s)
unfolding has_dot trim_dot trim_right
has_dot-trim [] h = cc
has_dot-trim (c ∷ []) h = ground arith
has_dot-trim (c ∷ d ∷ s) h =
    let (same, shorter) = has_dot-trim (d ∷ s) h in (rw same (ground arith), omega arith)

-- The loop with enough fuel removes all the trailing dots.
pub trim_dots-trim_right :
    (f : ℕ) (s : Bytes) → length s ≤ f → trim_dots f s ≡ trim_right (λ c. c == dot) s
unfolding trim_dots
trim_dots-trim_right zero [] h = unfold trim_right in refl
trim_dots-trim_right zero (c ∷ s) h = absurd (omega arith)
trim_dots-trim_right (suc f) s h = elim (Bool-cases (has_dot s)) [
  | inl e ↦ rw e (
      trim_dots-trim_right f (trim_dot s) (omega (arith, (has_dot-trim s e).1))
      ∙ (has_dot-trim s e).0)
  | inr e ↦ rw e (sym (trim_right-has_dot-false s e))
]

pub canonical_dns_name-trim_right :
    (s : Bytes) → canonical_dns_name s ≡ trim_right (λ c. c == dot) (to_lower (trim_space s))
unfolding canonical_dns_name
canonical_dns_name-trim_right s = trim_dots-trim_right _ (to_lower (trim_space s)) (omega arith)

-- A canonical name: no upper-case letter, no trailing dot, no leading white space.
pub record IsCanonical (s : Bytes) : Type 0 where
  pub lower_case : All (λ c. lower c ≡ c) s
  pub no_trailing_dot : EndsOutside (λ c. c == dot) s
  pub no_leading_space : StartsOutside is_space s

to_lower-All : (s : Bytes) → All (λ c. lower c ≡ c) (to_lower s)
unfolding to_lower
to_lower-All [] = tt
to_lower-All (c ∷ s) = (lower_idem c, to_lower-All s)

pub to_lower_self : (s : Bytes) → All (λ c. lower c ≡ c) s → to_lower s ≡ s
unfolding to_lower
to_lower_self [] h = refl
to_lower_self (c ∷ s) (hc, h) = rw (hc, to_lower_self s h)

StartsOutside-trim_right :
    (p q : ℕ → Bool) (s : Bytes) → StartsOutside p s → StartsOutside p (trim_right q s)
unfolding trim_right
StartsOutside-trim_right p q [] h = tt
StartsOutside-trim_right p q (c ∷ s) h = elim (Bool-cases (q c && is_empty (trim_right q s))) [
  | inl e ↦ rw e tt
  | inr e ↦ rw e h
]

StartsOutside-to_lower :
    (s : Bytes) → StartsOutside is_space s → StartsOutside is_space (to_lower s)
unfolding to_lower
StartsOutside-to_lower [] h = tt
StartsOutside-to_lower (c ∷ s) h = is_space-lower c ∙ h

trim_space-StartsOutside : (s : Bytes) → StartsOutside is_space (trim_space s)
unfolding trim_space
trim_space-StartsOutside s =
    StartsOutside-trim_right is_space is_space _ (trim_left-StartsOutside is_space s)

-- Whatever the text, the result is canonical: it has no upper-case letter, does not end in a dot
-- and does not begin with white space.
pub canonical_dns_name-IsCanonical : (s : Bytes) → IsCanonical (canonical_dns_name s)
canonical_dns_name-IsCanonical s = rw (canonical_dns_name-trim_right s) (record {
  lower_case = All-trim_right _ _ _ (to_lower-All _);
  no_trailing_dot = trim_right-EndsOutside _ _;
  no_leading_space =
      StartsOutside-trim_right _ _ _ (StartsOutside-to_lower _ (trim_space-StartsOutside s));
})

abbrev pub IsSpaceless : Bytes → Type 0
IsSpaceless = All (λ c. is_space c ≡ false)

trim_space_none : (s : Bytes) → IsSpaceless s → trim_space s ≡ s
unfolding trim_space
trim_space_none s h =
    rw (trim_left_none is_space s h)
      (trim_right-EndsOutside_self is_space s (All-EndsOutside is_space s h))

-- A canonical text with no white space in it is its own canonical name.
pub canonical_dns_name_self : (s : Bytes) → IsCanonical s → IsSpaceless s → canonical_dns_name s ≡ s
canonical_dns_name_self s h none_space =
    rw (canonical_dns_name-trim_right s, trim_space_none s none_space, to_lower_self s h.lower_case)
      (trim_right-EndsOutside_self _ s h.no_trailing_dot)

to_lower-IsSpaceless : (s : Bytes) → IsSpaceless s → IsSpaceless (to_lower s)
unfolding to_lower
to_lower-IsSpaceless [] h = tt
to_lower-IsSpaceless (c ∷ s) (hc, h) = (is_space-lower c ∙ hc, to_lower-IsSpaceless s h)

canonical_dns_name-IsSpaceless :
    (s : Bytes) → IsSpaceless (trim_space s) → IsSpaceless (canonical_dns_name s)
canonical_dns_name-IsSpaceless s h =
    rw (canonical_dns_name-trim_right s) (All-trim_right _ _ _ (to_lower-IsSpaceless _ h))

-- Canonicalising twice is canonicalising once, for a text with no white space between its first
-- and its last visible byte.
pub canonical_dns_name_idem :
    (s : Bytes)
    → IsSpaceless (trim_space s)
    → canonical_dns_name (canonical_dns_name s) ≡ canonical_dns_name s
canonical_dns_name_idem s h =
    canonical_dns_name_self _ (canonical_dns_name-IsCanonical s)
      (canonical_dns_name-IsSpaceless s h)

trim_right-snoc :
    (s : Bytes) → trim_right (λ c. c == dot) (s ++ dot ∷ []) ≡ trim_right (λ c. c == dot) s
unfolding trim_right
trim_right-snoc [] = refl
trim_right-snoc (c ∷ s) = rw (trim_right-snoc s)

upper-IsSpaceless : (s : Bytes) → IsSpaceless s → IsSpaceless (map_bytes upper s)
upper-IsSpaceless [] h = tt
upper-IsSpaceless (c ∷ s) (hc, h) = (is_space-upper c ∙ hc, upper-IsSpaceless s h)

IsSpaceless-dot : (s : Bytes) → IsSpaceless s → IsSpaceless (s ++ dot ∷ [])
unfolding is_space
IsSpaceless-dot [] h = (refl, tt)
IsSpaceless-dot (c ∷ s) (hc, h) = (hc, IsSpaceless-dot s h)

to_lower-snoc : (s : Bytes) → to_lower (s ++ dot ∷ []) ≡ to_lower s ++ dot ∷ []
unfolding to_lower lower
to_lower-snoc [] = refl
to_lower-snoc (c ∷ s) = rw (to_lower-snoc s)

-- A name without white space has one canonical name with itself in upper case and with itself
-- followed by a dot.
pub canonical_dns_name-upper-dot :
    (s : Bytes)
    → IsSpaceless s
    → (canonical_dns_name (map_bytes upper s) ≡ canonical_dns_name s)
      × (canonical_dns_name (s ++ dot ∷ []) ≡ canonical_dns_name s)
canonical_dns_name-upper-dot s h = (upper_case, dotted)
  where
    plain : canonical_dns_name s ≡ trim_right (λ c. c == dot) (to_lower s)
    plain = rw (canonical_dns_name-trim_right s, trim_space_none s h)

    upper_case : canonical_dns_name (map_bytes upper s) ≡ canonical_dns_name s
    upper_case = rw (
      plain,
      canonical_dns_name-trim_right (map_bytes upper s),
      trim_space_none _ (upper-IsSpaceless s h),
      to_lower-map_upper s,
    )

    dotted : canonical_dns_name (s ++ dot ∷ []) ≡ canonical_dns_name s
    dotted =
        rw
          (
            plain,
            canonical_dns_name-trim_right (s ++ dot ∷ []),
            trim_space_none _ (IsSpaceless-dot s h),
            to_lower-snoc s,
          )
          (trim_right-snoc (to_lower s))

-- Without the hypothesis on white space the second pass may differ: "a ." becomes "a ", then "a".
canonical_dns_name_twice :
    canonical_dns_name (canonical_dns_name (codes "a .")) ≢ canonical_dns_name (codes "a .")
unfolding canonical_dns_name trim_dots trim_space to_lower has_dot trim_dot is_space
canonical_dns_name_twice h = cc
