-- ===== src/Rdata/Encode/Hex.antt =====
-- The groups of an IPv6 address in hexadecimal digits are read back.
use rr_dns.Prelude.{
  ℕ, ◌+◌, ◌*◌, ◌/◌, ◌%◌, ◌<◌, ◌≤◌, ltb, List, [], ◌∷◌, ◌++◌, length, true, ◌≡◌, refl, All, ◌∙◌, ap,
  arith, Bool-cases, inl, inr,
}
use rr_dns.Prelude.Bytes.{Bytes}
use rr_dns.Text.{map_bytes}
use rr_dns.Rdata.Address.{hex_digit, hex16}
use rr_dns.Rdata.Address.Parse.{is_hex, hex_value, hex_run, hex_number}

abbrev pub IsHex : ℕ → Type 0
IsHex c = is_hex c ≡ true

hex_digit-IsHex : (d : ℕ) → d < 16 → IsHex (hex_digit d)
hex_digit-IsHex d h = ground arith

hex_value-hex_digit : (d : ℕ) → d < 16 → hex_value (hex_digit d) ≡ d
hex_value-hex_digit d h = ground arith

-- A group is one to four digits with its value.
pub record Digits (g : ℕ) : Type 0 where
  pub first : ℕ
  pub others : Bytes
  pub printed : hex16 g ≡ first ∷ others
  pub few : length others ≤ 3
  pub are_hex : All IsHex (first ∷ others)
  pub read : hex_number 0 (first ∷ others) ≡ g

number : ℕ → List ℕ → ℕ
number n [] = n
number n (d ∷ ds) = number (n * 16 + d) ds

hex_number-number :
    (n : ℕ) (ds : List ℕ)
    → All (λ d. d < 16) ds
    → hex_number n (map_bytes hex_digit ds) ≡ number n ds
unfolding hex_number number
hex_number-number n [] h = refl
hex_number-number n (d ∷ ds) (hd, h) =
    ap (λ v. hex_number (n * 16 + v) (map_bytes hex_digit ds)) (hex_value-hex_digit d hd)
    ∙ hex_number-number (n * 16 + d) ds h

All-hex_digit : (ds : List ℕ) → All (λ d. d < 16) ds → All IsHex (map_bytes hex_digit ds)
All-hex_digit [] h = tt
All-hex_digit (d ∷ ds) (hd, h) = (hex_digit-IsHex d hd, All-hex_digit ds h)

length-map_bytes : (f : ℕ → ℕ) (ds : List ℕ) → length (map_bytes f ds) ≡ length ds
length-map_bytes f [] = refl
length-map_bytes f (d ∷ ds) = omega (arith, length-map_bytes f ds)

printed-Digits :
    (g d : ℕ) (ds : List ℕ)
    → All (λ n. n < 16) (d ∷ ds)
    → length ds ≤ 3
    → hex16 g ≡ map_bytes hex_digit (d ∷ ds)
    → number 0 (d ∷ ds) ≡ g
    → Digits g
printed-Digits g d ds h le e v = record {
  first = hex_digit d;
  others = map_bytes hex_digit ds;
  printed = e;
  few = rw (length-map_bytes hex_digit ds) le;
  are_hex = All-hex_digit (d ∷ ds) h;
  read = hex_number-number 0 (d ∷ ds) h ∙ v;
}

pub hex16-Digits : (g : ℕ) → g < 65536 → Digits g
unfolding number hex16
hex16-Digits g h = elim (Bool-cases (ltb g 16)) [
  | inl e0 ↦ printed-Digits g (g % 16) [] (omega arith) (omega arith) (ground arith) (ground arith)
  | inr e0 ↦ elim (Bool-cases (ltb g 256)) [
    | inl e1 ↦
        printed-Digits g (g / 16 % 16) (g % 16 ∷ []) (omega arith) (omega arith) (ground arith)
          (ground arith)
    | inr e1 ↦ elim (Bool-cases (ltb g 4096)) [
      | inl e2 ↦
          printed-Digits g (g / 256 % 16) (g / 16 % 16 ∷ g % 16 ∷ []) (omega arith) (omega arith)
            (ground arith) (ground arith)
      | inr e2 ↦
          printed-Digits g (g / 4096) (g / 256 % 16 ∷ g / 16 % 16 ∷ g % 16 ∷ []) (omega arith)
            (omega arith) (ground arith) (ground arith)
    ]
  ]
]

-- The digits in front of a colon, or of the end.
pub hex_run-append : (h s : Bytes) → All IsHex h → hex_run (h ++ b':' ∷ s) ≡ (h, b':' ∷ s)
unfolding hex_run
hex_run-append [] s x = refl
hex_run-append (c ∷ h) s (x, xs) = rw (hex_run-append h s xs, x) refl

pub hex_run-all : (h : Bytes) → All IsHex h → hex_run h ≡ (h, [])
unfolding hex_run
hex_run-all [] x = refl
hex_run-all (c ∷ h) (x, xs) = rw (hex_run-all h xs, x) refl
