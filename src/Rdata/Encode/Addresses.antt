-- ===== src/Rdata/Encode/Addresses.antt =====
-- An address of version 4 is written as it was read.
use rr_dns.Prelude.{
  inl, inr, ℕ, zero, suc, ◌<◌, ◌≤◌, ◌==◌, ◌&&◌, List, [], ◌∷◌, ◌++◌, Bool, true, false, Option,
  none, some, Option-cases, ok, ◌>>=◌, ◌≡◌, refl, arith, All,
}
use rr_dns.Prelude.Bytes.{Bytes, Lacks}
use rr_dns.Text.{dot, split, join}
use rr_dns.Text.Split.{split-join}
use rr_dns.Text.Fields.{value}
use rr_dns.Text.Decimal.{decimal, decimal-All}
use rr_dns.Rdata.{decode}
use rr_dns.Rdata.Address.{decimals, decode_a, encode_a}
use rr_dns.Rdata.Address.Parse.{octet, octets, parse_v4, is_v4_text, v4_in_v6, parse_ip}

all_below : ℕ → (ℕ → Bool) → Bool
all_below zero p = true
all_below (suc n) p = p n && all_below n p

all_below-true : (n : ℕ) (p : ℕ → Bool) (x : ℕ) → all_below n p ≡ true → x < n → p x ≡ true
unfolding all_below
all_below-true zero p x h lt = absurd (omega arith)
all_below-true (suc n) p x h lt = ground (arith, all_below-true n p x)

abbrev is_number : ℕ → Option ℕ → Bool
is_number n none = false
is_number n (some m) = m == n

octet_table : all_below 256 (λ n. is_number n (octet (decimal n))) ≡ true
unfolding all_below octet decimal value
octet_table = refl

octet-decimal : (n : ℕ) → n < 256 → octet (decimal n) ≡ some n
octet-decimal n h = elim (Option-cases (octet (decimal n))) [
  | inl e ↦
      ground (arith, e, all_below-true 256 (λ n. is_number n (octet (decimal n))) n octet_table h)
  | inr (m, e) ↦
      ground (arith, e, all_below-true 256 (λ n. is_number n (octet (decimal n))) n octet_table h)
]

octets-cons :
    (p : Bytes) (ps : List Bytes) (n : ℕ) (ns : Bytes)
    → octet p ≡ some n
    → octets ps ≡ some ns
    → octets (p ∷ ps) ≡ some (n ∷ ns)
unfolding octet octets
octets-cons [] ps n ns h k = absurd (ground arith)
octets-cons (c ∷ p) ps n ns h k = ground arith

octets-decimals : (b : Bytes) → All (λ n. n < 256) b → octets (decimals b) ≡ some b
octets-decimals [] h = unfold octets in refl
octets-decimals (n ∷ b) h =
    octets-cons (decimal n) (decimals b) n b (octet-decimal n h.0) (octets-decimals b h.1)

Lacks-digits : (s : Bytes) → All (λ c. (b'0' ≤ c) × (c ≤ b'9')) s → Lacks dot s
Lacks-digits [] h = tt
Lacks-digits (c ∷ s) h = (λ e. absurd (omega (arith, h.0.0, h.0.1)), Lacks-digits s h.1)

decimals-Lacks : (b : Bytes) → All (Lacks dot) (decimals b)
decimals-Lacks [] = tt
decimals-Lacks (n ∷ b) = (Lacks-digits (decimal n) (decimal-All n), decimals-Lacks b)

-- A text that begins with digits and a dot is taken for version 4.
is_v4_text-append :
    (w s : Bytes) → All (λ c. (b'0' ≤ c) × (c ≤ b'9')) w → is_v4_text (w ++ dot ∷ s) ≡ true
unfolding is_v4_text
is_v4_text-append [] s h = refl
is_v4_text-append (c ∷ w) s h = ground (arith, is_v4_text-append w s h.1, h.0)

pub parse_ip-v4 :
    (a b c d : ℕ)
    → All (λ n. n < 256) (a ∷ b ∷ c ∷ d ∷ [])
    → parse_ip (join (dot ∷ []) (decimals (a ∷ b ∷ c ∷ d ∷ [])))
      ≡ some (v4_in_v6 (a ∷ b ∷ c ∷ d ∷ []))
unfolding parse_ip
parse_ip-v4 a b c d h = rw (v4, parsed)
  where
    text : Bytes
    text = join (dot ∷ []) (decimals (a ∷ b ∷ c ∷ d ∷ []))

    v4 : is_v4_text text ≡ true
    v4 =
        unfold join in
        is_v4_text-append (decimal a) (join (dot ∷ []) (decimals (b ∷ c ∷ d ∷ []))) (decimal-All a)

    parts : split dot text ≡ decimals (a ∷ b ∷ c ∷ d ∷ [])
    parts =
        split-join dot (decimals (a ∷ b ∷ c ∷ d ∷ [])) (cc) (decimals-Lacks (a ∷ b ∷ c ∷ d ∷ []))

    parsed : parse_v4 text ≡ some (a ∷ b ∷ c ∷ d ∷ [])
    parsed = unfold parse_v4 in rw parts (octets-decimals (a ∷ b ∷ c ∷ d ∷ []) h)

-- The data of an A record, four bytes, decode to a text that is encoded as the same data.
pub encode_a-decode_a :
    (a b c d : ℕ)
    → All (λ n. n < 256) (a ∷ b ∷ c ∷ d ∷ [])
    → (decode 1 (a ∷ b ∷ c ∷ d ∷ []) >>= encode_a) ≡ ok (a ∷ b ∷ c ∷ d ∷ [])
unfolding decode decode_a encode_a v4_in_v6
encode_a-decode_a a b c d h = rw (parse_ip-v4 a b c d h, encode_a) refl

-- Four numbers up to 255 with dots between them are encoded, and the data decode to the same text.
pub decode_a-encode_a :
    (a b c d : ℕ)
    → All (λ n. n < 256) (a ∷ b ∷ c ∷ d ∷ [])
    → (encode_a (join (dot ∷ []) (decimals (a ∷ b ∷ c ∷ d ∷ []))) >>= decode 1)
      ≡ ok (join (dot ∷ []) (decimals (a ∷ b ∷ c ∷ d ∷ [])))
unfolding decode decode_a encode_a v4_in_v6
decode_a-encode_a a b c d h = rw (parse_ip-v4 a b c d h, encode_a) refl
