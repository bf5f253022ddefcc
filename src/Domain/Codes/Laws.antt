-- ===== src/Domain/Codes/Laws.antt =====
-- The names and the numbers of the codes are each other's inverse.
use rr_dns.Prelude.{not, ℕ, List, [], ◌∷◌, Bool, true, ◌&&◌, ◌==◌, ◌≡◌, refl, arith}
use rr_dns.Prelude.Bytes.{Bytes, Lacks}
use rr_dns.Domain.Codes.{
  valid_rrtypes, valid_rrclasses, has_code, rrtype_is_valid, rrtype_string, rrtype_from_string,
  rrclass_is_valid, rrclass_string, parse_rrclass, rcode_is_valid, rcode_string, parse_rcode,
}

-- The codes up to 10, which `RCode.IsValid` accepts.
abbrev valid_rcodes : List ℕ
valid_rcodes = 0 ∷ 1 ∷ 2 ∷ 3 ∷ 4 ∷ 5 ∷ 6 ∷ 7 ∷ 8 ∷ 9 ∷ 10 ∷ []

all_codes : List ℕ → (ℕ → Bool) → Bool
all_codes [] p = true
all_codes (m ∷ t) p = p m && all_codes t p

-- A test that passes at each code of a table passes at any code that the table has.
all_codes-has_code :
    (t : List ℕ) (p : ℕ → Bool) (n : ℕ) → all_codes t p ≡ true → has_code t n ≡ true → p n ≡ true
unfolding all_codes has_code
all_codes-has_code [] p n a h = cc
all_codes-has_code (m ∷ t) p n a h = ground (arith, all_codes-has_code t p n)

==→eq : (a b : ℕ) → (a == b) ≡ true → a ≡ b
==→eq a b h = ground arith

rrtype_table : all_codes valid_rrtypes (λ t. rrtype_from_string (rrtype_string t) == t) ≡ true
unfolding all_codes rrtype_from_string rrtype_string
rrtype_table = refl

rrclass_table : all_codes valid_rrclasses (λ c. parse_rrclass (rrclass_string c) == c) ≡ true
unfolding all_codes parse_rrclass rrclass_string
rrclass_table = refl

rcode_table : all_codes valid_rcodes (λ r. parse_rcode (rcode_string r) == r) ≡ true
unfolding all_codes parse_rcode rcode_string
rcode_table = refl

rcode_is_valid-has_code : (r : ℕ) → rcode_is_valid r ≡ true → has_code valid_rcodes r ≡ true
unfolding rcode_is_valid has_code
rcode_is_valid-has_code r h = ground arith

-- Each code of the three tables is read back from its name: record types, classes and response
-- codes that `IsValid` accepts.
pub codes_round_trip :
    (t c r : ℕ)
    → rrtype_is_valid t ≡ true
    → rrclass_is_valid c ≡ true
    → rcode_is_valid r ≡ true
    → (rrtype_from_string (rrtype_string t) ≡ t)
      × (parse_rrclass (rrclass_string c) ≡ c)
      × (parse_rcode (rcode_string r) ≡ r)
codes_round_trip t c r ht hc hr = (
  ==→eq _ _ (all_codes-has_code valid_rrtypes _ t rrtype_table (unfold rrtype_is_valid in ht)),
  ==→eq _ _ (all_codes-has_code valid_rrclasses _ c rrclass_table (unfold rrclass_is_valid in hc)),
  ==→eq _ _ (all_codes-has_code valid_rcodes _ r rcode_table (rcode_is_valid-has_code r hr)),
)

lacks_pipe : Bytes → Bool
lacks_pipe [] = true
lacks_pipe (c ∷ s) = not (c == b'|') && lacks_pipe s

lacks_pipe_sound : (s : Bytes) → lacks_pipe s ≡ true → Lacks b'|' s
unfolding lacks_pipe
lacks_pipe_sound [] h = tt
lacks_pipe_sound (c ∷ s) h = ground (arith, lacks_pipe_sound s)

rrtype_lacks_table : all_codes valid_rrtypes (λ t. lacks_pipe (rrtype_string t)) ≡ true
unfolding all_codes rrtype_string lacks_pipe
rrtype_lacks_table = refl

-- The separator of a cache key is in no type's name.
pub rrtype_string-Lacks_pipe : (t : ℕ) → rrtype_is_valid t ≡ true → Lacks b'|' (rrtype_string t)
rrtype_string-Lacks_pipe t h =
    lacks_pipe_sound _
      (all_codes-has_code valid_rrtypes _ t rrtype_lacks_table (unfold rrtype_is_valid in h))

pub rcode_is_valid-noerror : rcode_is_valid 0 ≡ true
unfolding rcode_is_valid
rcode_is_valid-noerror = refl
