-- ===== src/Rdata/Encode/Pairs.antt =====
-- The bytes of the groups of an IPv6 address.
use rr_dns.Prelude.{
  ℕ, zero, suc, ◌+◌, ◌/◌, ◌%◌, ◌<◌, List, [], ◌∷◌, ◌++◌, length, ◌≡◌, refl, ap, ◌∙◌, All, arith,
}
use rr_dns.Prelude.Bytes.{Bytes}
use rr_dns.Rdata.Address.{groups}
use rr_dns.Rdata.Address.Parse.{zeros}
use rr_dns.Rdata.Encode.Groups.{IsGroup, bytes_of}

-- Bytes in pairs are those of their groups.
pub data Paired : Bytes → ℕ → Type 0 where
  nothing : Paired [] 0
  pair : (a b n : ℕ) (rest : Bytes) → Paired rest n → Paired (a ∷ b ∷ rest) (suc n)

pub length-Paired : (n : ℕ) (b : Bytes) → length b ≡ n + n → Paired b n
length-Paired zero [] h = nothing
length-Paired zero (a ∷ b) h = absurd (omega arith)
length-Paired (suc n) [] h = absurd (omega arith)
length-Paired (suc n) (a ∷ []) h = absurd (omega arith)
length-Paired (suc n) (a ∷ b ∷ rest) h = pair a b n rest (length-Paired n rest (omega arith))

pub length-groups : {b : Bytes} {n : ℕ} → Paired b n → length (groups b) ≡ n
unfolding groups
length-groups nothing = refl
length-groups (pair a b n rest p) = omega (arith, length-groups p)

pub groups-IsGroup :
    {b : Bytes} {n : ℕ} → Paired b n → All (λ c. c < 256) b → All IsGroup (groups b)
unfolding groups
groups-IsGroup nothing h = tt
groups-IsGroup (pair a b n rest p) (ha, (hb, h)) = (omega arith, groups-IsGroup p h)

pub bytes_of-groups :
    {b : Bytes} {n : ℕ} → Paired b n → All (λ c. c < 256) b → bytes_of (groups b) ≡ b
unfolding groups
bytes_of-groups nothing h = refl
bytes_of-groups (pair a b n rest p) (ha, (hb, h)) = ground (arith, bytes_of-groups p h)

pub bytes_of-append : (gs hs : List ℕ) → bytes_of (gs ++ hs) ≡ bytes_of gs ++ bytes_of hs
bytes_of-append [] hs = refl
bytes_of-append (g ∷ gs) hs = ap (λ t. g / 256 ∷ g % 256 ∷ t) (bytes_of-append gs hs)

double_suc : (n : ℕ) → suc (suc (n + n)) ≡ suc n + suc n
double_suc n = omega arith

pub bytes_of-zeros : (n : ℕ) → bytes_of (zeros n) ≡ zeros (n + n)
bytes_of-zeros zero = refl
bytes_of-zeros (suc n) = ap (λ t. 0 ∷ 0 ∷ t) (bytes_of-zeros n) ∙ ap zeros (double_suc n)

pub length-bytes_of : (gs : List ℕ) → length (bytes_of gs) ≡ length gs + length gs
length-bytes_of [] = omega arith
length-bytes_of (g ∷ gs) = omega (arith, length-bytes_of gs)

pub length-zeros : (n : ℕ) → length (zeros n) ≡ n
length-zeros zero = refl
length-zeros (suc n) = omega (arith, length-zeros n)
