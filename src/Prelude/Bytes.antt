-- ===== src/Prelude/Bytes.antt =====
-- Text as a list of bytes: literals, equality, and single-byte separators.
use Prim.Native.Char.{code}
use Prim.Native.String.{String}
use Prim.Native.Nat.{ℕ}
use mathlib.Core.Path.{◌≡◌, refl}
use mathlib.Core.Logic.{◌↔◌, ◌≢◌}
use mathlib.Core.Bool.{Bool, true, false, ◌&&◌}
use mathlib.Core.List.{List, [], ◌∷◌, ◌++◌}
use native.Mathlib.Omega.{arith}
use rr_dns.Prelude.Tests.{◌==◌}
use rr_dns.Prelude.Lists.{All}

abbrev pub Bytes : Type 0
Bytes = List ℕ

-- The bytes of an ASCII literal.
abbrev pub codes : String → Bytes
codes String.[] = []
codes (String.◌∷◌ c s) = code c ∷ codes s

unfoldable pub bytes_eq : Bytes → Bytes → Bool
bytes_eq [] [] = true
bytes_eq [] (y ∷ ys) = false
bytes_eq (x ∷ xs) [] = false
bytes_eq (x ∷ xs) (y ∷ ys) = (x == y) && bytes_eq xs ys

pub bytes_eq_refl : (s : Bytes) → bytes_eq s s ≡ true
unfolding bytes_eq
bytes_eq_refl [] = refl
bytes_eq_refl (x ∷ xs) = ground (arith, bytes_eq_refl xs)

pub bytes_eq→eq : (s t : Bytes) → bytes_eq s t ≡ true → s ≡ t
unfolding bytes_eq
bytes_eq→eq [] [] h = refl
bytes_eq→eq [] (y ∷ ys) h = cc
bytes_eq→eq (x ∷ xs) [] h = cc
bytes_eq→eq (x ∷ xs) (y ∷ ys) h = ground (arith, bytes_eq→eq xs ys)

pub bytes_eq_iff : (s t : Bytes) → (bytes_eq s t ≡ true) ↔ (s ≡ t)
bytes_eq_iff s t = (bytes_eq→eq s t, λ (e : s ≡ t). ground (arith, bytes_eq_refl s))

abbrev pub Lacks : ℕ → Bytes → Type 0
Lacks b = All (λ c. c ≢ b)

-- What stands before the first separator is determined by the whole text.
pub append_sep_injective :
    (b : ℕ) (xs ys r s : Bytes)
    → Lacks b xs
    → Lacks b ys
    → xs ++ b ∷ r ≡ ys ++ b ∷ s
    → (xs ≡ ys) × (r ≡ s)
append_sep_injective b [] [] r s _ _ h = ground arith
append_sep_injective b [] (y ∷ ys) r s _ (hy, _) h = absurd (ground arith)
append_sep_injective b (x ∷ xs) [] r s (hx, _) _ h = absurd (ground arith)
append_sep_injective b (x ∷ xs) (y ∷ ys) r s (_, hx) (_, hy) h =
    ground (arith, append_sep_injective b xs ys r s hx hy)
