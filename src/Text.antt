-- ===== src/Text.antt =====
-- The functions of Go's package `strings` that the program uses, on ASCII text as a list of bytes.
-- (On a byte above 127 `ToLower` and `TrimSpace` would look at Unicode letters and spaces; the
-- model leaves such a byte alone.)
pub mod Split
pub mod Trim
pub mod Decimal
pub mod Fields
pub mod Words
pub mod Numbers
use rr_dns.Prelude.{
  ℕ, ◌+◌, ◌-◌, List, [], ◌∷◌, ◌++◌, Bool, true, false, ◌&&◌, ◌||◌, leb, ◌==◌, if◌then◌else◌,
  is_empty,
}
use rr_dns.Prelude.Bytes.{Bytes}

abbrev pub dot : ℕ
dot = b'.'

-- `\t \n \v \f \r` and the space.
unfoldable pub is_space : ℕ → Bool
is_space c = (leb 9 c && leb c 13) || c == 32

unfoldable pub lower : ℕ → ℕ
lower c = if leb b'A' c && leb c b'Z' then c + 32 else c

unfoldable pub upper : ℕ → ℕ
upper c = if leb b'a' c && leb c b'z' then c - 32 else c

abbrev pub map_bytes : (ℕ → ℕ) → Bytes → Bytes
map_bytes f [] = []
map_bytes f (c ∷ s) = f c ∷ map_bytes f s

-- `strings.ToLower`
unfoldable pub to_lower : Bytes → Bytes
unfolding lower
to_lower = map_bytes lower

unfoldable pub trim_left : (ℕ → Bool) → Bytes → Bytes
trim_left p [] = []
trim_left p (c ∷ s) = if p c then trim_left p s else c ∷ s

-- Drops the longest suffix of bytes that pass the test.
unfoldable pub trim_right : (ℕ → Bool) → Bytes → Bytes
trim_right p [] = []
trim_right p (c ∷ s) = let rest = trim_right p s in if p c && is_empty rest then [] else c ∷ rest

-- `strings.TrimSpace`
unfoldable pub trim_space : Bytes → Bytes
unfolding trim_left trim_right
trim_space s = trim_right is_space (trim_left is_space s)

-- `strings.TrimSuffix(s, ".")`: at most one dot goes.
unfoldable pub trim_dot : Bytes → Bytes
trim_dot [] = []
trim_dot (c ∷ []) = if c == dot then [] else c ∷ []
trim_dot (c ∷ d ∷ s) = c ∷ trim_dot (d ∷ s)

-- `strings.HasSuffix(s, ".")`
unfoldable pub has_dot : Bytes → Bool
has_dot [] = false
has_dot (c ∷ []) = c == dot
has_dot (c ∷ d ∷ s) = has_dot (d ∷ s)

-- The first part longer by one byte.
abbrev pub cons_first : ℕ → List Bytes → List Bytes
cons_first c [] = (c ∷ []) ∷ []
cons_first c (p ∷ ps) = (c ∷ p) ∷ ps

-- `strings.Split(s, sep)` for a separator of one byte: always at least one part.
unfoldable pub split : ℕ → Bytes → List Bytes
split sep [] = [] ∷ []
split sep (c ∷ s) = let rest = split sep s in if c == sep then [] ∷ rest else cons_first c rest

-- `strings.Join(parts, sep)`
unfoldable pub join : Bytes → List Bytes → Bytes
join sep [] = []
join sep (p ∷ []) = p
join sep (p ∷ q ∷ ps) = p ++ (sep ++ join sep (q ∷ ps))
