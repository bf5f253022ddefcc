-- ===== src/Rdata/Address.antt =====
-- rrdata/001a.go and 028aaaa.go: addresses as text, with what they use of Go's package `net`
-- (`IP.To4`, `IP.String`).
pub mod Parse
use rr_dns.Prelude.{
  Bool, ℕ, ◌+◌, ◌-◌, ◌*◌, ◌/◌, ◌%◌, ltb, leb, ◌==◌, not, ◌&&◌, if◌then◌else◌, List, [], ◌∷◌, ◌++◌,
  length, take, drop, all, Option, none, some, Result, ok, err, invalid_rdata,
}
use rr_dns.Prelude.Bytes.{Bytes}
use rr_dns.Text.{dot, join}
use rr_dns.Text.Decimal.{decimal}
use rr_dns.Rdata.Address.Parse.{parse_ip}

-- Ten bytes of 0 and two of 255 in front of an address of version 4.
unfoldable pub is_v4_in_v6 : Bytes → Bool
is_v4_in_v6 b = all (λ c. c == 0) (take 10 b) && all (λ c. c == 255) (take 2 (drop 10 b))

-- `IP.To4`
unfoldable pub to4 : Bytes → Option Bytes
unfolding is_v4_in_v6
to4 b =
    if length b == 4
    then some b
    else if length b == 16 && is_v4_in_v6 b
    then some (drop 12 b)
    else none

abbrev pub decimals : Bytes → List Bytes
decimals [] = []
decimals (c ∷ b) = decimal c ∷ decimals b

unfoldable pub decode_a : Bytes → Result Bytes
unfolding to4
decode_a b = elim (to4 b) [
  | none ↦ err (invalid_rdata 1)
  | some v4 ↦ ok (join (dot ∷ []) (decimals v4))
]

-- `%x` of a digit, and of a number of 16 bits without leading zeros.
abbrev pub hex_digit : ℕ → ℕ
hex_digit d = if ltb d 10 then b'0' + d else b'a' + (d - 10)

unfoldable pub hex16 : ℕ → Bytes
hex16 n =
    let d0 = hex_digit (n % 16) ∷ [] in
    let d1 = hex_digit (n / 16 % 16) ∷ d0 in
    let d2 = hex_digit (n / 256 % 16) ∷ d1 in
    if ltb n 16
    then d0
    else if ltb n 256
    then d1
    else if ltb n 4096
    then d2
    else hex_digit (n / 4096) ∷ d2

-- The 16-bit groups of an address.
unfoldable pub groups : Bytes → List ℕ
groups [] = []
groups (a ∷ []) = []
groups (a ∷ b ∷ rest) = (a * 256 + b) ∷ groups rest

-- How many groups of 0 the list begins with.
unfoldable pub zero_run : List ℕ → ℕ
zero_run [] = 0
zero_run (g ∷ gs) = let n = zero_run gs in if g == 0 then n + 1 else 0

-- The start and the length of the first longest run of at least two groups of 0, from the index `i`
-- on, where `(start, len)` is the best run so far.
unfoldable pub longest_run : List ℕ → ℕ → ℕ × ℕ → ℕ × ℕ
unfolding zero_run
longest_run [] i best = best
longest_run (g ∷ gs) i best =
    let n = zero_run (g ∷ gs) in
    let better = longest_run gs (i + 1) (i, n) in
    let same = longest_run gs (i + 1) best in if leb 2 n && ltb best.1 n then better else same

abbrev pub hexes : List ℕ → List Bytes
hexes [] = []
hexes (g ∷ gs) = hex16 g ∷ hexes gs

-- `IP.String` for an address of version 6.
unfoldable pub v6_string : Bytes → Bytes
unfolding groups longest_run hex16
v6_string b =
    let gs = groups b in
    let (start, n) = longest_run gs 0 (0, 0) in
    let colon = b':' ∷ [] in
    if n == 0
    then join colon (hexes gs)
    else join colon (hexes (take start gs))
      ++ (b':' ∷ b':' ∷ join colon (hexes (drop (start + n) gs)))

unfoldable pub decode_aaaa : Bytes → Result Bytes
unfolding is_v4_in_v6 v6_string
decode_aaaa b =
    if not (length b == 16)
    then err (invalid_rdata 28)
    else if is_v4_in_v6 b
    then err (invalid_rdata 28)
    else ok (v6_string b)

-- `To4` of the parsed address.
unfoldable pub encode_a : Bytes → Result Bytes
unfolding to4
encode_a text = elim (parse_ip text) [
  | none ↦ err (invalid_rdata 1)
  | some ip ↦ elim (to4 ip) [ none ↦ err (invalid_rdata 1) | some v4 ↦ ok v4 ]
]

unfoldable pub encode_aaaa : Bytes → Result Bytes
unfolding to4
encode_aaaa text = elim (parse_ip text) [
  | none ↦ err (invalid_rdata 28)
  | some ip ↦ elim (to4 ip) [ none ↦ ok ip | some v4 ↦ err (invalid_rdata 28) ]
]
