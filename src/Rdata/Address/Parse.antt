-- ===== src/Rdata/Address/Parse.antt =====
-- `net.ParseIP`: the 16 bytes of an address from its text, of either version.
use rr_dns.Prelude.{
  Bool, ℕ, zero, suc, ◌+◌, ◌-◌, ◌*◌, ◌/◌, ◌%◌, ltb, leb, ◌==◌, not, ◌&&◌, ◌||◌, if◌then◌else◌,
  false, List, [], ◌∷◌, ◌++◌, length, take, drop, all, is_empty, Option, none, some,
}
use rr_dns.Prelude.Bytes.{Bytes}
use rr_dns.Text.{dot, split}
use rr_dns.Text.Fields.{is_digit, value}

-- A decimal number up to 255 without a leading zero.
unfoldable pub octet : Bytes → Option ℕ
octet [] = none
octet (c ∷ s) =
    if not (all is_digit (c ∷ s)) || (c == b'0' && not (is_empty s)) || ltb 255 (value 0 (c ∷ s))
    then none
    else some (value 0 (c ∷ s))

unfoldable pub octets : List Bytes → Option Bytes
unfolding octet
octets [] = some []
octets (p ∷ ps) = elim (octet p) [
  | none ↦ none
  | some n ↦ elim (octets ps) [ none ↦ none | some ns ↦ some (n ∷ ns) ]
]

-- Four numbers with dots between them.
unfoldable pub parse_v4 : Bytes → Option Bytes
unfolding octets
parse_v4 s = if length (split dot s) == 4 then octets (split dot s) else none

abbrev pub zeros : ℕ → Bytes
zeros zero = []
zeros (suc n) = 0 ∷ zeros n

abbrev pub is_hex : ℕ → Bool
is_hex c = is_digit c || (leb b'a' c && leb c b'f') || (leb b'A' c && leb c b'F')

abbrev pub hex_value : ℕ → ℕ
hex_value c = if leb c b'9' then c - b'0' else if leb c b'F' then c - 55 else c - 87

-- The hexadecimal digits in front, and the rest.
unfoldable pub hex_run : Bytes → Bytes × Bytes
hex_run [] = ([], [])
hex_run (c ∷ s) = let (h, rest) = hex_run s in if is_hex c then (c ∷ h, rest) else ([], c ∷ s)

unfoldable pub hex_number : ℕ → Bytes → ℕ
hex_number n [] = n
hex_number n (c ∷ s) = hex_number (n * 16 + hex_value c) s

abbrev pub starts_with : ℕ → Bytes → Bool
starts_with c [] = false
starts_with c (d ∷ s) = c == d

-- The bytes so far with the gap of the `::`, if there is one, filled up to 16 bytes.
unfoldable pub fill_gap : Bytes → Option ℕ → Option Bytes
fill_gap ip none = if length ip == 16 then some ip else none
fill_gap ip (some gap) =
    if ltb (length ip) 16
    then some (take gap ip ++ (zeros (16 - length ip) ++ drop gap ip))
    else none

-- What follows a group of digits.
pub data After : Type 0 where
  stop : After
  go_on : Option ℕ → Bytes → After
  broken : After

-- A colon and a further group, or a second colon, which is the only `::`.
unfoldable pub after_colon : ℕ → Option ℕ → Bytes → After
after_colon n gap [] = broken
after_colon n gap (c ∷ s) =
    if not (c == b':')
    then go_on gap (c ∷ s)
    else elim gap [ some g ↦ broken | none ↦ go_on (some n) s ]

unfoldable pub after_group : ℕ → Option ℕ → Bytes → After
unfolding after_colon
after_group n gap [] = stop
after_group n gap (c ∷ s) = if c == b':' then after_colon n gap s else broken

-- The loop over the groups of an address of version 6, of which at most eight fit: `ip` holds the
-- bytes so far, `gap` where the `::` stands. A text that ends behind `::` ends the loop.
unfoldable pub v6_groups : ℕ → Bytes → Option ℕ → Bytes → Option Bytes
unfolding fill_gap hex_run hex_number after_group
v6_groups zero ip gap s = if is_empty s then fill_gap ip gap else none
v6_groups (suc f) ip gap s =
    let (h, rest) = hex_run s in
    let n = hex_number 0 h in
    let ip' = ip ++ ((n / 256) ∷ n % 256 ∷ []) in
    if is_empty h || ltb 4 (length h)
    then none
    else if starts_with dot rest
    then elim (parse_v4 s) [
      | none ↦ none
      | some v4 ↦ if ltb 12 (length ip) then none else fill_gap (ip ++ v4) gap
    ]
    else elim (after_group (length ip') gap rest) [
      | broken ↦ none
      | stop ↦ fill_gap ip' gap
      | go_on gap' [] ↦ fill_gap ip' gap'
      | go_on gap' (c ∷ s') ↦ v6_groups f ip' gap' (c ∷ s')
    ]

-- With a `::` in front there is a gap before the first group. A zone behind `%` is refused.
unfoldable pub parse_v6 : Bytes → Option Bytes
unfolding v6_groups
parse_v6 (c ∷ d ∷ s) =
    if c == b':' && d == b':'
    then (if is_empty s then some (zeros 16) else v6_groups 8 [] (some 0) s)
    else v6_groups 8 [] none (c ∷ d ∷ s)
parse_v6 s = v6_groups 8 [] none s

-- The first dot or colon tells the versions apart.
unfoldable pub is_v4_text : Bytes → Bool
is_v4_text [] = false
is_v4_text (c ∷ s) = c == dot || (not (c == b':' || c == b'%') && is_v4_text s)

-- The bytes of an address of version 4 in 16 bytes.
unfoldable pub v4_in_v6 : Bytes → Bytes
v4_in_v6 v4 = zeros 10 ++ (255 ∷ 255 ∷ v4)

unfoldable pub parse_ip : Bytes → Option Bytes
unfolding parse_v4 parse_v6
parse_ip s =
    if is_v4_text s
    then elim (parse_v4 s) [ none ↦ none | some v4 ↦ some (v4_in_v6 v4) ]
    else parse_v6 s
