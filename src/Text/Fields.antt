-- ===== src/Text/Fields.antt =====
-- `strings.Fields`, `strings.Trim` of a byte, and the numbers of `strconv`.
use rr_dns.Prelude.{
  ℕ, ◌+◌, ◌-◌, ◌*◌, ◌^◌, List, [], ◌∷◌, Bool, false, not, ◌&&◌, leb, ltb, ◌==◌, if◌then◌else◌, all,
  Option, none, some,
}
use rr_dns.Prelude.Bytes.{Bytes}
use rr_dns.Text.{is_space, trim_left, trim_right, cons_first}

-- `strings.FieldsFunc`: the runs of bytes that do not pass the test.
module _ (p : ℕ → Bool) where
  -- A word goes on with the first byte of the text.
  unfoldable pub word_goes_on : Bytes → Bool
  word_goes_on [] = false
  word_goes_on (c ∷ s) = not (p c)

  unfoldable pub fields_by : Bytes → List Bytes
  unfolding word_goes_on
  fields_by [] = []
  fields_by (c ∷ s) =
      let rest = fields_by s in
      if p c then rest else if word_goes_on s then cons_first c rest else (c ∷ []) ∷ rest

-- `strings.Fields`
unfoldable pub fields : Bytes → List Bytes
unfolding fields_by
fields = fields_by is_space

-- `strings.Trim(s, "\"")`
unfoldable pub trim_quotes : Bytes → Bytes
trim_quotes s = trim_right (λ c. c == b'"') (trim_left (λ c. c == b'"') s)

abbrev pub is_digit : ℕ → Bool
is_digit c = leb b'0' c && leb c b'9'

-- The number that digits spell behind `n`.
unfoldable pub value : ℕ → Bytes → ℕ
value n [] = n
value n (c ∷ s) = value (n * 10 + (c - b'0')) s

-- `strconv.ParseUint(s, 10, bits)` for a text without an error.
unfoldable pub parse_uint : ℕ → Bytes → Option ℕ
unfolding value
parse_uint bits [] = none
parse_uint bits (c ∷ s) =
    if all is_digit (c ∷ s) && ltb (value 0 (c ∷ s)) (2 ^ bits)
    then some (value 0 (c ∷ s))
    else none

-- `strconv.Atoi`, for a result that is not negative: a sign may stand in front.
unfoldable pub atoi : Bytes → Option ℕ
unfolding parse_uint
atoi [] = none
atoi (c ∷ s) =
    if c == b'+'
    then parse_uint 63 s
    else if c == b'-'
    then elim (parse_uint 63 s) [ none ↦ none | some n ↦ if n == 0 then some 0 else none ]
    else parse_uint 63 (c ∷ s)
