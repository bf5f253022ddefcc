-- ===== src/Domain/Codes.antt =====
-- rrtype.go, rrclass.go and rcode.go: the numeric codes and their names. Each `switch` over
-- constants is a table of its own that is searched from the top, with the `default` behind it.
pub mod Laws
use rr_dns.Prelude.{ℕ, List, [], ◌∷◌, ◌++◌, Bool, true, false, ◌||◌, leb, ◌==◌, if◌then◌else◌}
use rr_dns.Prelude.Bytes.{Bytes, codes, bytes_eq}
use rr_dns.Text.Decimal.{decimal}

-- `uint16`, `uint16` and `uint8` in the source; the ranges are hypotheses where they matter.
abbrev pub RrType : Type 0
RrType = ℕ

abbrev pub RrClass : Type 0
RrClass = ℕ

abbrev pub RCode : Type 0
RCode = ℕ

abbrev pub rrtype_cname : RrType
rrtype_cname = 5

abbrev pub rrclass_in : RrClass
rrclass_in = 1

abbrev pub noerror : RCode
noerror = 0

abbrev pub servfail : RCode
servfail = 2

abbrev pub nxdomain : RCode
nxdomain = 3

abbrev pub Table : Type 0
Table = List (ℕ × Bytes)

-- The cases of `RRType.IsValid`.
abbrev pub valid_rrtypes : List ℕ
valid_rrtypes =
    1 ∷ 2 ∷ 5 ∷ 6 ∷ 12 ∷ 15 ∷ 16 ∷ 28 ∷ 33 ∷ 35 ∷ 41 ∷ 43 ∷ 46 ∷ 47 ∷ 48 ∷ 52 ∷ 64 ∷ 65 ∷ 255 ∷ 257
    ∷ []

-- The cases of `RRType.String`.
abbrev pub rrtype_names : Table
rrtype_names =
    (1, codes "A")
    ∷ (2, codes "NS")
    ∷ (5, codes "CNAME")
    ∷ (6, codes "SOA")
    ∷ (12, codes "PTR")
    ∷ (15, codes "MX")
    ∷ (16, codes "TXT")
    ∷ (28, codes "AAAA")
    ∷ (33, codes "SRV")
    ∷ (35, codes "NAPTR")
    ∷ (41, codes "OPT")
    ∷ (43, codes "DS")
    ∷ (46, codes "RRSIG")
    ∷ (47, codes "NSEC")
    ∷ (48, codes "DNSKEY")
    ∷ (52, codes "TLSA")
    ∷ (64, codes "SVCB")
    ∷ (65, codes "HTTPS")
    ∷ (255, codes "ANY")
    ∷ (257, codes "CAA")
    ∷ []

-- The cases of `RRTypeFromString`.
abbrev pub rrtype_codes : List (Bytes × ℕ)
rrtype_codes =
    (codes "A", 1)
    ∷ (codes "NS", 2)
    ∷ (codes "CNAME", 5)
    ∷ (codes "SOA", 6)
    ∷ (codes "PTR", 12)
    ∷ (codes "MX", 15)
    ∷ (codes "TXT", 16)
    ∷ (codes "AAAA", 28)
    ∷ (codes "SRV", 33)
    ∷ (codes "NAPTR", 35)
    ∷ (codes "OPT", 41)
    ∷ (codes "DS", 43)
    ∷ (codes "RRSIG", 46)
    ∷ (codes "NSEC", 47)
    ∷ (codes "DNSKEY", 48)
    ∷ (codes "TLSA", 52)
    ∷ (codes "SVCB", 64)
    ∷ (codes "HTTPS", 65)
    ∷ (codes "ANY", 255)
    ∷ (codes "CAA", 257)
    ∷ []

-- The cases of `RRClass.IsValid`.
abbrev pub valid_rrclasses : List ℕ
valid_rrclasses = 1 ∷ 3 ∷ 4 ∷ 254 ∷ 255 ∷ []

-- The cases of `RRClass.String`.
abbrev pub rrclass_names : Table
rrclass_names =
    (1, codes "IN")
    ∷ (3, codes "CH")
    ∷ (4, codes "HS")
    ∷ (254, codes "NONE")
    ∷ (255, codes "ANY")
    ∷ []

-- The cases of `ParseRRClass`.
abbrev pub rrclass_codes : List (Bytes × ℕ)
rrclass_codes =
    (codes "IN", 1)
    ∷ (codes "CH", 3)
    ∷ (codes "HS", 4)
    ∷ (codes "NONE", 254)
    ∷ (codes "ANY", 255)
    ∷ []

-- The cases of `RCode.String`.
abbrev pub rcode_names : Table
rcode_names =
    (0, codes "NOERROR")
    ∷ (1, codes "FORMERR")
    ∷ (2, codes "SERVFAIL")
    ∷ (3, codes "NXDOMAIN")
    ∷ (4, codes "NOTIMP")
    ∷ (5, codes "REFUSED")
    ∷ (6, codes "YXDOMAIN")
    ∷ (7, codes "YXRRSET")
    ∷ (8, codes "NXRRSET")
    ∷ (9, codes "NOTAUTH")
    ∷ (10, codes "NOTZONE")
    ∷ []

-- The cases of `ParseRCode`.
abbrev pub rcode_codes : List (Bytes × ℕ)
rcode_codes =
    (codes "NOERROR", 0)
    ∷ (codes "FORMERR", 1)
    ∷ (codes "SERVFAIL", 2)
    ∷ (codes "NXDOMAIN", 3)
    ∷ (codes "NOTIMP", 4)
    ∷ (codes "REFUSED", 5)
    ∷ (codes "YXDOMAIN", 6)
    ∷ (codes "YXRRSET", 7)
    ∷ (codes "NXRRSET", 8)
    ∷ (codes "NOTAUTH", 9)
    ∷ (codes "NOTZONE", 10)
    ∷ []

unfoldable pub has_code : List ℕ → ℕ → Bool
has_code [] n = false
has_code (m ∷ t) n = n == m || has_code t n

unfoldable pub name_of : Table → Bytes → ℕ → Bytes
name_of [] unknown n = unknown
name_of ((m, s) ∷ t) unknown n = if n == m then s else name_of t unknown n

unfoldable pub code_of : List (Bytes × ℕ) → Bytes → ℕ
code_of [] name = 0
code_of ((s, m) ∷ t) name = if bytes_eq name s then m else code_of t name

-- `fmt.Sprintf("UNKNOWN(%d)", n)`
abbrev pub unknown_code : ℕ → Bytes
unknown_code n = codes "UNKNOWN(" ++ (decimal n ++ codes ")")

-- RRType.IsValid, RRType.String, RRTypeFromString
unfoldable pub rrtype_is_valid : RrType → Bool
unfolding has_code
rrtype_is_valid t = has_code valid_rrtypes t

unfoldable pub rrtype_string : RrType → Bytes
unfolding name_of
rrtype_string t = name_of rrtype_names (unknown_code t) t

unfoldable pub rrtype_from_string : Bytes → RrType
unfolding code_of bytes_eq
rrtype_from_string s = code_of rrtype_codes s

-- RRClass.IsValid, RRClass.String, ParseRRClass
unfoldable pub rrclass_is_valid : RrClass → Bool
unfolding has_code
rrclass_is_valid c = has_code valid_rrclasses c

unfoldable pub rrclass_string : RrClass → Bytes
unfolding name_of
rrclass_string c = name_of rrclass_names (codes "UNKNOWN") c

unfoldable pub parse_rrclass : Bytes → RrClass
unfolding code_of bytes_eq
parse_rrclass s = code_of rrclass_codes s

-- RCode.IsValid, RCode.String, ParseRCode
unfoldable pub rcode_is_valid : RCode → Bool
rcode_is_valid r = leb r 10

unfoldable pub rcode_string : RCode → Bytes
unfolding name_of
rcode_string r = name_of rcode_names (unknown_code r) r

unfoldable pub parse_rcode : Bytes → RCode
unfolding code_of bytes_eq
parse_rcode s = code_of rcode_codes s
