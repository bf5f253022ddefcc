-- ===== src/Rdata/Encode/Aaaa.antt =====
-- The data of an AAAA record are read back from their text.
use rr_dns.Prelude.{
  false, none, refl, ok, ◌>>=◌, ℕ, zero, suc, ◌+◌, ◌<◌, ◌==◌, List, [], ◌∷◌, length, take, drop,
  some, ◌≡◌, ◌≢◌, ap, ◌∙◌, All, All-append, Bool-cases, inl, inr, ◌⊎◌, arith,
}
use rr_dns.Prelude.Bytes.{Bytes}
use rr_dns.Rdata.{decode, is_name_type}
use rr_dns.Text.{dot, join}
use rr_dns.Rdata.Address.{
  is_v4_in_v6, decode_aaaa, encode_aaaa, to4, groups, hex16, longest_run, v6_string,
}
use rr_dns.Rdata.Address.Parse.{parse_ip}
use rr_dns.Rdata.Encode.Hex.{IsHex, hex16-Digits}
use rr_dns.Rdata.Encode.Groups.{IsGroup, text_of}
use rr_dns.Rdata.Encode.Runs.{longest_run-IsRun}
use rr_dns.Rdata.Encode.Pairs.{length-Paired, length-groups, groups-IsGroup, bytes_of-groups}
use rr_dns.Rdata.Encode.Printed.{printed, printed-parse, is_v4_text-false}

-- A hexadecimal digit or a colon.
abbrev pub IsAddressByte : ℕ → Type 0
IsAddressByte c = IsHex c ⊎ (c ≡ b':')

IsAddressByte-ne-dot : (c : ℕ) → IsAddressByte c → c ≢ dot
IsAddressByte-ne-dot c (inl h) e = ground arith
IsAddressByte-ne-dot c (inr h) e = ground arith

IsAddressByte-Lacks : (s : Bytes) → All IsAddressByte s → All (λ c. c ≢ dot) s
IsAddressByte-Lacks [] h = tt
IsAddressByte-Lacks (c ∷ s) h = (IsAddressByte-ne-dot c h.0, IsAddressByte-Lacks s h.1)

IsHex-IsAddressByte : (s : Bytes) → All IsHex s → All IsAddressByte s
IsHex-IsAddressByte [] h = tt
IsHex-IsAddressByte (c ∷ s) h = (inl h.0, IsHex-IsAddressByte s h.1)

hex16-IsAddressByte : (g : ℕ) → IsGroup g → All IsAddressByte (hex16 g)
hex16-IsAddressByte g h =
    let d = hex16-Digits g h in rw d.printed (IsHex-IsAddressByte (d.first ∷ d.others) d.are_hex)

text_of-IsAddressByte : (gs : List ℕ) → All IsGroup gs → All IsAddressByte (text_of gs)
unfolding join
text_of-IsAddressByte [] h = tt
text_of-IsAddressByte (g ∷ []) h = hex16-IsAddressByte g h.0
text_of-IsAddressByte (g ∷ g' ∷ gs) h =
    All-append IsAddressByte (hex16 g) (b':' ∷ text_of (g' ∷ gs)) (hex16-IsAddressByte g h.0)
      (inr refl, text_of-IsAddressByte (g' ∷ gs) h.1)

All-take : (gs : List ℕ) (n : ℕ) → All IsGroup gs → All IsGroup (take n gs)
All-take gs zero h = tt
All-take [] (suc n) h = tt
All-take (g ∷ gs) (suc n) h = (h.0, All-take gs n h.1)

All-drop : (gs : List ℕ) (n : ℕ) → All IsGroup gs → All IsGroup (drop n gs)
All-drop gs zero h = h
All-drop [] (suc n) h = tt
All-drop (g ∷ gs) (suc n) h = All-drop gs n h.1

printed-IsAddressByte :
    (gs : List ℕ) (run : ℕ × ℕ) → All IsGroup gs → All IsAddressByte (printed gs run)
printed-IsAddressByte gs (start, n) h = elim (Bool-cases (n == 0)) [
  | inl e ↦ rw e (text_of-IsAddressByte gs h)
  | inr e ↦ rw e (
      All-append IsAddressByte (text_of (take start gs))
        (b':' ∷ b':' ∷ text_of (drop (start + n) gs))
        (text_of-IsAddressByte (take start gs) (All-take gs start h))
        (
          inr refl,
          (inr refl, text_of-IsAddressByte (drop (start + n) gs) (All-drop gs (start + n) h)),
        ))
]

-- The address is read back from its text.
pub parse_ip-v6_string :
    (b : Bytes) → length b ≡ 16 → All (λ c. c < 256) b → parse_ip (v6_string b) ≡ some b
unfolding parse_ip v6_string
parse_ip-v6_string b l h =
    let p = length-Paired 8 b l in
    let gs = groups b in
    let run = longest_run gs 0 (0, 0) in
    let are_groups = groups-IsGroup p h in
    rw
      (is_v4_text-false (printed gs run)
        (IsAddressByte-Lacks (printed gs run) (printed-IsAddressByte gs run are_groups)))
      (printed-parse gs run.0 run.1 (longest_run-IsRun gs) are_groups (length-groups p)
        ∙ ap some (bytes_of-groups p h))

-- The text of an address has no other bytes.
pub v6_string-IsAddressByte :
    (b : Bytes) → length b ≡ 16 → All (λ c. c < 256) b → All IsAddressByte (v6_string b)
unfolding v6_string
v6_string-IsAddressByte b l h =
    printed-IsAddressByte (groups b) (longest_run (groups b) 0 (0, 0))
      (groups-IsGroup (length-Paired 8 b l) h)

-- Sixteen bytes that do not stand for an address of version 4.
abbrev pub IsV6 : Bytes → Type 0
IsV6 b = (length b ≡ 16) × All (λ c. c < 256) b × (is_v4_in_v6 b ≡ false)

to4-none : (b : Bytes) → IsV6 b → to4 b ≡ none
unfolding to4
to4-none b (l, h, v) = rw (to4, l) (rw v refl)

encode_aaaa-some : (s b : Bytes) → parse_ip s ≡ some b → to4 b ≡ none → encode_aaaa s ≡ ok b
unfolding encode_aaaa
encode_aaaa-some s b e n = rw (encode_aaaa, e) (rw n refl)

encode_aaaa-v6_string : (b : Bytes) → IsV6 b → encode_aaaa (v6_string b) ≡ ok b
encode_aaaa-v6_string b h =
    encode_aaaa-some (v6_string b) b (parse_ip-v6_string b h.0 h.1) (to4-none b h)

decode_aaaa-v6_string : (b : Bytes) → IsV6 b → decode 28 b ≡ ok (v6_string b)
unfolding decode is_name_type decode_aaaa
decode_aaaa-v6_string b (l, h, v) = rw (decode_aaaa, l) (rw v refl)

pub decode_aaaa-encode_aaaa :
    (b : Bytes) → IsV6 b → (encode_aaaa (v6_string b) >>= decode 28) ≡ ok (v6_string b)
decode_aaaa-encode_aaaa b h = rw (encode_aaaa-v6_string b h) (decode_aaaa-v6_string b h)

pub encode_aaaa-decode_aaaa : (b : Bytes) → IsV6 b → (decode 28 b >>= encode_aaaa) ≡ ok b
encode_aaaa-decode_aaaa b h = rw (decode_aaaa-v6_string b h) (encode_aaaa-v6_string b h)
