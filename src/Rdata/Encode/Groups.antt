-- ===== src/Rdata/Encode/Groups.antt =====
-- The loop of `net.ParseIP` over the groups of an IPv6 address, on printed groups.
use rr_dns.Prelude.{
  ℕ, zero, suc, ◌+◌, ◌/◌, ◌%◌, ◌<◌, ◌≤◌, List, [], ◌∷◌, ◌++◌, length, Option, none, some, ◌≡◌, ◌≢◌,
  sym, ap, All, append_assoc, append-nil, arith, ◌∙◌,
}
use rr_dns.Prelude.Bytes.{Bytes}
use rr_dns.Text.{join}
use rr_dns.Rdata.Address.{hex16, hexes}
use rr_dns.Rdata.Address.Parse.{hex_run, hex_number, v6_groups, fill_gap, after_group, after_colon}
use rr_dns.Rdata.Encode.Hex.{IsHex, hex16-Digits, hex_run-append, hex_run-all}

abbrev pub IsGroup : ℕ → Type 0
IsGroup g = g < 65536

-- The bytes of groups.
abbrev pub bytes_of : List ℕ → Bytes
bytes_of [] = []
bytes_of (g ∷ gs) = g / 256 ∷ g % 256 ∷ bytes_of gs

-- The bytes so far, with those of one more group.
abbrev with_group : Bytes → ℕ → Bytes
with_group ip g = ip ++ g / 256 ∷ g % 256 ∷ []

-- A round of the loop on a text that begins with a group, in terms of the group.
module _ (f : ℕ) (ip : Bytes) (g c : ℕ) (h s : Bytes) where
  abbrev Begins : Bytes → Type 0
  Begins rest = (hex_run s ≡ (c ∷ h, rest)) × (length h ≤ 3) × (hex_number 0 (c ∷ h) ≡ g)

  round-last :
      (gap : Option ℕ) → Begins [] → v6_groups (suc f) ip gap s ≡ fill_gap (with_group ip g) gap
  unfolding v6_groups after_group
  round-last gap b = ground arith

  round-next :
      (gap : Option ℕ) (d : ℕ) (rest : Bytes)
      → Begins (b':' ∷ d ∷ rest)
      → d ≢ b':'
      → v6_groups (suc f) ip gap s ≡ v6_groups f (with_group ip g) gap (d ∷ rest)
  unfolding v6_groups after_group after_colon
  round-next gap d rest b n = ground arith

  round-gap :
      (d : ℕ) (rest : Bytes)
      → Begins (b':' ∷ b':' ∷ d ∷ rest)
      → v6_groups (suc f) ip none s
        ≡ v6_groups f (with_group ip g) (some (length (with_group ip g))) (d ∷ rest)
  unfolding v6_groups after_group after_colon
  round-gap d rest b = ground arith

  round-gap_last :
      Begins (b':' ∷ b':' ∷ [])
      → v6_groups (suc f) ip none s ≡ fill_gap (with_group ip g) (some (length (with_group ip g)))
  unfolding v6_groups after_group after_colon
  round-gap_last b = ground arith

-- Groups as they are printed, with colons between them.
abbrev pub text_of : List ℕ → Bytes
text_of gs = join (b':' ∷ []) (hexes gs)

-- Such a text does not begin with a colon.
pub text_of-start :
    (g : ℕ) (gs : List ℕ) → IsGroup g → (c : ℕ) × (s : Bytes) × (text_of (g ∷ gs) ≡ c ∷ s) × IsHex c
unfolding join
text_of-start g [] h = let d = hex16-Digits g h in (d.first, d.others, d.printed, d.are_hex.0)
text_of-start g (g' ∷ gs) h =
    let d = hex16-Digits g h in
    (
      d.first,
      d.others ++ b':' ∷ text_of (g' ∷ gs),
      ap (λ s. s ++ b':' ∷ text_of (g' ∷ gs)) d.printed,
      d.are_hex.0,
    )

IsHex-ne-colon : (c : ℕ) → IsHex c → c ≢ b':'
IsHex-ne-colon c h e = ground arith

Begins-end :
    (f : ℕ) (ip : Bytes) (g : ℕ) (h : IsGroup g)
    → Begins f ip g (hex16-Digits g h).first (hex16-Digits g h).others (hex16 g) []
Begins-end f ip g h =
    let d = hex16-Digits g h in
    (ap hex_run d.printed ∙ hex_run-all (d.first ∷ d.others) d.are_hex, d.few, d.read)

Begins-colon :
    (f : ℕ) (ip : Bytes) (g : ℕ) (s : Bytes) (h : IsGroup g)
    → Begins f ip g
        (hex16-Digits g h).first
        (hex16-Digits g h).others
        (hex16 g ++ b':' ∷ s)
        (b':' ∷ s)
Begins-colon f ip g s h =
    let d = hex16-Digits g h in
    (
      ap (λ t. hex_run (t ++ b':' ∷ s)) d.printed ∙ hex_run-append (d.first ∷ d.others) s d.are_hex,
      d.few,
      d.read,
    )

-- The loop reads printed groups, of which there are not more than its rounds.
pub v6_groups-text :
    (f : ℕ) (ip : Bytes) (gap : Option ℕ) (g : ℕ) (gs : List ℕ)
    → All IsGroup (g ∷ gs)
    → length gs ≤ f
    → v6_groups (suc f) ip gap (text_of (g ∷ gs)) ≡ fill_gap (ip ++ bytes_of (g ∷ gs)) gap
unfolding join
v6_groups-text f ip gap g [] h le = round-last f ip g _ _ (hex16 g) gap (Begins-end f ip g h.0)
v6_groups-text zero ip gap g (g' ∷ gs) h le = absurd (omega arith)
v6_groups-text (suc f) ip gap g (g' ∷ gs) (hg, h) le =
    let (c, s, e, hex) = text_of-start g' gs h.0 in
    ap (λ t. v6_groups (suc (suc f)) ip gap (hex16 g ++ b':' ∷ t)) e
    ∙ round-next (suc f) ip g _ _ (hex16 g ++ b':' ∷ c ∷ s) gap c s
        (Begins-colon (suc f) ip g (c ∷ s) hg) (IsHex-ne-colon c hex)
    ∙ ap (v6_groups (suc f) (with_group ip g) gap) (sym e)
    ∙ v6_groups-text f (with_group ip g) gap g' gs h (omega arith)
    ∙ ap (λ b. fill_gap b gap) (append_assoc ip _ (bytes_of (g' ∷ gs)))

-- The loop behind the "::" reads what is left, if anything is.
v6_groups-rest :
    (f : ℕ) (ip : Bytes) (g : ℕ) (gs : List ℕ) (h : IsGroup g)
    → All IsGroup gs
    → length gs ≤ f
    → v6_groups (suc f) ip none (hex16 g ++ b':' ∷ b':' ∷ text_of gs)
      ≡ fill_gap (with_group ip g ++ bytes_of gs) (some (length (with_group ip g)))
unfolding join
v6_groups-rest f ip g [] h hs le =
    round-gap_last f ip g _ _ (hex16 g ++ b':' ∷ b':' ∷ []) (Begins-colon f ip g (b':' ∷ []) h)
    ∙ ap (λ b. fill_gap b (some (length (with_group ip g)))) (sym (append-nil (with_group ip g)))
v6_groups-rest zero ip g (g' ∷ gs) h hs le = absurd (omega arith)
v6_groups-rest (suc f) ip g (g' ∷ gs) h hs le =
    let (c, s, e, hex) = text_of-start g' gs hs.0 in
    ap (λ t. v6_groups (suc (suc f)) ip none (hex16 g ++ b':' ∷ b':' ∷ t)) e
    ∙ round-gap (suc f) ip g _ _ (hex16 g ++ b':' ∷ b':' ∷ c ∷ s) c s
        (Begins-colon (suc f) ip g (b':' ∷ c ∷ s) h)
    ∙ ap (v6_groups (suc f) (with_group ip g) (some (length (with_group ip g)))) (sym e)
    ∙ v6_groups-text f (with_group ip g) (some (length (with_group ip g))) g' gs hs (omega arith)

-- The loop reads groups, a "::" and groups.
pub v6_groups-gap :
    (f : ℕ) (ip : Bytes) (g : ℕ) (gs rest : List ℕ)
    → All IsGroup (g ∷ gs)
    → All IsGroup rest
    → length gs + length rest ≤ f
    → v6_groups (suc f) ip none (text_of (g ∷ gs) ++ b':' ∷ b':' ∷ text_of rest)
      ≡ fill_gap
          (ip ++ (bytes_of (g ∷ gs) ++ bytes_of rest))
          (some (length (ip ++ bytes_of (g ∷ gs))))
unfolding join
v6_groups-gap f ip g [] rest h hr le =
    v6_groups-rest f ip g rest h.0 hr (omega arith)
    ∙ ap (λ b. fill_gap b (some (length (with_group ip g)))) (append_assoc ip _ (bytes_of rest))
v6_groups-gap zero ip g (g' ∷ gs) rest h hr le = absurd (omega arith)
v6_groups-gap (suc f) ip g (g' ∷ gs) rest (hg, h) hr le =
    let (c, s, e, hex) = text_of-start g' gs h.0 in
    let tail = b':' ∷ b':' ∷ text_of rest in
    ap (v6_groups (suc (suc f)) ip none) (
      append_assoc (hex16 g) (b':' ∷ text_of (g' ∷ gs)) tail
      ∙ ap (λ t. hex16 g ++ b':' ∷ (t ++ tail)) e)
    ∙ round-next (suc f) ip g _ _ (hex16 g ++ b':' ∷ c ∷ (s ++ tail)) none c (s ++ tail)
        (Begins-colon (suc f) ip g (c ∷ (s ++ tail)) hg) (IsHex-ne-colon c hex)
    ∙ ap (λ t. v6_groups (suc f) (with_group ip g) none (t ++ tail)) (sym e)
    ∙ v6_groups-gap f (with_group ip g) g' gs rest h hr (omega arith)
    ∙ ap (λ b. fill_gap b (some (length (with_group ip g ++ bytes_of (g' ∷ gs)))))
        (append_assoc ip _ (bytes_of (g' ∷ gs) ++ bytes_of rest))
    ∙ ap (λ b. fill_gap (ip ++ (bytes_of (g ∷ g' ∷ gs) ++ bytes_of rest)) (some (length b)))
        (append_assoc ip _ (bytes_of (g' ∷ gs)))
