-- ===== src/App/Order.antt =====
-- The order of the zones does not matter where their roots differ.
use mathlib.Core.Path.{subst}
use mathlib.Core.List.{Permᴰ}
use rr_dns.Prelude.{List, [], ◌∷◌, if◌then◌else◌, Option, none, some, ◌≡◌, refl, sym, ◌∙◌, arith}
use rr_dns.Prelude.Bytes.{Bytes, bytes_eq, bytes_eq_iff}
use rr_dns.Prelude.Assoc.{Assoc}
use rr_dns.Names.{canonical_dns_name}
use rr_dns.Domain.Record.{ResourceRecord}

-- The records of the zone with the canonical root `apex`.
abbrev pub zone_of : Bytes → Assoc (List ResourceRecord) → Option (List ResourceRecord)
zone_of apex [] = none
zone_of apex ((root, rrs) ∷ zones) =
    if bytes_eq (canonical_dns_name root) apex then some rrs else zone_of apex zones

-- No two zones have the same root in canonical form.
abbrev pub HaveDistinctRoots : Assoc (List ResourceRecord) → Type 0
HaveDistinctRoots [] = Unit
HaveDistinctRoots ((root, rrs) ∷ zones) =
    (zone_of (canonical_dns_name root) zones ≡ none) × HaveDistinctRoots zones

abbrev Zone : Type 0
Zone = Bytes × List ResourceRecord

zone_of-cons :
    (apex : Bytes) (z z' : Zone) (zones zones' : Assoc (List ResourceRecord))
    → z ≡ z'
    → zone_of apex zones ≡ zone_of apex zones'
    → zone_of apex (z ∷ zones) ≡ zone_of apex (z' ∷ zones')
zone_of-cons apex z z' zones zones' e h = rw (e, h) refl

-- Either order of two zones with different roots.
zone_of-swap :
    (apex : Bytes) (a b : Zone) (zones : Assoc (List ResourceRecord))
    → zone_of (canonical_dns_name a.0) (b ∷ zones) ≡ none
    → zone_of apex (a ∷ b ∷ zones) ≡ zone_of apex (b ∷ a ∷ zones)
zone_of-swap apex (root, rrs) (root', rrs') zones h = ground (
  arith,
  bytes_eq_iff (canonical_dns_name root) apex,
  bytes_eq_iff (canonical_dns_name root') apex,
  bytes_eq_iff (canonical_dns_name root') (canonical_dns_name root),
)

HaveDistinctRoots-swap :
    (a b : Zone) (zones : Assoc (List ResourceRecord))
    → HaveDistinctRoots (a ∷ b ∷ zones)
    → HaveDistinctRoots (b ∷ a ∷ zones)
HaveDistinctRoots-swap (root, rrs) (root', rrs') zones h =
    let facts = bytes_eq_iff (canonical_dns_name root) (canonical_dns_name root') in
    let facts' = bytes_eq_iff (canonical_dns_name root') (canonical_dns_name root) in
    (ground (arith, facts, facts', h.0, h.1.0), (ground (arith, facts, facts', h.0, h.1.0), h.1.1))

pub HaveDistinctRoots-order :
    {zones zones' : Assoc (List ResourceRecord)}
    → Permᴰ zones zones'
    → HaveDistinctRoots zones
    → HaveDistinctRoots zones' × ((apex : Bytes) → zone_of apex zones ≡ zone_of apex zones')
HaveDistinctRoots-order Permᴰ.nil h = (tt, λ apex. refl)
HaveDistinctRoots-order (Permᴰ.cons {a} {b} {l₁} {l₂} e d) h =
    let (distinct, same) = HaveDistinctRoots-order d h.1 in
    (
      (sym (same (canonical_dns_name b.0)) ∙ rw (← e) h.0, distinct),
      λ apex. zone_of-cons apex a b l₁ l₂ e (same apex),
    )
HaveDistinctRoots-order (Permᴰ.swap {a} {b} {a'} {b'} {l} e e') h = (
  subst (λ z. HaveDistinctRoots (z ∷ b' ∷ l)) e'
      (subst (λ z. HaveDistinctRoots (b ∷ z ∷ l)) e (HaveDistinctRoots-swap a b l h)),
  λ apex.
      subst (λ z. zone_of apex (a ∷ b ∷ l) ≡ zone_of apex (z ∷ b' ∷ l)) e'
        (subst (λ z. zone_of apex (a ∷ b ∷ l) ≡ zone_of apex (b ∷ z ∷ l)) e
          (zone_of-swap apex a b l h.0)),
)
HaveDistinctRoots-order (Permᴰ.trans d d') h =
    let (distinct, same) = HaveDistinctRoots-order d h in
    let (distinct', same') = HaveDistinctRoots-order d' distinct in
    (distinct', λ apex. same apex ∙ same' apex)
