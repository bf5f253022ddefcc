-- ===== src/Domain/CacheKey/Laws.antt =====
-- Which lookups share a cache key.
use rr_dns.Prelude.{
  sym, ap, ◌∙◌, ℕ, [], ◌∷◌, ◌++◌, true, ◌≡◌, ◌≢◌, ◌↔◌, arith, some, Option-cases, inl, inr,
}
use rr_dns.Prelude.Bytes.{Bytes, Lacks, append_sep_injective}
use rr_dns.Text.{to_lower, lower, trim_space}
use rr_dns.Text.Trim.{All-trim_right, All-trim_left}
use rr_dns.Names.{PublicSuffix, canonical_dns_name, get_apex_domain}
use rr_dns.Names.Canonical.{canonical_dns_name-trim_right}
use rr_dns.Domain.Codes.{
  rrtype_is_valid, rrclass_is_valid, rrtype_string, rrclass_string, rrtype_from_string,
  parse_rrclass,
}
use rr_dns.Domain.Codes.Laws.{codes_round_trip, rrtype_string-Lacks_pipe, rcode_is_valid-noerror}
use rr_dns.Domain.CacheKey.{pipe, generate_cache_key}

lower-ne-pipe : (c : ℕ) → c ≢ pipe → lower c ≢ pipe
unfolding lower
lower-ne-pipe c h = ground arith

to_lower-Lacks : (s : Bytes) → Lacks pipe s → Lacks pipe (to_lower s)
unfolding to_lower
to_lower-Lacks [] h = tt
to_lower-Lacks (c ∷ s) (hc, h) = (lower-ne-pipe c hc, to_lower-Lacks s h)

trim_space-Lacks : (s : Bytes) → Lacks pipe s → Lacks pipe (trim_space s)
unfolding trim_space
trim_space-Lacks s h = All-trim_right _ _ _ (All-trim_left _ _ s h)

canonical_dns_name-Lacks : (s : Bytes) → Lacks pipe s → Lacks pipe (canonical_dns_name s)
canonical_dns_name-Lacks s h =
    rw (canonical_dns_name-trim_right s)
      (All-trim_right _ _ _ (to_lower-Lacks _ (trim_space-Lacks s h)))

-- The registrable domain is a part of the name, so it brings in no byte of its own.
abbrev pub KeepsLacks : PublicSuffix → Type 0
KeepsLacks psl = (b : ℕ) (name apex : Bytes) → psl name ≡ some apex → Lacks b name → Lacks b apex

module _ (psl : PublicSuffix) (keeps : KeepsLacks psl) where
  get_apex_domain-Lacks : (s : Bytes) → Lacks pipe s → Lacks pipe (get_apex_domain psl s)
  unfolding get_apex_domain
  get_apex_domain-Lacks s h = elim (Option-cases (psl (canonical_dns_name s))) [
    | inl e ↦ rw (e, get_apex_domain) (canonical_dns_name-Lacks s h)
    | inr (apex, e) ↦ rw (e, get_apex_domain) (keeps pipe _ apex e (canonical_dns_name-Lacks s h))
  ]

  key_parts :
      (m n : Bytes) (s t c d : Bytes)
      → Lacks pipe m
      → Lacks pipe n
      → Lacks pipe s
      → Lacks pipe t
      → get_apex_domain psl m ++ (pipe ∷ (m ++ (pipe ∷ (s ++ (pipe ∷ c)))))
        ≡ get_apex_domain psl n ++ (pipe ∷ (n ++ (pipe ∷ (t ++ (pipe ∷ d)))))
      → (m ≡ n) × (s ≡ t) × (c ≡ d)
  key_parts m n s t c d hm hn hs ht e =
      let (_, e1) =
        append_sep_injective pipe _ _ _ _ (get_apex_domain-Lacks m hm) (get_apex_domain-Lacks n hn)
          e in
      let (em, e2) = append_sep_injective pipe m n _ _ hm hn e1 in
      let (es, ec) = append_sep_injective pipe s t _ _ hs ht e2 in (em, es, ec)

  -- For names without `|`, and types and classes that `IsValid` accepts, two lookups share a cache
  -- key exactly when the canonical names, the types and the classes agree.
  pub generate_cache_key-eq_iff :
      (m n : Bytes) (s t c d : ℕ)
      → Lacks pipe m
      → Lacks pipe n
      → rrtype_is_valid s ≡ true
      → rrtype_is_valid t ≡ true
      → rrclass_is_valid c ≡ true
      → rrclass_is_valid d ≡ true
      → (generate_cache_key psl m s c ≡ generate_cache_key psl n t d)
        ↔ ((canonical_dns_name m ≡ canonical_dns_name n) × (s ≡ t) × (c ≡ d))
  unfolding generate_cache_key
  generate_cache_key-eq_iff m n s t c d hm hn hs ht hc hd = (apart, λ (e, f, g). rw (e, f, g))
    where
      name_back :
          (r k : ℕ)
          → rrtype_is_valid r ≡ true
          → rrclass_is_valid k ≡ true
          → (rrtype_from_string (rrtype_string r) ≡ r) × (parse_rrclass (rrclass_string k) ≡ k)
      name_back r k hr hk =
          let (a, b, _) = codes_round_trip r k 0 hr hk rcode_is_valid-noerror in (a, b)

      apart :
          generate_cache_key psl m s c ≡ generate_cache_key psl n t d
          → (canonical_dns_name m ≡ canonical_dns_name n) × (s ≡ t) × (c ≡ d)
      apart e =
          let (em, es, ec) =
            key_parts _ _ _ _ _ _ (canonical_dns_name-Lacks m hm) (canonical_dns_name-Lacks n hn)
              (rrtype_string-Lacks_pipe s hs) (rrtype_string-Lacks_pipe t ht) e in
          let (sb, cb) = name_back s c hs hc in
          let (tb, db) = name_back t d ht hd in
          (em, sym sb ∙ ap rrtype_from_string es ∙ tb, sym cb ∙ ap parse_rrclass ec ∙ db)
