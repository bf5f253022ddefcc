-- ===== src/Resolver/Alias/Lookup.antt =====
-- What a hop of the chase looks up, told apart from `resolveNext`: the records of the zone for the
-- target, those of the zone for an alias of the target, and those of the upstream, the first that are
-- any.
use rr_dns.Prelude.{
  ℕ, List, [], ◌∷◌, Option, none, some, Option-cases, Result-cases, ok, err, Error, ◌==◌,
  Bool-cases, inl, inr, if◌then◌else◌, ◌≡◌, ◌≢◌, ◌⊎◌, refl,
}
use rr_dns.Prelude.Bytes.{Bytes}
use rr_dns.Text.{trim_space}
use rr_dns.Domain.Codes.{RrType, rrtype_cname}
use rr_dns.Domain.Question.{Question, new_question}
use rr_dns.Domain.Record.{ResourceRecord}
use rr_dns.Resolver.Alias.{
  AliasChaser, ChaseState, authoritative_lookup, upstream_lookup, cname_lookup, resolve_next,
}

-- The records of a lookup, none if it found nothing.
abbrev pub records_or_none : Option (List ResourceRecord) → List ResourceRecord
records_or_none none = []
records_or_none (some rrs) = rrs

abbrev first_any : List ResourceRecord → List ResourceRecord → List ResourceRecord
first_any [] later = later
first_any (rr ∷ rrs) later = rr ∷ rrs

unfoldable pub zone_finds : AliasChaser → Question → List ResourceRecord
zone_finds a q = elim a.zone [ none ↦ [] | some find ↦ records_or_none (find q) ]

unfoldable pub upstream_finds : AliasChaser → ℕ → Question → List ResourceRecord
upstream_finds a hop q = elim a.up [
  | none ↦ []
  | some resolve ↦ elim (resolve q (a.now hop)) [ err e ↦ [] | ok rrs ↦ rrs ]
]

-- With the ID and the class of the question `q` that is answered.
unfoldable pub alias_finds : AliasChaser → Question → Bytes → List ResourceRecord
alias_finds a q target = elim (new_question q.id target rrtype_cname q.rrclass) [
  | err e ↦ []
  | ok alias ↦ zone_finds a alias
]

-- What is found for `target`, about which `next` asks, in the given hop of the chase.
unfoldable pub next_records :
    AliasChaser → Question → RrType → ℕ → Bytes → Question → List ResourceRecord
next_records a q wanted hop target next = first_any (zone_finds a next) (
    first_any (if wanted == rrtype_cname then [] else alias_finds a q target)
      (upstream_finds a hop next))

-- The record `head` points at a target, and this is what is found for it.
abbrev pub Follows :
    AliasChaser → Question → RrType → ℕ → ResourceRecord → List ResourceRecord → Type 0
Follows a q wanted hop head rrs =
    (next : Question) × (trim_space head.text ≢ [])
    × (new_question q.id (trim_space head.text) wanted q.rrclass ≡ ok next)
    × (rrs ≡ next_records a q wanted hop (trim_space head.text) next)

-- The record `head` points at no target, or at one that makes no question.
abbrev pub PointsNowhere : Question → RrType → ResourceRecord → Type 0
PointsNowhere q wanted head =
    (trim_space head.text ≡ [])
    ⊎ (e : Error) × (new_question q.id (trim_space head.text) wanted q.rrclass ≡ err e)

zone_finds-lookup :
    (a : AliasChaser) (q : Question) → records_or_none (authoritative_lookup a q) ≡ zone_finds a q
unfolding authoritative_lookup zone_finds
zone_finds-lookup a q = elim (Option-cases a.zone) [ inl e ↦ rw e refl | inr (find, e) ↦ rw e refl ]

upstream_finds-lookup :
    (a : AliasChaser) (hop : ℕ) (q : Question)
    → records_or_none (upstream_lookup a hop q) ≡ upstream_finds a hop q
unfolding upstream_lookup upstream_finds
upstream_finds-lookup a hop q = elim (Option-cases a.up) [
  | inl e ↦ rw e refl
  | inr (resolve, e) ↦ elim (Result-cases (resolve q (a.now hop))) [
    | inl ([], p) ↦ rw (e, p) refl
    | inl (r ∷ rs, p) ↦ rw (e, p) refl
    | inr (x, p) ↦ rw (e, p) refl
  ]
]

alias_finds-ok :
    (a : AliasChaser) (q alias : Question) (target : Bytes)
    → new_question q.id target rrtype_cname q.rrclass ≡ ok alias
    → alias_finds a q target ≡ zone_finds a alias
unfolding alias_finds
alias_finds-ok a q alias target p = rw (p, alias_finds) refl

alias_finds-err :
    (a : AliasChaser) (q : Question) (target : Bytes) (e : Error)
    → new_question q.id target rrtype_cname q.rrclass ≡ err e
    → alias_finds a q target ≡ []
unfolding alias_finds
alias_finds-err a q target e p = rw (p, alias_finds) refl

alias_finds-lookup :
    (a : AliasChaser) (st : ChaseState) (target : Bytes)
    → records_or_none (cname_lookup a st target)
      ≡ (if st.original_type == rrtype_cname then [] else alias_finds a st.query target)
unfolding cname_lookup
alias_finds-lookup a st target = elim (Bool-cases (st.original_type == rrtype_cname)) [
  | inl e ↦ rw e refl
  | inr e ↦ elim (Result-cases (new_question st.query.id target rrtype_cname st.query.rrclass)) [
    | inl (q, p) ↦ rw (e, p, alias_finds-ok a st.query q target p) (zone_finds-lookup a q)
    | inr (x, p) ↦ rw (e, p, alias_finds-err a st.query target x p) refl
  ]
]

first_found :
    (direct alias later : Option (List ResourceRecord))
    → records_or_none (
        if rr_dns.Resolver.Alias.non_empty direct
        then direct
        else if rr_dns.Resolver.Alias.non_empty alias
        then alias
        else later)
      ≡ first_any
          (records_or_none direct)
          (first_any (records_or_none alias) (records_or_none later))
first_found none none later = refl
first_found none (some []) later = refl
first_found none (some (r ∷ rs)) later = refl
first_found (some []) none later = refl
first_found (some []) (some []) later = refl
first_found (some []) (some (r ∷ rs)) later = refl
first_found (some (r ∷ rs)) alias later = refl

pub resolve_next-next_records :
    (a : AliasChaser) (st : ChaseState) (q : Question) (target : Bytes)
    → records_or_none (resolve_next a st q target)
      ≡ next_records a st.query st.original_type st.depth target q
unfolding resolve_next next_records
resolve_next-next_records a st q target =
    rw
      (
        first_found (authoritative_lookup a q) (cname_lookup a st target)
            (upstream_lookup a st.depth q),
        zone_finds-lookup a q,
        alias_finds-lookup a st target,
        upstream_finds-lookup a st.depth q,
      )
      refl
