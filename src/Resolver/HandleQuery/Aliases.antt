-- ===== src/Resolver/HandleQuery/Aliases.antt =====
-- The resolver with an alias resolver: the chaser (`NewAliasChaser`), or the one that chases nothing
-- (`NewNoOpAliasResolver`).
use rr_dns.Prelude.{
  ℕ, suc, List, [], ◌∷◌, Option, none, some, Error, out_of_fuel, alias_depth_exceeded,
  alias_loop_detected, if◌then◌else◌, ◌≡◌, ◌⊎◌, refl,
}
use rr_dns.Names.{PublicSuffix}
use rr_dns.Domain.Codes.{RCode, noerror, servfail}
use rr_dns.Domain.Question.{Question}
use rr_dns.Domain.Record.{ResourceRecord}
use rr_dns.Domain.Response.{DnsResponse}
use rr_dns.Resolver.Alias.{AliasChaser, FindRecords, Resolve, chase}
use rr_dns.Resolver.Alias.Chased.{Chased}
use rr_dns.Resolver.HandleQuery.{
  Resolver, Chase, build_response, chase_from_zone, resolve_from_zone, is_fatal_alias_error,
  handle_query, check_blocklist, check_upstream_cache, after_cache, ask_upstream,
  cache_upstream_response, resolve_upstream,
}

unfoldable pub new_alias_chaser : Option FindRecords → Option Resolve → (ℕ → ℕ) → ℕ → AliasChaser
new_alias_chaser zone up clock max_depth = record {
  zone = zone;
  up = up;
  now = clock;
  max_depth = max_depth;
}

-- `Chase` with fuel for one hop more than the limit, which is enough if there is a limit.
unfoldable pub chase_by : AliasChaser → Chase
chase_by a q initial = elim (chase (suc a.max_depth) a q initial) [
  | none ↦ (initial, some out_of_fuel)
  | some result ↦ result
]

unfoldable pub no_op_chase : Chase
no_op_chase q initial = (initial, none)

module _ {S : Type 0} (psl : PublicSuffix) (r : Resolver S) where
  -- What is done with the records of the zone and the error of the chase.
  abbrev pub zone_response : Question → List ResourceRecord → Option Error → DnsResponse
  zone_response q records e =
      if is_fatal_alias_error e
      then build_response q servfail []
      else build_response q noerror records

-- The resolver that looks in `zone`, with an alias resolver.
abbrev pub with_aliases : {S : Type 0} → Resolver S → FindRecords → Chase → Resolver S
with_aliases r zone chase = record r { zone_cache = some zone; alias_resolver = some chase }

-- The error of a chase that met a loop or its depth limit.
abbrev pub LoopOrDepth : Option Error → Type 0
LoopOrDepth e = (e ≡ some alias_depth_exceeded) ⊎ (e ≡ some alias_loop_detected)

-- A response to `q` with the given code and answers, and no other sections.
abbrev pub replied : Question → RCode → List ResourceRecord → DnsResponse
replied q rcode answers = record {
  id = q.id;
  rcode = rcode;
  question = q;
  answers = answers;
  authorities = [];
  additionals = [];
}

chase_from_zone-no_op :
    (q : Question) (found : Option (List ResourceRecord))
    → chase_from_zone (some no_op_chase) q found ≡ chase_from_zone none q found
unfolding chase_from_zone no_op_chase
chase_from_zone-no_op q none = refl
chase_from_zone-no_op q (some []) = refl
chase_from_zone-no_op q (some (rr ∷ rrs)) = refl

abbrev with_alias_resolver : {S : Type 0} → Resolver S → Option Chase → Resolver S
with_alias_resolver r alias = record r { alias_resolver = alias }

resolve_from_zone-no_op :
    {S : Type 0} (r : Resolver S) (q : Question) (zone : Option FindRecords)
    → r.zone_cache ≡ zone
    → resolve_from_zone (with_alias_resolver r (some no_op_chase)) q
      ≡ resolve_from_zone (with_alias_resolver r none) q
unfolding resolve_from_zone
resolve_from_zone-no_op r q none e = rw e refl
resolve_from_zone-no_op r q (some find) e = rw e (chase_from_zone-no_op q (find q))

-- An alias resolver that chases nothing makes no difference to any answer or cache.
pub handle_query-no_op :
    {S : Type 0} (psl : PublicSuffix) (r : Resolver S) (now : ℕ) (s : S) (q : Question)
    → handle_query psl (record r { alias_resolver = some no_op_chase }) now s q
      ≡ handle_query psl (record r { alias_resolver = none }) now s q
unfolding handle_query check_blocklist check_upstream_cache after_cache ask_upstream
    cache_upstream_response resolve_upstream
handle_query-no_op psl r now s q =
    rw (handle_query, resolve_from_zone-no_op r q r.zone_cache refl) refl
