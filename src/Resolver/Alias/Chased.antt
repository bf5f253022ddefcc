-- ===== src/Resolver/Alias/Chased.antt =====
-- What a chase is meant to return, told apart from the loop of `Chase`.
use rr_dns.Prelude.{
  ◌+◌, ◌<◌, List, [], ◌∷◌, ◌++◌, length, All, Option, none, some, Error, alias_depth_exceeded,
  alias_loop_detected, true, false, ◌≡◌,
}
use rr_dns.Prelude.Bytes.{Bytes}
use rr_dns.Text.{to_lower}
use rr_dns.Domain.Codes.{rrtype_cname}
use rr_dns.Domain.Question.{Question}
use rr_dns.Domain.Record.{ResourceRecord}
use rr_dns.Resolver.Alias.{AliasChaser, is_head_cname, contains}
use rr_dns.Resolver.Alias.Lookup.{Follows, PointsNowhere}
use rr_dns.Resolver.Alias.Hop.{Within, IsMild}

abbrev pub IsAlias : ResourceRecord → Type 0
IsAlias rr = rr.rrtype ≡ rrtype_cname

-- The lower-case owner names of the records, the last first.
abbrev pub owners : List ResourceRecord → List Bytes → List Bytes
owners [] later = later
owners (rr ∷ rrs) later = owners rrs (to_lower rr.name ∷ later)

abbrev pub Distinct : List Bytes → Type 0
Distinct [] = Unit
Distinct (s ∷ ss) = (contains ss s ≡ false) × Distinct ss

-- The hops of a chase of `q` from its first records on: each is the first of the records that were
-- found for the target of the one before it. `current` are the records that were found last.
pub data Trail (a : AliasChaser) (q : Question) (initial : List ResourceRecord)
    : (hops current : List ResourceRecord) → Type 0 where
  start : Trail a q initial [] initial
  hop :
      (hops current rest found : List ResourceRecord) (head : ResourceRecord)
      → Trail a q initial hops current
      → current ≡ head ∷ rest
      → Follows a q q.rrtype (length hops + 1) head found
      → Trail a q initial (hops ++ head ∷ []) found

-- How a chase ends: `earlier` and `last` are the CNAME records that it followed or stopped at, in order,
-- and `terminal` are the records that it found last.
pub data Outcome (a : AliasChaser) (q : Question) (earlier : List ResourceRecord)
    (last : ResourceRecord) (terminal : List ResourceRecord) (e : Option Error) : Type 0 where
  -- at records that are no alias, or at a target for which nothing is found
  resolved :
      e ≡ none
      → Follows a q q.rrtype (length earlier + 1) last terminal
      → is_head_cname terminal ≡ false
      → Distinct (owners (earlier ++ last ∷ []) [])
      → Within a (length earlier + 1)
      → Outcome a q earlier last terminal e
  -- at a hop whose target is missing or makes no question
  unresolved :
      (x : Error)
      → e ≡ some x
      → IsMild x
      → PointsNowhere q q.rrtype last
      → terminal ≡ []
      → Distinct (owners (earlier ++ last ∷ []) [])
      → Within a (length earlier + 1)
      → Outcome a q earlier last terminal e
  -- at the first hop beyond the limit
  deep :
      e ≡ some alias_depth_exceeded
      → terminal ≡ []
      → 0 < a.max_depth
      → length earlier ≡ a.max_depth
      → Outcome a q earlier last terminal e
  -- at the first hop whose owner has been visited
  cyclic :
      e ≡ some alias_loop_detected
      → terminal ≡ []
      → contains (owners earlier []) (to_lower last.name) ≡ true
      → Distinct (owners earlier [])
      → Within a (length earlier + 1)
      → Outcome a q earlier last terminal e

pub record Chased (a : AliasChaser) (q : Question) (initial chain : List ResourceRecord)
    (e : Option Error) : Type 0 where
  pub earlier : List ResourceRecord
  pub last : ResourceRecord
  pub current : List ResourceRecord
  pub rest : List ResourceRecord
  pub terminal : List ResourceRecord
  pub parts : chain ≡ (earlier ++ last ∷ []) ++ terminal
  pub path : Trail a q initial earlier current
  pub current_is : current ≡ last ∷ rest
  pub aliases : All IsAlias (earlier ++ last ∷ [])
  pub outcome : Outcome a q earlier last terminal e
