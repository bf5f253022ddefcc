-- ===== src/Resolver/Alias/Shape.antt =====
-- A chase returns the CNAME hops in order, then the records that end it.
use rr_dns.Prelude.{◌≤◌, List, [], ◌∷◌, ◌++◌, length, All, true, ◌≡◌, ◌⊎◌}
use rr_dns.Prelude.Bytes.{Bytes}
use rr_dns.Domain.Question.{Question}
use rr_dns.Domain.Record.{ResourceRecord}
use rr_dns.Resolver.Alias.{AliasChaser, ChaseState, is_head_cname}
use rr_dns.Resolver.Alias.Hop.{head_of}
use rr_dns.Resolver.Alias.Chased.{IsAlias, owners, Distinct, Trail, Chased}

-- What holds between two hops.
record Chasing (a : AliasChaser) (q : Question) (initial : List ResourceRecord) (st : ChaseState)
    : Type 0 where
  query : st.query ≡ q
  wanted : st.original_type ≡ q.rrtype
  path : Trail a q initial st.chain st.current
  seen : st.visited ≡ owners st.chain []
  counted : length st.chain ≡ st.depth
  aliases : All IsAlias st.chain
  distinct : Distinct st.visited
  alias : is_head_cname st.current ≡ true
  within : (a.max_depth ≡ 0) ⊎ (st.depth ≤ a.max_depth)

module _ (a : AliasChaser) (q : Question) (initial : List ResourceRecord) (st : ChaseState)
    (c : Chasing a q initial st) where
  -- The hops of a chase that stops at the head of `st`.
  abbrev last_hops : List ResourceRecord
  last_hops = st.chain ++ head_of st ∷ []
