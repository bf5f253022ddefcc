-- ===== src/Resolver/Alias/Termination.antt =====
-- With a depth limit the chase ends, whatever the zones and the upstream answer.
use rr_dns.Prelude.{
  ℕ, zero, suc, ◌+◌, ◌≤◌, ◌<◌, List, Option, none, some, Error, alias_depth_exceeded,
  alias_loop_detected, ◌≡◌, arith, Bool-cases, inl, inr,
}
use rr_dns.Domain.Question.{Question}
use rr_dns.Domain.Record.{ResourceRecord}
use rr_dns.Resolver.Alias.{
  AliasChaser, ChaseState, new_chase_state, should_chase, chase_loop, chase,
}
use rr_dns.Resolver.Alias.Hop.{too_deep, looped, ended, onward, step-Hop}

chase_loop_total :
    (f : ℕ) (a : AliasChaser) (st : ChaseState)
    → 0 < a.max_depth
    → st.depth ≤ a.max_depth
    → a.max_depth < st.depth + f
    → (r : List ResourceRecord × Option Error) × (chase_loop f a st ≡ some r)
unfolding chase_loop
chase_loop_total zero a st pos within fuel = absurd (omega arith)
chase_loop_total (suc f) a st pos within fuel = elim (step-Hop a st) [
  | too_deep st' e _ _ _ ↦ ((st'.chain, some alias_depth_exceeded), rw (e, chase_loop))
  | looped st' e _ _ _ ↦ ((st'.chain, some alias_loop_detected), rw (e, chase_loop))
  | ended st' x _ e _ _ _ ↦ ((st'.chain, x), rw (e, chase_loop))
  | onward st' e o w _ ↦
      let (r, found) =
        chase_loop_total f a st' pos (omega (arith, o.depth)) (omega (arith, o.depth)) in
      (r, rw (e, chase_loop) found)
]

-- With a positive depth limit, more fuel than the limit is enough: the chase ends after at most
-- `max_depth + 1` hops, with some chain and perhaps an error, whatever the lookups answer.
pub chase_total :
    (f : ℕ) (a : AliasChaser) (q : Question) (initial : List ResourceRecord)
    → 0 < a.max_depth
    → a.max_depth < f
    → (r : List ResourceRecord × Option Error) × (chase f a q initial ≡ some r)
unfolding chase new_chase_state
chase_total f a q initial pos fuel = elim (Bool-cases (should_chase q initial)) [
  | inl e ↦
      let (r, found) =
        chase_loop_total f a (new_chase_state q initial) pos (omega arith) (omega arith) in
      (r, rw e found)
  | inr e ↦ ((initial, none), rw e)
]
