-- ===== src/Resolver/Alias/Hop.antt =====
-- One hop of the chase: the four ways in which `step` can end, each with what it leaves in the
-- state.
use rr_dns.Prelude.{
  ℕ, ◌+◌, ◌≤◌, ◌<◌, ltb, ◌&&◌, Bool, true, false, List, [], ◌∷◌, ◌++◌, append-nil, Option, none,
  some, err, Error, alias_depth_exceeded, alias_loop_detected, ◌≡◌, ◌≢◌, ◌⊎◌, inl, inr, refl, sym,
  ◌∙◌, ok, arith, Bool-cases, Result-cases,
}
use rr_dns.Prelude.Bytes.{Bytes}
use rr_dns.Text.{trim_space, to_lower}
use rr_dns.Domain.Question.{Question, new_question}
use rr_dns.Domain.Record.{ResourceRecord}
use rr_dns.Resolver.Alias.{
  AliasChaser, ChaseState, Progress, more, finished, current_head, is_head_cname, contains,
  extract_target, build_next_question, resolve_next, append_head, advance, follow, step,
}
use rr_dns.Resolver.Alias.Lookup.{
  records_or_none, Follows, PointsNowhere, resolve_next-next_records,
}

abbrev pub head_of : ChaseState → ResourceRecord
head_of st = (current_head st).0

abbrev pub owner : ChaseState → Bytes
owner st = to_lower (head_of st).name

-- The limit is off, or `depth` hops are within it.
abbrev pub Within : AliasChaser → ℕ → Type 0
Within a depth = (a.max_depth ≡ 0) ⊎ (depth ≤ a.max_depth)

-- An error that does not concern the depth or a loop.
abbrev pub IsMild : Error → Type 0
IsMild e = (e ≢ alias_depth_exceeded) × (e ≢ alias_loop_detected)

-- What is found for the target of the head of the state, in its next hop.
abbrev pub Finds : AliasChaser → ChaseState → List ResourceRecord → Type 0
Finds a st rrs = Follows a st.query st.original_type (st.depth + 1) (head_of st) rrs

-- A chase that found no next records, or the final ones.
pub record Ending (a : AliasChaser) (st st' : ChaseState) (e : Option Error)
    (terminal : List ResourceRecord) : Type 0 where
  pub chain : st'.chain ≡ (st.chain ++ head_of st ∷ []) ++ terminal
  pub not_alias : is_head_cname terminal ≡ false
  pub none_on_error :
      (e ≡ none) × Finds a st terminal
      ⊎ (x : Error) × (e ≡ some x)
        × IsMild x
        × (terminal ≡ [])
        × PointsNowhere st.query st.original_type (head_of st)

pub record Onward (a : AliasChaser) (st st' : ChaseState) : Type 0 where
  pub query : st'.query ≡ st.query
  pub wanted : st'.original_type ≡ st.original_type
  pub found : Finds a st st'.current
  pub chain : st'.chain ≡ st.chain ++ head_of st ∷ []
  pub depth : st'.depth ≡ st.depth + 1
  pub visited : st'.visited ≡ owner st ∷ st.visited
  pub alias : is_head_cname st'.current ≡ true

pub data Hop (a : AliasChaser) (st : ChaseState) (p : Progress) : Type 0 where
  too_deep :
      (st' : ChaseState)
      → p ≡ finished st' (some alias_depth_exceeded)
      → st'.chain ≡ st.chain ++ head_of st ∷ []
      → 0 < a.max_depth
      → a.max_depth < st.depth + 1
      → Hop a st p
  looped :
      (st' : ChaseState)
      → p ≡ finished st' (some alias_loop_detected)
      → st'.chain ≡ st.chain ++ head_of st ∷ []
      → Within a (st.depth + 1)
      → contains st.visited (owner st) ≡ true
      → Hop a st p
  ended :
      (st' : ChaseState) (e : Option Error) (terminal : List ResourceRecord)
      → p ≡ finished st' e
      → Ending a st st' e terminal
      → Within a (st.depth + 1)
      → contains st.visited (owner st) ≡ false
      → Hop a st p
  onward :
      (st' : ChaseState)
      → p ≡ more st'
      → Onward a st st'
      → Within a (st.depth + 1)
      → contains st.visited (owner st) ≡ false
      → Hop a st p

-- The state behind the two guards of `step`, with the head appended.
abbrev entered : ChaseState → ChaseState
entered st = record st {
  chased = true;
  depth = st.depth + 1;
  visited = owner st ∷ st.visited;
  chain = st.chain ++ head_of st ∷ [];
}

guard_depth-cases :
    (a : AliasChaser) (depth : ℕ)
    → (ltb 0 a.max_depth && ltb a.max_depth depth) ≡ false
    → Within a depth
guard_depth-cases a depth h = ground arith

advance-Hop :
    (a : AliasChaser) (st : ChaseState) (next : Option (List ResourceRecord))
    → Finds a st (records_or_none next)
    → Within a (st.depth + 1)
    → contains st.visited (owner st) ≡ false
    → Hop a st (advance (entered st) next)
unfolding advance
advance-Hop a st none found w c =
    ended (entered st) none [] refl
      (record { chain = sym (append-nil _); not_alias = refl; none_on_error = inl (refl, found) }) w
      c
advance-Hop a st (some []) found w c =
    ended (entered st) none [] refl
      (record { chain = sym (append-nil _); not_alias = refl; none_on_error = inl (refl, found) }) w
      c
advance-Hop a st (some (r ∷ rs)) found w c = elim (Bool-cases (is_head_cname (r ∷ rs))) [
  | inl e ↦
      onward (record (entered st) { current = r ∷ rs }) (rw e)
        (record {
          query = refl;
          wanted = refl;
          found = found;
          chain = refl;
          depth = refl;
          visited = refl;
          alias = e;
        })
        w c
  | inr e ↦
      ended
        (record (entered st) {
          current = r ∷ rs;
          chain = (st.chain ++ head_of st ∷ []) ++ (r ∷ rs);
        })
        none (r ∷ rs) (rw e)
        (record { chain = refl; not_alias = e; none_on_error = inl (refl, found) }) w c
]

mild-Ending :
    (a : AliasChaser) (st : ChaseState) (e : Error)
    → IsMild e
    → PointsNowhere st.query st.original_type (head_of st)
    → Ending a st (entered st) (some e) []
mild-Ending a st e m nowhere = record {
  chain = sym (append-nil _);
  not_alias = refl;
  none_on_error = inr (e, refl, m, refl, nowhere);
}

extract_target-IsMild : (rr : ResourceRecord) (e : Error) → extract_target rr ≡ err e → IsMild e
unfolding extract_target
extract_target-IsMild rr e h = ground arith

build_next_question-IsMild :
    (st : ChaseState) (target : Bytes) (e : Error)
    → build_next_question st target ≡ err e
    → IsMild e
unfolding build_next_question
build_next_question-IsMild st target e h = ground arith

extract_target-empty :
    (rr : ResourceRecord) (e : Error) → extract_target rr ≡ err e → trim_space rr.text ≡ []
unfolding extract_target
extract_target-empty rr e h = ground arith

extract_target-trim :
    (rr : ResourceRecord) (target : Bytes)
    → extract_target rr ≡ ok target
    → (target ≡ trim_space rr.text) × (target ≢ [])
unfolding extract_target
extract_target-trim rr target h = (ground arith, λ e. ground arith)

build_next_question-fails :
    (st : ChaseState) (rr : ResourceRecord) (target : Bytes) (e : Error)
    → extract_target rr ≡ ok target
    → build_next_question (entered st) target ≡ err e
    → (x : Error) × (new_question st.query.id (trim_space rr.text) st.original_type st.query.rrclass
        ≡ err x)
unfolding build_next_question
build_next_question-fails st rr target e h k =
    let (same, _) = extract_target-trim rr target h in
    rw (← same)
      (elim (Result-cases (new_question st.query.id target st.original_type st.query.rrclass)) [
        | inl (q, p) ↦ absurd (ground arith)
        | inr (x, p) ↦ (x, p)
      ])

build_next_question-new :
    (st : ChaseState) (target : Bytes) (q : Question)
    → build_next_question st target ≡ ok q
    → new_question st.query.id target st.original_type st.query.rrclass ≡ ok q
unfolding build_next_question
build_next_question-new st target q k = ground arith

follows :
    (a : AliasChaser) (st : ChaseState) (target : Bytes) (q : Question)
    → extract_target (head_of st) ≡ ok target
    → build_next_question (entered st) target ≡ ok q
    → Finds a st (records_or_none (resolve_next a (entered st) q target))
follows a st target q h k =
    let (same, present) = extract_target-trim (head_of st) target h in
    (
      q,
      λ e. present (same ∙ e),
      rw (← same) (build_next_question-new (entered st) target q k),
      rw (← same) (resolve_next-next_records a (entered st) q target),
    )

follow-Hop :
    (a : AliasChaser) (st : ChaseState)
    → Within a (st.depth + 1)
    → contains st.visited (owner st) ≡ false
    → Hop a st (follow a (entered st) (head_of st))
unfolding follow
follow-Hop a st w c = elim (Result-cases (extract_target (head_of st))) [
  | inr (e, h) ↦
      ended (entered st) (some e) [] (rw (h, follow))
        (mild-Ending a st e (extract_target-IsMild _ e h) (inl (extract_target-empty _ e h))) w c
  | inl (target, h) ↦ elim (Result-cases (build_next_question (entered st) target)) [
    | inr (e, k) ↦
        ended (entered st) (some e) [] (rw (h, follow) (rw (k, follow)))
          (mild-Ending a st e (build_next_question-IsMild (entered st) target e k)
            (inr (build_next_question-fails st (head_of st) target e h k)))
          w c
    | inl (q, k) ↦
        rw (h, follow)
          (rw (k, follow)
            (advance-Hop a st (resolve_next a (entered st) q target) (follows a st target q h k) w
              c))
  ]
]

module _ (a : AliasChaser) (st : ChaseState) where
  -- The state with the depth counted, and the head appended.
  abbrev stopped : ChaseState
  stopped = append_head (record st { chased = true; depth = st.depth + 1 }) (head_of st)

  abbrev deep : Bool
  deep = ltb 0 a.max_depth && ltb a.max_depth (st.depth + 1)

  step_too_deep : deep ≡ true → step a st ≡ finished stopped (some alias_depth_exceeded)
  unfolding step
  step_too_deep h = ground arith

  step_looped :
      deep ≡ false
      → contains st.visited (owner st) ≡ true
      → step a st ≡ finished stopped (some alias_loop_detected)
  unfolding step
  step_looped h k = ground arith

  step-follow :
      deep ≡ false
      → contains st.visited (owner st) ≡ false
      → step a st ≡ follow a (entered st) (head_of st)
  unfolding step
  step-follow h k = ground arith

  pub step-Hop : Hop a st (step a st)
  step-Hop = elim (Bool-cases deep) [
    | inl h ↦ too_deep stopped (step_too_deep h) refl (ground arith) (ground arith)
    | inr h ↦ elim (Bool-cases (contains st.visited (owner st))) [
      | inl k ↦ looped stopped (step_looped h k) refl (guard_depth-cases a _ h) k
      | inr k ↦ rw (step-follow h k) (follow-Hop a st (guard_depth-cases a _ h) k)
    ]
  ]
