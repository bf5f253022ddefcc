-- ===== src/Resolver/Alias.antt =====
-- alias.go: `aliasChaser`, which expands a CNAME chain over authoritative data and the upstream.
-- Logging is left out. `context.Background()` carries no deadline.
pub mod Lookup
pub mod Hop
pub mod Chased
pub mod Termination
pub mod Shape
use rr_dns.Prelude.{
  ℕ, zero, suc, ◌+◌, ltb, leb, ◌==◌, not, ◌&&◌, ◌||◌, if◌then◌else◌, Bool, true, false, List, [],
  ◌∷◌, ◌++◌, is_empty, length, Option, none, some, Result, ok, err, Error, alias_depth_exceeded,
  alias_loop_detected, alias_target_invalid, alias_question_build,
}
use rr_dns.Prelude.Bytes.{Bytes, bytes_eq}
use rr_dns.Text.{trim_space, to_lower}
use rr_dns.Domain.Codes.{RrType, rrtype_cname}
use rr_dns.Domain.Question.{Question, new_question}
use rr_dns.Domain.Record.{ResourceRecord}

-- `ZoneCache.FindRecords`: the records and whether the key was found.
abbrev pub FindRecords : Type 0
FindRecords = Question → Option (List ResourceRecord)

-- `UpstreamClient.Resolve`, as a function of the question and the time.
abbrev pub Resolve : Type 0
Resolve = Question → ℕ → Result (List ResourceRecord)

-- `now n` is what the clock shows in the n-th hop. A `max_depth` of 0 stands for any that is not
-- positive: it turns the limit off.
pub record AliasChaser : Type 0 where
  pub zone : Option FindRecords
  pub up : Option Resolve
  pub now : ℕ → ℕ
  pub max_depth : ℕ

-- `visited` holds the keys of the map.
pub record ChaseState : Type 0 where
  pub query : Question
  pub original_type : RrType
  pub chain : List ResourceRecord
  pub visited : List Bytes
  pub depth : ℕ
  pub current : List ResourceRecord
  pub chased : Bool

unfoldable pub new_chase_state : Question → List ResourceRecord → ChaseState
new_chase_state q initial = record {
  query = q;
  original_type = q.rrtype;
  chain = [];
  visited = [];
  depth = 0;
  current = initial;
  chased = false;
}

-- `domain.ResourceRecord{}`
abbrev pub zero_record : ResourceRecord
zero_record = record {
  name = [];
  rrtype = 0;
  rrclass = 0;
  ttl = 0;
  expires_at = none;
  rdata = [];
  text = [];
}

unfoldable pub current_head : ChaseState → ResourceRecord × Bool
current_head st = elim st.current [
  | [] ↦ (zero_record, false)
  | h ∷ _ ↦ (h, h.rrtype == rrtype_cname)
]

-- `isHeadCNAME`
abbrev pub is_head_cname : List ResourceRecord → Bool
is_head_cname [] = false
is_head_cname (h ∷ rest) = h.rrtype == rrtype_cname

unfoldable pub should_chase : Question → List ResourceRecord → Bool
should_chase q initial = is_head_cname initial && not (q.rrtype == rrtype_cname)

unfoldable pub guard_depth : AliasChaser → ChaseState → ChaseState × Option Error
guard_depth a st =
    let st' = record st { depth = st.depth + 1 } in
    if ltb 0 a.max_depth && ltb a.max_depth st'.depth
    then (st', some alias_depth_exceeded)
    else (st', none)

unfoldable pub contains : List Bytes → Bytes → Bool
contains [] name = false
contains (v ∷ vs) name = bytes_eq v name || contains vs name

unfoldable pub guard_loop : ChaseState → ResourceRecord → ChaseState × Option Error
guard_loop st head =
    let name = to_lower head.name in
    if contains st.visited name
    then (st, some alias_loop_detected)
    else (record st { visited = name ∷ st.visited }, none)

-- The two messages for a missing target carry the same sentinel error.
unfoldable pub extract_target : ResourceRecord → Result Bytes
extract_target head =
    let target = trim_space head.text in
    if is_empty target then err (alias_target_invalid head.name) else ok target

unfoldable pub build_next_question : ChaseState → Bytes → Result Question
build_next_question st target =
    elim (new_question st.query.id target st.original_type st.query.rrclass) [
      | ok q ↦ ok q
      | err e ↦ err (alias_question_build e)
    ]

unfoldable pub authoritative_lookup : AliasChaser → Question → Option (List ResourceRecord)
authoritative_lookup a q = elim a.zone [ none ↦ none | some find ↦ find q ]

unfoldable pub upstream_lookup : AliasChaser → ℕ → Question → Option (List ResourceRecord)
upstream_lookup a hop q = elim a.up [
  | none ↦ none
  | some resolve ↦ elim (resolve q (a.now hop)) [
    | err e ↦ none
    | ok [] ↦ none
    | ok (r ∷ rs) ↦ some (r ∷ rs)
  ]
]

-- Found, and not empty.
abbrev pub non_empty : Option (List ResourceRecord) → Bool
non_empty none = false
non_empty (some []) = false
non_empty (some (r ∷ rs)) = true

-- The second authoritative lookup of `resolveNext`, for a further CNAME.
unfoldable pub cname_lookup : AliasChaser → ChaseState → Bytes → Option (List ResourceRecord)
cname_lookup a st target =
    if st.original_type == rrtype_cname
    then none
    else elim (new_question st.query.id target rrtype_cname st.query.rrclass) [
      | err e ↦ none
      | ok q ↦ authoritative_lookup a q
    ]

unfoldable pub resolve_next :
    AliasChaser → ChaseState → Question → Bytes → Option (List ResourceRecord)
resolve_next a st next_q target =
    let direct = authoritative_lookup a next_q in
    let alias = cname_lookup a st target in
    if non_empty direct
    then direct
    else if non_empty alias
    then alias
    else upstream_lookup a st.depth next_q

-- What `step` reports: another hop is due, or the chase has ended, with or without an error.
pub data Progress : Type 0 where
  more : ChaseState → Progress
  finished : ChaseState → Option Error → Progress

abbrev pub append_head : ChaseState → ResourceRecord → ChaseState
append_head st head = record st { chain = st.chain ++ head ∷ [] }

-- `step` behind the resolution of the next records.
unfoldable pub advance : ChaseState → Option (List ResourceRecord) → Progress
advance st next = if not (non_empty next) then finished st none else elim next [
  | none ↦ finished st none
  | some rrs ↦
      let st' = record st { current = rrs } in
      if is_head_cname rrs
      then more st'
      else finished (record st' { chain = st'.chain ++ rrs }) none
]

-- `step` behind the two guards.
unfoldable pub follow : AliasChaser → ChaseState → ResourceRecord → Progress
unfolding advance
follow a st head = elim (extract_target head) [
  | err e ↦ finished st (some e)
  | ok target ↦ elim (build_next_question st target) [
    | err e ↦ finished st (some e)
    | ok next_q ↦ advance st (resolve_next a st next_q target)
  ]
]

unfoldable pub step : AliasChaser → ChaseState → Progress
unfolding current_head guard_depth guard_loop follow
step a st =
    let head = (current_head st).0 in
    let (st', too_deep) = guard_depth a (record st { chased = true }) in
    elim too_deep [
      | some e ↦ finished (append_head st' head) (some e)
      | none ↦
          let (st'', looped) = guard_loop st' head in
          elim looped [
            | some e ↦ finished (append_head st'' head) (some e)
            | none ↦ follow a (append_head st'' head) head
          ]
    ]

-- The loop of `Chase`, on fuel: `none` if the fuel runs out before the chase ends.
unfoldable pub chase_loop :
    ℕ → AliasChaser → ChaseState → Option (List ResourceRecord × Option Error)
chase_loop zero a st = none
chase_loop (suc f) a st = elim (step a st) [
  | more st' ↦ chase_loop f a st'
  | finished st' e ↦ some (st'.chain, e)
]

unfoldable pub chase :
    ℕ → AliasChaser → Question → List ResourceRecord → Option (List ResourceRecord × Option Error)
unfolding chase_loop
chase f a q initial =
    if should_chase q initial
    then chase_loop f a (new_chase_state q initial)
    else some (initial, none)
