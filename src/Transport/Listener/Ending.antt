-- ===== src/Transport/Listener/Ending.antt =====
-- The goroutines of `listenLoop` end after a `Stop`.
use rr_dns.Prelude.{
  ℕ, zero, suc, ◌+◌, ◌<◌, ◌≤◌, false, true, List, [], ◌∷◌, ◌++◌, ◌≡◌, refl, ◌∙◌, ap, arith,
}
use rr_dns.Prelude.Bytes.{Bytes}
use rr_dns.Transport.Listener.{
  start, close_channel, close_socket, Loop, at_select, chosen, reading, ended, System, initial,
  LoopStep, sees_cancel, sees_stop, chooses, reads, receives, fails_running, fails_stopped, Turn,
  turn, Turns, rests, goes_on, Step, starts, stops, stopped, cancels, turns, Reach, here, next,
}

-- The steps that a goroutine has left once the transport is stopped: one in front of the `select` or
-- in a read, and two in front of the read.
abbrev pub weight : Loop → ℕ
weight at_select = 1
weight chosen = 2
weight (reading n) = 1
weight ended = 0

abbrev pub active : List Loop → ℕ
active [] = 0
active (l ∷ ls) = weight l + active ls

active-middle :
    (before after : List Loop) (l : Loop)
    → active (before ++ l ∷ after) ≡ weight l + active (before ++ after)
active-middle [] after l = refl
active-middle (k ∷ before) after l = omega (arith, active-middle before after l)

-- A transport that does not run has no open connection, and is not being stopped.
abbrev IsCoherent : System → Type 0
IsCoherent s = s.udp.running ≡ false → (s.udp.open_conn ≡ false) × (s.stopping ≡ false)

Step-IsCoherent : {s t : System} → Step s t → IsCoherent s → IsCoherent t
unfolding start close_channel close_socket
Step-IsCoherent (starts s bind t w p) h = λ off. absurd (ground arith)
Step-IsCoherent (stops s w p q) h = λ off. absurd (ground arith)
Step-IsCoherent (stopped s w) h = λ off. (refl, refl)
Step-IsCoherent (cancels s) h = h
Step-IsCoherent (turns (turn s before after l l' received p st)) h = h

Reach-IsCoherent : (addr : Bytes) {s : System} → Reach (initial addr) s → IsCoherent s
unfolding initial
Reach-IsCoherent addr here = λ off. (refl, refl)
Reach-IsCoherent addr (next r st) = Step-IsCoherent st (Reach-IsCoherent addr r)

record IsStopped (s : System) : Type 0 where
  off : s.udp.running ≡ false
  signalled : s.udp.stop_closed ≡ true
  shut : s.udp.open_conn ≡ false
  free : s.stopping ≡ false

LoopStep-weight :
    {s : System} {l l' : Loop} {received : List Bytes}
    → IsStopped s
    → LoopStep s.udp s.stopping s.cancelled l l' received
    → weight l ≡ weight l' + 1
LoopStep-weight h (sees_cancel p) = refl
LoopStep-weight h (sees_stop p) = refl
LoopStep-weight h (chooses p q) = ground (arith, h.signalled)
LoopStep-weight h reads = refl
LoopStep-weight h (receives n d p q) = ground (arith, h.shut)
LoopStep-weight h (fails_running n w p) = ground (arith, h.off)
LoopStep-weight h (fails_stopped n w p) = refl

Turn-active :
    {s t : System} → Turn s t → IsStopped s → (active s.loops ≡ active t.loops + 1) × IsStopped t
Turn-active (turn s before after l l' received p st) h = (
  ap active p
      ∙ omega (
        arith,
        active-middle before after l,
        active-middle before after l',
        LoopStep-weight h st,
      ),
  record { off = h.off; signalled = h.signalled; shut = h.shut; free = h.free },
)

-- A goroutine that has not ended can go on.
abbrev CanTurn : System → List Loop → Type 0
CanTurn s ls =
    (before after : List Loop) × (l l' : Loop) × (ls ≡ before ++ l ∷ after)
    × LoopStep s.udp s.stopping s.cancelled l l' []

can_turn : (s : System) (ls : List Loop) → IsStopped s → 0 < active ls → CanTurn s ls
can_turn s [] h lt = elim lt [ ]
can_turn s (at_select ∷ ls) h lt = ([], ls, at_select, ended, refl, sees_stop h.signalled)
can_turn s (chosen ∷ ls) h lt = ([], ls, chosen, reading s.udp.conn, refl, reads)
can_turn s (reading n ∷ ls) h lt = ([], ls, reading n, ended, refl, fails_stopped n h.free h.off)
can_turn s (ended ∷ ls) h lt =
    let (before, after, l, l', p, st) = can_turn s ls h (omega arith) in
    (ended ∷ before, after, l, l', ap (λ xs. ended ∷ xs) p, st)

Turns-active :
    {s t : System} {n : ℕ}
    → IsStopped s
    → Turns s n t
    → IsStopped t × (n + active t.loops ≡ active s.loops)
Turns-active h rests = (h, omega arith)
Turns-active h (goes_on r st) =
    let (h', p) = Turns-active h r in let (q, h'') = Turn-active st h' in (h'', omega arith)

run : (s : System) (n : ℕ) → IsStopped s → n ≤ active s.loops → (t : System) × Turns s n t
run s zero h le = (s, rests)
run s (suc n) h le =
    let (t, r) = run s n h (omega arith) in
    let (h', p) = Turns-active h r in
    let (before, after, l, l', q, st) = can_turn t t.loops h' (omega arith) in
    (_, goes_on r (turn t before after l l' [] q st))

-- From the transport that `NewUDPTransport` returns, let any calls of `Start` and `Stop`, any
-- cancellation and any steps of the goroutines lead to a state that is stopped: not running, and
-- with the channel `stopCh` closed. If only the goroutines go on, every run of them has at most as
-- many steps as they have left in that state, two for a goroutine in front of the read of `conn` and
-- one for any other that has not ended (the steps and those that are left add up to that number), and
-- a run exists after which all of them have ended.
pub Reach-ends :
    (addr : Bytes) {s : System}
    → Reach (initial addr) s
    → (s.udp.running ≡ false) × (s.udp.stop_closed ≡ true)
    → ((n : ℕ) (t : System) → Turns s n t → n + active t.loops ≡ active s.loops)
      × ((t : System) × Turns s (active s.loops) t × (active t.loops ≡ 0))
Reach-ends addr {s} r (off, signalled) =
    let (shut, free) = Reach-IsCoherent addr r off in
    let h : IsStopped s = record { off = off; signalled = signalled; shut = shut; free = free } in
    let (t, run_t) = run s (active s.loops) h (omega arith) in
    let (h', p) = Turns-active h run_t in
    (λ n t' r'. (Turns-active h r').1, (t, run_t, omega arith))
