-- ===== src/Transport/Listener/Stopped.antt =====
-- What a call of `Stop` brings about: what can still be received, and the channel that stays closed.
use rr_dns.Prelude.{
  Bool, ℕ, ◌+◌, ◌≤◌, ◌==◌, ◌&&◌, true, if◌then◌else◌, List, [], ◌∷◌, ◌++◌, length, length-append,
  Option, none, some, ok, err, Error, panic, already_running, ◌≡◌, refl, ap, All, arith,
}
use rr_dns.Prelude.Bytes.{Bytes}
use rr_dns.Transport.Listener.{
  Udp, start, stop, close_channel, close_socket, Loop, at_select, chosen, reading, ended, System,
  initial, LoopStep, sees_cancel, sees_stop, chooses, reads, receives, fails_running, fails_stopped,
  turn, Step, starts, stops, stopped, cancels, turns, Reach, here, next,
}

-- A goroutine reads from no connection that has not been opened.
abbrev IsOpened : ℕ → Loop → Type 0
IsOpened conn at_select = Unit
IsOpened conn chosen = Unit
IsOpened conn ended = Unit
IsOpened conn (reading n) = n ≤ conn

-- How many datagrams a goroutine can receive before it is in front of the `select` again.
abbrev pub due : Udp → Loop → ℕ
due t at_select = 0
due t ended = 0
due t chosen = 1
due t (reading n) = if (n == t.conn) && t.open_conn then 1 else 0

abbrev pub due_all : Udp → List Loop → ℕ
due_all t [] = 0
due_all t (l ∷ ls) = due t l + due_all t ls

due_all-middle :
    (t : Udp) (before after : List Loop) (l : Loop)
    → due_all t (before ++ l ∷ after) ≡ due t l + due_all t (before ++ after)
due_all-middle t [] after l = refl
due_all-middle t (k ∷ before) after l = omega (arith, due_all-middle t before after l)

-- Another state of the transport, in which no goroutine has more to receive.
due_all-le :
    (t t' : Udp) (P : Loop → Type 0) (ls : List Loop)
    → ((l : Loop) → P l → due t' l ≤ due t l)
    → All P ls
    → due_all t' ls ≤ due_all t ls
due_all-le t t' P [] h a = omega arith
due_all-le t t' P (l ∷ ls) h (p, a) = omega (arith, h l p, due_all-le t t' P ls h a)

due-le : (t : Udp) (l : Loop) → due t l ≤ 1
due-le t at_select = omega arith
due-le t ended = omega arith
due-le t chosen = omega arith
due-le t (reading n) = ground arith

start-due :
    (bind : Bytes → Option Error) (t t' : Udp) (l : Loop)
    → start bind t ≡ (t', none)
    → IsOpened t.conn l
    → (due t' l ≤ due t l) × IsOpened t'.conn l
unfolding start
start-due bind t t' at_select p h = (omega arith, tt)
start-due bind t t' ended p h = (omega arith, tt)
start-due bind t t' chosen p h = (omega arith, tt)
start-due bind t t' (reading n) p h = (ground arith, ground arith)

close_socket-due : (t : Udp) (l : Loop) → due (close_socket t) l ≤ due t l
unfolding close_socket
close_socket-due t at_select = omega arith
close_socket-due t ended = omega arith
close_socket-due t chosen = omega arith
close_socket-due t (reading n) = ground arith

-- Once the channel is closed, what is received and what can still be are no more than before.
LoopStep-due :
    {t : Udp} {w c : Bool} {l l' : Loop} {received : List Bytes}
    → t.stop_closed ≡ true
    → LoopStep t w c l l' received
    → length received + due t l' ≤ due t l
LoopStep-due closed (sees_cancel p) = omega arith
LoopStep-due closed (sees_stop p) = omega arith
LoopStep-due closed (chooses p q) = absurd (ground arith)
LoopStep-due {t} closed reads = omega (arith, due-le t (reading t.conn))
LoopStep-due closed (receives n d p q) = ground arith
LoopStep-due closed (fails_running n w p) = omega arith
LoopStep-due closed (fails_stopped n w p) = omega arith

LoopStep-IsOpened :
    {t : Udp} {w c : Bool} {l l' : Loop} {received : List Bytes}
    → LoopStep t w c l l' received
    → IsOpened t.conn l'
LoopStep-IsOpened (sees_cancel p) = tt
LoopStep-IsOpened (sees_stop p) = tt
LoopStep-IsOpened (chooses p q) = tt
LoopStep-IsOpened reads = omega arith
LoopStep-IsOpened (receives n d p q) = tt
LoopStep-IsOpened (fails_running n w p) = tt
LoopStep-IsOpened (fails_stopped n w p) = tt

All-replace {ℓ κ} :
    {A : Type ℓ} (P : A → Type κ) (x y : A) (after before : List A)
    → All P (before ++ x ∷ after)
    → P y
    → All P (before ++ y ∷ after)
All-replace P x y after [] h p = (p, h.1)
All-replace P x y after (z ∷ before) h p = (h.0, All-replace P x y after before h.1 p)

All-map {ℓ κ} :
    {A : Type ℓ} {P Q : A → Type κ} (xs : List A) → ((x : A) → P x → Q x) → All P xs → All Q xs
All-map [] f h = tt
All-map (x ∷ xs) f h = (f x h.0, All-map xs f h.1)

abbrev AllOpened : System → Type 0
AllOpened s = All (IsOpened s.udp.conn) s.loops

Step-AllOpened : {s t : System} → Step s t → AllOpened s → AllOpened t
unfolding close_channel close_socket
Step-AllOpened (starts s bind t w p) h =
    (tt, All-map s.loops (λ l hl. (start-due bind s.udp t l p hl).1) h)
Step-AllOpened (stops s w p q) h = h
Step-AllOpened (stopped s w) h = h
Step-AllOpened (cancels s) h = h
Step-AllOpened (turns (turn s before after l l' received p st)) h =
    All-replace (IsOpened s.udp.conn) l l' after before (rw (← p) h) (LoopStep-IsOpened st)

Reach-AllOpened : (addr : Bytes) {s : System} → Reach (initial addr) s → AllOpened s
unfolding initial
Reach-AllOpened addr here = tt
Reach-AllOpened addr (next r st) = Step-AllOpened st (Reach-AllOpened addr r)

-- What has been received, and what can still be.
abbrev budget : System → ℕ
budget s = length s.served + due_all s.udp s.loops

Step-budget :
    {s t : System}
    → Step s t
    → AllOpened s
    → s.udp.stop_closed ≡ true
    → (budget t ≤ budget s) × (t.udp.stop_closed ≡ true)
unfolding start close_channel close_socket
Step-budget (starts s bind t w p) h closed = (
  omega (
    arith,
    due_all-le s.udp t (IsOpened s.udp.conn) s.loops (λ l hl. (start-due bind s.udp t l p hl).0) h,
  ),
  ground arith,
)
Step-budget (stops s w p q) h closed = absurd (ground arith)
Step-budget (stopped s w) h closed = (
  omega (
    arith,
    due_all-le s.udp (close_socket s.udp) (IsOpened s.udp.conn) s.loops
        (λ l hl. close_socket-due s.udp l) h,
  ),
  closed,
)
Step-budget (cancels s) h closed = (omega arith, closed)
Step-budget (turns (turn s before after l l' received p st)) h closed = (
  omega (
    arith,
    ap (due_all s.udp) p,
    due_all-middle s.udp before after l,
    due_all-middle s.udp before after l',
    LoopStep-due closed st,
    length-append s.served received,
  ),
  closed,
)

-- From the transport that `NewUDPTransport` returns, let any calls of `Start` and `Stop`, any
-- cancellation and any steps of the goroutines lead to a state whose channel `stopCh` is closed, as in
-- a `Stop` and after it. Then whatever follows, a new `Start` that succeeds included, the channel stays
-- closed, and at most as many datagrams more are received as there are goroutines that were then behind
-- their `select` and in front of the read of `conn`, or in a read of the connection that was open: one
-- for each of them.
pub Reach-serves_due :
    (addr : Bytes) {s t : System}
    → Reach (initial addr) s
    → s.udp.stop_closed ≡ true
    → Reach s t
    → (length t.served ≤ length s.served + due_all s.udp s.loops) × (t.udp.stop_closed ≡ true)
Reach-serves_due addr r closed r' =
    let (opened, le, still) = go (Reach-AllOpened addr r) closed r' in (omega (arith, le), still)
  where
    go :
        {s t : System}
        → AllOpened s
        → s.udp.stop_closed ≡ true
        → Reach s t
        → AllOpened t × (budget t ≤ budget s) × (t.udp.stop_closed ≡ true)
    go h closed here = (h, omega arith, closed)
    go h closed (next r st) =
        let (h', le, closed') = go h closed r in
        let (le', closed'') = Step-budget st h' closed' in
        (Step-AllOpened st h', omega (arith, le, le'), closed'')

-- After a `Stop` of a running transport that returns, and a `Start` that succeeds, the next `Stop`
-- panics, whatever the socket answers: it closes the channel `stopCh`, which no `Start` made anew.
pub stop-start-stop :
    (bind : Bytes → Option Error) (closing closing' e : Option Error) (t t' t'' : Udp)
    → t.running ≡ true
    → stop closing t ≡ ok (t', e)
    → start bind t' ≡ (t'', none)
    → stop closing' t'' ≡ err panic
unfolding start stop
stop-start-stop bind closing closing' e t t' t'' running p q = ground arith

-- A second `Stop` and a second `Start` change nothing: after a `Stop` that returns, `Stop` returns no
-- error and the same state; after a `Start` that succeeds, `Start` fails with "already running" and
-- the same state, whatever binding would answer.
pub stop-stop-start-start :
    (bind bind' : Bytes → Option Error) (closing closing' e : Option Error) (t t' : Udp)
    → (stop closing t ≡ ok (t', e) → stop closing' t' ≡ ok (t', none))
      × (start bind t ≡ (t', none) → start bind' t' ≡ (t', some already_running))
unfolding start stop
stop-stop-start-start bind bind' closing closing' e t t' = (λ p. ground arith, λ p. ground arith)
