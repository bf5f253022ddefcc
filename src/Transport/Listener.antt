-- ===== src/Transport/Listener.antt =====
-- udp_transport.go: `Start`, `Stop` and the listening goroutines, as a state machine. A call of
-- `Start` or `Stop` holds the mutex from start to end. The goroutines take it only to read `running`
-- after an error, so that they see `Stop` in two steps.
pub mod Stopped
pub mod Ending
use rr_dns.Prelude.{
  Bool, ℕ, zero, suc, ◌+◌, ◌*◌, ◌<◌, ◌≤◌, false, true, not, if◌then◌else◌, List, [], ◌∷◌, ◌++◌,
  length, Option, none, some, Result, ok, err, Error, already_running, panic, ◌≡◌,
}
use rr_dns.Prelude.Bytes.{Bytes}

-- `UDPTransport`: the connections are numbered in the order of their opening, `conn` is the last, and
-- `open` says that it is open; `stop_closed` that the channel `stopCh` is closed.
pub record Udp : Type 0 where
  pub addr : Bytes
  pub conn : ℕ
  pub open_conn : Bool
  pub running : Bool
  pub stop_closed : Bool

unfoldable pub new_udp_transport : Bytes → Udp
new_udp_transport addr = record {
  addr = addr;
  conn = 0;
  open_conn = false;
  running = false;
  stop_closed = false;
}

-- `bind` resolves the address and binds the socket. The channel `stopCh` stays as it is.
unfoldable pub start : (Bytes → Option Error) → Udp → Udp × Option Error
start bind t = if t.running then (t, some already_running) else elim (bind t.addr) [
  | some e ↦ (t, some e)
  | none ↦ (record t { conn = t.conn + 1; open_conn = true; running = true }, none)
]

-- The two steps of `Stop`: the channel is closed, then the socket.
unfoldable pub close_channel : Udp → Udp
close_channel t = record t { stop_closed = true }

unfoldable pub close_socket : Udp → Udp
close_socket t = record t { open_conn = false; running = false }

-- A channel that is closed a second time is a panic. `closing` is the error of closing the socket.
unfoldable pub stop : Option Error → Udp → Result (Udp × Option Error)
unfolding close_channel close_socket
stop closing t =
    if not t.running
    then ok (t, none)
    else if t.stop_closed
    then err panic
    else ok (close_socket (close_channel t), closing)

-- A goroutine of `listenLoop`: in front of the `select`, in its default case in front of the read of
-- `conn`, in `ReadFromUDP` of a connection, or done.
pub data Loop : Type 0 where
  at_select : Loop
  chosen : Loop
  reading : ℕ → Loop
  ended : Loop

-- `stopping` says that a `Stop` is between its two steps, with the mutex.
pub record System : Type 0 where
  pub udp : Udp
  pub stopping : Bool
  pub cancelled : Bool
  pub loops : List Loop
  pub served : List Bytes

unfoldable pub initial : Bytes → System
unfolding new_udp_transport
initial addr = record {
  udp = new_udp_transport addr;
  stopping = false;
  cancelled = false;
  loops = [];
  served = [];
}

-- A step of one goroutine, `l` before and `l'` after it, and the datagrams that it receives (of each,
-- the first 512 bytes) and hands to a goroutine of its own, which `handle_packet` is about.
pub data LoopStep (t : Udp) (stopping cancelled : Bool) : Loop → Loop → List Bytes → Type 0 where
  sees_cancel : cancelled ≡ true → LoopStep t stopping cancelled at_select ended []
  sees_stop : t.stop_closed ≡ true → LoopStep t stopping cancelled at_select ended []
  chooses :
      cancelled ≡ false → t.stop_closed ≡ false → LoopStep t stopping cancelled at_select chosen []
  reads : LoopStep t stopping cancelled chosen (reading t.conn) []
  receives :
      (n : ℕ) (datagram : Bytes)
      → n ≡ t.conn
      → t.open_conn ≡ true
      → LoopStep t stopping cancelled (reading n) at_select (datagram ∷ [])
  -- The read fails, and `running` is read with the mutex.
  fails_running :
      (n : ℕ)
      → stopping ≡ false
      → t.running ≡ true
      → LoopStep t stopping cancelled (reading n) at_select []
  fails_stopped :
      (n : ℕ)
      → stopping ≡ false
      → t.running ≡ false
      → LoopStep t stopping cancelled (reading n) ended []

-- One goroutine goes on.
pub data Turn : System → System → Type 0 where
  turn :
      (s : System) (before after : List Loop) (l l' : Loop) (received : List Bytes)
      → s.loops ≡ before ++ l ∷ after
      → LoopStep s.udp s.stopping s.cancelled l l' received
      → Turn s (record s { loops = before ++ l' ∷ after; served = s.served ++ received })

pub data Turns (s : System) : ℕ → System → Type 0 where
  rests : Turns s 0 s
  goes_on : {n : ℕ} {t u : System} → Turns s n t → Turn t u → Turns s (suc n) u

pub data Step : System → System → Type 0 where
  starts :
      (s : System) (bind : Bytes → Option Error) (t : Udp)
      → s.stopping ≡ false
      → start bind s.udp ≡ (t, none)
      → Step s (record s { udp = t; loops = at_select ∷ s.loops })
  -- A `Stop` that is not running does nothing, and one of a closed channel panics.
  stops :
      (s : System)
      → s.stopping ≡ false
      → s.udp.running ≡ true
      → s.udp.stop_closed ≡ false
      → Step s (record s { udp = close_channel s.udp; stopping = true })
  stopped :
      (s : System)
      → s.stopping ≡ true
      → Step s (record s { udp = close_socket s.udp; stopping = false })
  cancels : (s : System) → Step s (record s { cancelled = true })
  turns : {s t : System} → Turn s t → Step s t

pub data Reach (s : System) : System → Type 0 where
  here : Reach s s
  next : {t u : System} → Reach s t → Step t u → Reach s u
