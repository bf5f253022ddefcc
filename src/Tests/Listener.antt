-- ===== src/Tests/Listener.antt =====
-- A transport that is started, receives a datagram, and is stopped and started again.
use rr_dns.Prelude.{
  ℕ, ◌+◌, ◌≤◌, length, true, false, List, [], ◌∷◌, Option, none, err, Error, panic, ◌≡◌, refl,
}
use rr_dns.Prelude.Bytes.{Bytes, codes}
use rr_dns.Transport.Listener.{
  Udp, new_udp_transport, start, stop, close_channel, close_socket, Loop, at_select, chosen,
  reading, System, initial, chooses, reads, receives, turn, Turns, starts, stops, stopped, turns,
  Reach, here, next,
}
use rr_dns.Transport.Listener.Stopped.{due_all, Reach-serves_due, stop-start-stop}
use rr_dns.Transport.Listener.Ending.{active, Reach-ends}

abbrev listen_addr : Bytes
listen_addr = codes ":53"

-- Every address can be bound.
abbrev binds : Bytes → Option Error
binds addr = none

abbrev udp_with : ℕ → Udp
udp_with n = record {
  addr = listen_addr;
  conn = n;
  open_conn = true;
  running = true;
  stop_closed = false;
}

abbrev stopped_udp : Udp
stopped_udp = record {
  addr = listen_addr;
  conn = 1;
  open_conn = false;
  running = false;
  stop_closed = true;
}

abbrev restarted_udp : Udp
restarted_udp = record {
  addr = listen_addr;
  conn = 2;
  open_conn = true;
  running = true;
  stop_closed = true;
}

-- Between the two steps of `Stop`.
abbrev signalled_udp : Udp
signalled_udp = record {
  addr = listen_addr;
  conn = 1;
  open_conn = true;
  running = true;
  stop_closed = true;
}

abbrev state : Udp → List Loop → List Bytes → System
state t loops served = record {
  udp = t;
  stopping = false;
  cancelled = false;
  loops = loops;
  served = served;
}

abbrev stopping : System
stopping = record {
  udp = signalled_udp;
  stopping = true;
  cancelled = false;
  loops = chosen ∷ [];
  served = [];
}

abbrev datagram : Bytes
datagram = codes "abc"

-- Started, a goroutine is behind its `select` and in front of its read; then stopped.
until_stopped : Reach (initial listen_addr) (state stopped_udp (chosen ∷ []) [])
unfolding initial new_udp_transport start close_channel close_socket
until_stopped =
    next
      (next
        (next (next here (starts (initial listen_addr) binds (udp_with 1) refl refl)) (
          turns (
            turn (state (udp_with 1) (at_select ∷ []) []) [] [] at_select chosen [] refl
              (chooses refl refl))))
        (stops (state (udp_with 1) (chosen ∷ []) []) refl refl refl))
      (stopped stopping refl)

-- Started again, the goroutine of before reads from the new connection.
abbrev restarted : System
restarted = state restarted_udp (at_select ∷ at_select ∷ []) (datagram ∷ [])

until_restarted : Reach (state stopped_udp (chosen ∷ []) []) restarted
unfolding start
until_restarted =
    next
      (next (next here (starts (state stopped_udp (chosen ∷ []) []) binds restarted_udp refl refl))
        (turns (
          turn (state restarted_udp (at_select ∷ chosen ∷ []) []) (at_select ∷ []) [] chosen
            (reading 2) [] refl reads)))
      (turns (
        turn (state restarted_udp (at_select ∷ reading 2 ∷ []) []) (at_select ∷ []) [] (reading 2)
          at_select (datagram ∷ []) refl (receives 2 datagram refl refl)))

Reach-serves_due_example :
    (length restarted.served ≤ 0 + due_all stopped_udp (chosen ∷ []))
    × (restarted.udp.stop_closed ≡ true)
Reach-serves_due_example = Reach-serves_due listen_addr until_stopped refl until_restarted

Reach-ends_example :
    ((n : ℕ) (t : System) → Turns (state stopped_udp (chosen ∷ []) []) n t → n + active t.loops ≡ 2)
    × ((t : System) × Turns (state stopped_udp (chosen ∷ []) []) 2 t × (active t.loops ≡ 0))
Reach-ends_example = Reach-ends listen_addr until_stopped (refl, refl)

stop-start-stop_example : stop none restarted_udp ≡ err panic
unfolding start stop
stop-start-stop_example =
    stop-start-stop binds none none none (udp_with 1) stopped_udp restarted_udp refl refl refl
