-- ===== src/Tests/Upstream.antt =====
-- The upstream client at concrete inputs.
use rr_dns.Prelude.{
  true, is_value, arith, ◌+◌, ◌*◌, ◌≤◌, false, none, Result, refl, List, [], ◌∷◌, length, ok, err,
  Error, upstream_io, if◌then◌else◌, ◌≡◌,
}
use rr_dns.Prelude.Bytes.{Bytes, codes, bytes_eq}
use rr_dns.Domain.Record.{ResourceRecord}
use rr_dns.Wire.Header.{message_header}
use rr_dns.Upstream.{Network}
use rr_dns.Upstream.Parallel.{
  error_received, Race, launch, fails, receives, Reachable, Returns, launched, next,
}
use rr_dns.Upstream.Parallel.Outcomes.{Explains, GoesOn, Reachable-outcomes}

-- The first server cannot be reached; the other one replies without answers.
abbrev half_reachable : Network
half_reachable = record {
  set_deadline = λ server deadline. ok tt;
  dial = λ deadline server.
      if bytes_eq server (codes "1.1.1.1:53") then err (upstream_io 0) else ok tt;
  exchange = λ deadline server query. ok (message_header 7 0x8180 0 0 0 0);
}

abbrev servers : List Bytes
servers = codes "1.1.1.1:53" ∷ codes "1.0.0.1:53" ∷ []

-- A server that fails, and its error in the channel.
abbrev ask_failing : Bytes → Result (List ResourceRecord)
ask_failing server = err (upstream_io 0)

abbrev one_error : Race
one_error = record {
  cells = (codes "1.1.1.1:53", error_received) ∷ [];
  response = none;
  expired = false;
}

one_error-Reachable : Reachable ask_failing (codes "1.1.1.1:53" ∷ []) 2 one_error
unfolding launch
one_error-Reachable =
    next 1 _ _
      (next 0 _ _ launched (fails [] [] (codes "1.1.1.1:53") (upstream_io 0) none false refl refl))
      (receives [] [] (codes "1.1.1.1:53") none false)

failing_safe : (s : Bytes) (e : Error) → ask_failing s ≡ err e → is_value e ≡ true
failing_safe s e p = ground arith

Reachable-outcomes_example :
    ((r : Result (List ResourceRecord))
      → Returns one_error r
      → Explains ask_failing (codes "1.1.1.1:53" ∷ []) one_error r)
    × (2 ≤ 2 * length (codes "1.1.1.1:53" ∷ []) + 1)
    × GoesOn ask_failing one_error
Reachable-outcomes_example =
    Reachable-outcomes ask_failing failing_safe (codes "1.1.1.1:53" ∷ []) 2 one_error
      one_error-Reachable
