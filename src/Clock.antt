-- ===== src/Clock.antt =====
-- common/clock/clock.go: the clock of the tests. `RealClock` reads the system's time, which is an
-- argument of what uses it.
use rr_dns.Prelude.{ℕ, ◌+◌, ◌*◌, ltb, some, ok, ◌≡◌, arith}
use rr_dns.Prelude.Bytes.{Bytes}
use rr_dns.Domain.Record.{second, ResourceRecord, new_cached, is_expired}

pub record MockClock : Type 0 where
  pub current_time : ℕ

unfoldable pub now : MockClock → ℕ
now c = c.current_time

-- The duration is not negative here.
unfoldable pub advance : ℕ → MockClock → MockClock
advance d c = record c { current_time = c.current_time + d }

expires_at-cached :
    (at ttl : ℕ) (name rdata text : Bytes) (t k : ℕ) {rr : ResourceRecord}
    → new_cached name t k ttl rdata text at ≡ ok rr
    → rr.expires_at ≡ some (at + ttl * second)
unfolding new_cached
expires_at-cached at ttl name rdata text t k h = ground arith

ltb-add : (a m d : ℕ) → ltb (a + m) (a + d) ≡ ltb m d
ltb-add a m d = ground arith

-- A record that was cached at the time of a clock has expired once the clock was advanced by more than
-- the TTL, and not before.
is_expired-advance :
    (c : MockClock) (d ttl : ℕ) (name rdata text : Bytes) (t k : ℕ) {rr : ResourceRecord}
    → new_cached name t k ttl rdata text (now c) ≡ ok rr
    → is_expired rr (now (advance d c)) ≡ ltb (ttl * second) d
unfolding now advance is_expired
is_expired-advance c d ttl name rdata text t k h =
    rw (expires_at-cached (now c) ttl name rdata text t k h)
      (ltb-add c.current_time (ttl * second) d)
