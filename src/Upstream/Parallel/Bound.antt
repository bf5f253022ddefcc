-- ===== src/Upstream/Parallel/Bound.antt =====
-- A race has at most two steps for each server, and the one at which the context is done.
use rr_dns.Prelude.{Bool, true, false, ℕ, suc, ◌+◌, ◌*◌, ◌≤◌, List, length, Result, arith}
use rr_dns.Prelude.Bytes.{Bytes}
use rr_dns.Domain.Record.{ResourceRecord}
use rr_dns.Upstream.Parallel.{
  Status, running, error_sent, error_received, error_dropped, had_answers, Race, Step, fails,
  interrupted, drops, answers_first, answers_late, receives, expires, Reachable, launched, next,
}
use rr_dns.Upstream.Parallel.Totals.{total, total-replace, total-launch}

-- The steps that a goroutine and its message have left.
abbrev left : Status → ℕ
left running = 2
left error_sent = 1
left _ = 0

abbrev deadline_left : Bool → ℕ
deadline_left true = 0
deadline_left false = 1

measure : Race → ℕ
measure st = total left st.cells + deadline_left st.expired

module _ (ask : Bytes → Result (List ResourceRecord)) where
  measure-Step : {st st' : Race} → Step ask st st' → suc (measure st') ≤ measure st
  unfolding measure
  measure-Step (fails before after s e r x p v) =
      omega (arith, total-replace left before after s running error_sent)
  measure-Step (interrupted before after s r) =
      omega (arith, total-replace left before after s running error_sent)
  measure-Step (drops before after s r) =
      omega (arith, total-replace left before after s running error_dropped)
  measure-Step (answers_first before after s answers x p) =
      omega (arith, total-replace left before after s running had_answers)
  measure-Step (answers_late before after s answers held x p) =
      omega (arith, total-replace left before after s running had_answers)
  measure-Step (receives before after s r x) =
      omega (arith, total-replace left before after s error_sent error_received)
  measure-Step (expires cells r) = omega arith

  steps_left :
      (servers : List Bytes) {n : ℕ} {st : Race}
      → Reachable ask servers n st
      → n + measure st ≤ 2 * length servers + 1
  unfolding measure
  steps_left servers launched = omega (arith, total-launch left servers)
  steps_left servers (next _ _ _ reach step) =
      omega (arith, steps_left servers reach, measure-Step step)

  pub Reachable-bound :
      (servers : List Bytes) {n : ℕ} {st : Race}
      → Reachable ask servers n st
      → n ≤ 2 * length servers + 1
  Reachable-bound servers reach = omega (arith, steps_left servers reach)
