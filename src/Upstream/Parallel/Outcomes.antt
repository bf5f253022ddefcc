-- ===== src/Upstream/Parallel/Outcomes.antt =====
-- What the function can return, whatever the order in which the goroutines finish.
use rr_dns.Prelude.{
  Bool, true, false, ℕ, ◌+◌, ◌*◌, ◌≤◌, List, [], ◌∷◌, ◌++◌, length, Option, none, some, Result, ok,
  err, Error, is_value, Result-cases, no_server_answered, query_timeout, append_assoc, inl, inr,
  ◌⊎◌, ◌≡◌, refl, sym, ap, ◌∙◌, All, arith,
}
use rr_dns.Prelude.Bytes.{Bytes}
use rr_dns.Domain.Record.{ResourceRecord}
use rr_dns.Upstream.Parallel.{
  Status, running, error_sent, error_received, error_dropped, had_answers, Race, received, IsDone,
  Step, fails, interrupted, answers_first, receives, Reachable, Returns, answered, timed_out,
  all_failed,
}
use rr_dns.Upstream.Parallel.Invariant.{
  names, length-names, Fails, AnsweredBy, Quiet, Fair, Fairly, Reachable-Fairly,
}
use rr_dns.Upstream.Parallel.Bound.{Reachable-bound}
use rr_dns.Upstream.Parallel.Totals.{received-heard}

module _ (ask : Bytes → Result (List ResourceRecord)) where
  received-All :
      (cells : List (Bytes × Status))
      → All (Fair ask) cells
      → received cells ≡ length cells
      → All (Fails ask) (names cells)
  unfolding received names
  received-All [] h e = tt
  received-All ((s, running) ∷ cells) (x, h) e = absurd (omega (arith, received-heard cells))
  received-All ((s, error_sent) ∷ cells) (x, h) e = absurd (omega (arith, received-heard cells))
  received-All ((s, error_received) ∷ cells) (x, h) e = (x, received-All cells h (omega arith))
  received-All ((s, error_dropped) ∷ cells) (x, h) e = absurd x
  received-All ((s, had_answers) ∷ cells) (x, h) e = absurd (omega (arith, received-heard cells))

  -- A step other than the end of the context.
  abbrev CanStep : Race → Type 0
  CanStep st = (st' : Race) × Step ask st st' × (st'.expired ≡ st.expired)

  -- No query to a server ends the process.
  abbrev pub NoneKills : Type 0
  NoneKills = (s : Bytes) (e : Error) → ask s ≡ err e → is_value e ≡ true

  -- Where no goroutine has had answers and the context is not done, the next message is on its way,
  -- unless all have come.
  Quiet-CanStep :
      (safe : NoneKills) (before cells : List (Bytes × Status))
      → All Quiet cells
      → All (Fair ask) cells
      → (received cells ≡ length cells)
        ⊎ CanStep (record { cells = before ++ cells; response = none; expired = false })
  unfolding received
  Quiet-CanStep safe before [] h f = inl refl
  Quiet-CanStep safe before ((s, running) ∷ cells) h f = elim (Result-cases (ask s)) [
    | inl (answers, p) ↦ inr (_, answers_first before cells s answers false p, refl)
    | inr (e, p) ↦ inr (_, fails before cells s e none false p (safe s e p), refl)
  ]
  Quiet-CanStep safe before ((s, error_sent) ∷ cells) h f =
      inr (_, receives before cells s none false, refl)
  Quiet-CanStep safe before ((s, error_received) ∷ cells) (x, h) (y, f) =
      elim (Quiet-CanStep safe (before ++ (s, error_received) ∷ []) cells h f) [
        | inl all ↦ inl (ground arith)
        | inr (st', step, same) ↦
            inr (st', rw (append_assoc before ((s, error_received) ∷ []) cells) at step, same)
      ]
  Quiet-CanStep safe before ((s, error_dropped) ∷ cells) h (y, f) = absurd y
  Quiet-CanStep safe before ((s, had_answers) ∷ cells) (x, h) f = absurd x

  expired-CanStep_tail :
      (before cells : List (Bytes × Status)) (s : Bytes) (u : Status)
      (r : Option (List ResourceRecord))
      → IsDone (s, u)
      → (All IsDone cells
          ⊎ CanStep
              (record { cells = (before ++ (s, u) ∷ []) ++ cells; response = r; expired = true }))
      → All IsDone ((s, u) ∷ cells)
        ⊎ CanStep (record { cells = before ++ (s, u) ∷ cells; response = r; expired = true })
  expired-CanStep_tail before cells s u r over (inl rest) = inl (over, rest)
  expired-CanStep_tail before cells s u r over (inr (st', step, same)) =
      inr (st', rw (append_assoc before ((s, u) ∷ []) cells) at step, same)

  -- Once the context is done, every goroutine that runs can finish.
  expired-CanStep :
      (before cells : List (Bytes × Status)) (r : Option (List ResourceRecord))
      → All IsDone cells
        ⊎ CanStep (record { cells = before ++ cells; response = r; expired = true })
  expired-CanStep before [] r = inl tt
  expired-CanStep before ((s, running) ∷ cells) r = inr (_, interrupted before cells s r, refl)
  expired-CanStep before ((s, error_sent) ∷ cells) r =
      expired-CanStep_tail before cells s error_sent r tt
        (expired-CanStep (before ++ (s, error_sent) ∷ []) cells r)
  expired-CanStep before ((s, error_received) ∷ cells) r =
      expired-CanStep_tail before cells s error_received r tt
        (expired-CanStep (before ++ (s, error_received) ∷ []) cells r)
  expired-CanStep before ((s, error_dropped) ∷ cells) r =
      expired-CanStep_tail before cells s error_dropped r tt
        (expired-CanStep (before ++ (s, error_dropped) ∷ []) cells r)
  expired-CanStep before ((s, had_answers) ∷ cells) r =
      expired-CanStep_tail before cells s had_answers r tt
        (expired-CanStep (before ++ (s, had_answers) ∷ []) cells r)

  -- The function returns, or a goroutine or the loop can go on.
  abbrev pub GoesOn : Race → Type 0
  GoesOn st = ((r : Result (List ResourceRecord)) × Returns st r) ⊎ CanStep st

  expired-GoesOn :
      (cells : List (Bytes × Status)) (r : Option (List ResourceRecord))
      → GoesOn (record { cells = cells; response = r; expired = true })
  expired-GoesOn cells r = elim (expired-CanStep [] cells r) [
    | inl over ↦ inl (_, timed_out _ refl over)
    | inr step ↦ inr step
  ]

  Quiet-GoesOn :
      (safe : NoneKills) (cells : List (Bytes × Status))
      → All Quiet cells
      → All (Fair ask) cells
      → GoesOn (record { cells = cells; response = none; expired = false })
  Quiet-GoesOn safe cells h f = elim (Quiet-CanStep safe [] cells h f) [
    | inl all ↦ inl (_, all_failed _ all refl)
    | inr step ↦ inr step
  ]

  Fairly-GoesOn :
      (safe : NoneKills) (servers : List Bytes) (cells : List (Bytes × Status))
      (r : Option (List ResourceRecord)) (x : Bool)
      → Fairly ask servers (record { cells = cells; response = r; expired = x })
      → GoesOn (record { cells = cells; response = r; expired = x })
  Fairly-GoesOn safe servers cells r true h = expired-GoesOn cells r
  Fairly-GoesOn safe servers cells none false h =
      Quiet-GoesOn safe cells (h.quiet refl) (h.fair refl)
  Fairly-GoesOn safe servers cells (some answers) false h =
      inl (_, answered _ answers (omega (arith, h.loud answers refl, received-heard cells)) refl)

  -- What a result of the function says.
  abbrev pub Explains : List Bytes → Race → Result (List ResourceRecord) → Type 0
  Explains servers st (ok answers) = AnsweredBy ask servers answers
  Explains servers st (err e) =
      ((e ≡ query_timeout) × (st.expired ≡ true))
      ⊎ ((e ≡ no_server_answered (length servers)) × All (Fails ask) servers)

  Returns-Explains :
      (servers : List Bytes) {st : Race} {r : Result (List ResourceRecord)}
      → Fairly ask servers st
      → Returns st r
      → Explains servers st r
  Returns-Explains servers h (answered st answers lt e) = h.honest answers e
  Returns-Explains servers h (timed_out st e over) = inl (refl, e)
  Returns-Explains servers h (all_failed st all e) = inr (
    ap no_server_answered (sym (length-names st.cells) ∙ ap length h.in_order),
    rw (← h.in_order) (received-All st.cells (h.fair e) all),
  )

  -- If no query to a server ends the process, then in whatever order the goroutines of a race finish,
  -- the loop receives and the context is done: what the function returns is an answer of one of the
  -- servers, or the timeout, and then the context is done, or the error that all servers failed, and
  -- then each of them has failed. A race ends: it has at most two steps for each server and one more,
  -- and until the function can return a goroutine or the loop has a step, other than the end of the
  -- context, so that it does not wait for a message that cannot come.
  pub Reachable-outcomes :
      (safe : NoneKills) (servers : List Bytes) (n : ℕ) (st : Race)
      → Reachable ask servers n st
      → ((r : Result (List ResourceRecord)) → Returns st r → Explains servers st r)
        × (n ≤ 2 * length servers + 1)
        × GoesOn st
  Reachable-outcomes safe servers n st reach =
      let h = Reachable-Fairly ask servers reach in
      (
        λ r ret. Returns-Explains servers h ret,
        Reachable-bound ask servers reach,
        Fairly-GoesOn safe servers st.cells st.response st.expired h,
      )
