-- ===== src/Upstream/Parallel.antt =====
-- `resolveWithContext`: all servers are asked at once, each by a goroutine. One that finishes puts
-- its answers into a channel with room for one response, or its error into a channel with room for
-- all; the loop receives from either channel, in any order, or sees that the context is done.
pub mod Totals
pub mod Invariant
pub mod Bound
pub mod Outcomes
use rr_dns.Prelude.{
  Bool, true, false, ℕ, suc, ◌+◌, ◌<◌, List, [], ◌∷◌, ◌++◌, length, Option, none, some, Result, ok,
  err, Error, is_value, no_server_answered, query_timeout, All, ◌≡◌,
}
use rr_dns.Prelude.Bytes.{Bytes}
use rr_dns.Domain.Record.{ResourceRecord}

-- How far a goroutine and its message are: it runs; its error is in the channel; the loop has
-- received its error; its error was not sent, since the context was done; or it had answers.
pub data Status : Type 0 where
  running error_sent error_received error_dropped had_answers : Status

-- The goroutines, in the order of the servers; the response channel; and whether the context is done.
pub record Race : Type 0 where
  pub cells : List (Bytes × Status)
  pub response : Option (List ResourceRecord)
  pub expired : Bool

unfoldable pub launch : List Bytes → List (Bytes × Status)
launch [] = []
launch (s ∷ ss) = (s, running) ∷ launch ss

-- How many errors the loop has received.
unfoldable pub received : List (Bytes × Status) → ℕ
received [] = 0
received ((s, error_received) ∷ cells) = received cells + 1
received ((s, running) ∷ cells) = received cells
received ((s, error_sent) ∷ cells) = received cells
received ((s, error_dropped) ∷ cells) = received cells
received ((s, had_answers) ∷ cells) = received cells

-- What `wg.Wait` waits for.
abbrev pub IsDone : Bytes × Status → Type 0
IsDone (s, running) = ⊥
IsDone (s, error_sent) = Unit
IsDone (s, error_received) = Unit
IsDone (s, error_dropped) = Unit
IsDone (s, had_answers) = Unit

-- `ask` is the query to one server while the context is not done. One that panics, or whose decoding
-- does not end, has no step here: it ends the process. Once it is, the query may fail
-- whatever the server does (`interrupted`), and the error need not be sent (`drops`).
module _ (ask : Bytes → Result (List ResourceRecord)) where
  pub data Step : Race → Race → Type 0 where
    fails :
        (before after : List (Bytes × Status)) (s : Bytes) (e : Error)
        (r : Option (List ResourceRecord)) (x : Bool)
        → ask s ≡ err e
        → is_value e ≡ true
        → Step
            (record { cells = before ++ (s, running) ∷ after; response = r; expired = x })
            (record { cells = before ++ (s, error_sent) ∷ after; response = r; expired = x })
    interrupted :
        (before after : List (Bytes × Status)) (s : Bytes) (r : Option (List ResourceRecord))
        → Step
            (record { cells = before ++ (s, running) ∷ after; response = r; expired = true })
            (record { cells = before ++ (s, error_sent) ∷ after; response = r; expired = true })
    drops :
        (before after : List (Bytes × Status)) (s : Bytes) (r : Option (List ResourceRecord))
        → Step
            (record { cells = before ++ (s, running) ∷ after; response = r; expired = true })
            (record { cells = before ++ (s, error_dropped) ∷ after; response = r; expired = true })
    answers_first :
        (before after : List (Bytes × Status)) (s : Bytes) (answers : List ResourceRecord)
        (x : Bool)
        → ask s ≡ ok answers
        → Step
            (record { cells = before ++ (s, running) ∷ after; response = none; expired = x })
            (record {
              cells = before ++ (s, had_answers) ∷ after;
              response = some answers;
              expired = x;
            })
    answers_late :
        (before after : List (Bytes × Status)) (s : Bytes) (answers held : List ResourceRecord)
        (x : Bool)
        → ask s ≡ ok answers
        → Step
            (record { cells = before ++ (s, running) ∷ after; response = some held; expired = x })
            (record {
              cells = before ++ (s, had_answers) ∷ after;
              response = some held;
              expired = x;
            })
    receives :
        (before after : List (Bytes × Status)) (s : Bytes) (r : Option (List ResourceRecord))
        (x : Bool)
        → Step
            (record { cells = before ++ (s, error_sent) ∷ after; response = r; expired = x })
            (record { cells = before ++ (s, error_received) ∷ after; response = r; expired = x })
    expires :
        (cells : List (Bytes × Status)) (r : Option (List ResourceRecord))
        → Step
            (record { cells = cells; response = r; expired = false })
            (record { cells = cells; response = r; expired = true })

  -- The states of a race between `servers` after a number of steps.
  pub data Reachable (servers : List Bytes) : ℕ → Race → Type 0 where
    launched :
        Reachable servers 0 (record { cells = launch servers; response = none; expired = false })
    next :
        (n : ℕ) (st st' : Race)
        → Reachable servers n st
        → Step st st'
        → Reachable servers (suc n) st'

-- What the function can return in a state: a response, if the loop is not through; the timeout, in
-- the loop or behind it, when all goroutines are done; or that all servers failed. Of the errors in
-- that message only the number of servers is kept.
pub data Returns : Race → Result (List ResourceRecord) → Type 0 where
  answered :
      (st : Race) (answers : List ResourceRecord)
      → received st.cells < length st.cells
      → st.response ≡ some answers
      → Returns st (ok answers)
  timed_out : (st : Race) → st.expired ≡ true → All IsDone st.cells → Returns st (err query_timeout)
  all_failed :
      (st : Race)
      → received st.cells ≡ length st.cells
      → st.expired ≡ false
      → Returns st (err (no_server_answered (length st.cells)))
