-- ===== src/Upstream/Serial.antt =====
-- What the servers, tried in order, answer.
use rr_dns.Prelude.{
  true, false, is_value, Result, ℕ, List, ◌∷◌, ◌++◌, Option, ok, err, Error, all_servers_failed,
  ◌≡◌, All,
}
use rr_dns.Prelude.Bytes.{Bytes}
use rr_dns.Domain.Question.{Question}
use rr_dns.Domain.Record.{ResourceRecord}
use rr_dns.Upstream.{Network, query_server}

module _ (net : Network) (f : ℕ) (deadline : Option ℕ) (q : Question) (now : ℕ) where
  -- The query to the server gives an error of the program, with which the loop goes on.
  abbrev pub Fails : Bytes → Type 0
  Fails server =
      (e : Error) × (query_server net f deadline q now server ≡ err e) × (is_value e ≡ true)

  -- A server before which all fail.
  pub record First (servers : List Bytes) (r : Result (List ResourceRecord)) : Type 0 where
    pub before : List Bytes
    pub server : Bytes
    pub after : List Bytes
    pub split_here : servers ≡ before ++ server ∷ after
    pub all_before_fail : All Fails before
    pub query_is : query_server net f deadline q now server ≡ r

  -- How the loop ends.
  pub data Tried (count : ℕ) (servers : List Bytes) (r : Result (List ResourceRecord))
      : Type 0 where
    answered :
        (answers : List ResourceRecord) → r ≡ ok answers → First servers r → Tried count servers r
    killed : (e : Error) → is_value e ≡ false → r ≡ err e → First servers r → Tried count servers r
    exhausted :
        (e : Error)
        → r ≡ err (all_servers_failed count e)
        → All Fails servers
        → Tried count servers r
