-- ===== src/Upstream.antt =====
-- gateways/upstream/resolver.go: the query to one server, and the servers tried in order. The
-- network is an argument; a context that is done before a reply has come shows as an error of its
-- operations, which are given the deadline.
pub mod Serial
pub mod Parallel
pub mod Client
use rr_dns.Prelude.{
  ℕ, take, List, [], ◌∷◌, length, Option, none, some, Result, ok, err, ◌>>=◌, ◌>>◌, Error,
  all_servers_failed, no_upstream, is_value, if◌then◌else◌,
}
use rr_dns.Prelude.Bytes.{Bytes}
use rr_dns.Domain.Question.{Question}
use rr_dns.Domain.Record.{ResourceRecord}
use rr_dns.Wire.Query.{encode_query}
use rr_dns.Wire.Response.{decode_response}
use rr_dns.Rdata

-- `DialContext`; `SetDeadline` on the connection to a server; and a write to the connection followed
-- by a read of one datagram.
pub record Network : Type 0 where
  pub dial : Option ℕ → Bytes → Result (Unit {0})
  pub set_deadline : Bytes → ℕ → Result (Unit {0})
  pub exchange : Option ℕ → Bytes → Bytes → Result Bytes

-- The connection gets the deadline of the context, if it has one.
unfoldable pub limit_connection : Network → Bytes → Option ℕ → Result (Unit {0})
limit_connection net server none = ok tt
limit_connection net server (some deadline) = net.set_deadline server deadline

-- `f` is the fuel of the names in the reply, of which at most 512 bytes are read.
module _ (net : Network) (f : ℕ) (deadline : Option ℕ) (q : Question) (now : ℕ) where
  unfoldable pub query_server : Bytes → Result (List ResourceRecord)
  unfolding limit_connection
  query_server server = do
    net.dial deadline server
    limit_connection net server deadline
    query ← encode_query q
    reply ← net.exchange deadline server query
    response ← decode_response Rdata.decode f (take 512 reply) now q.id
    ok response.answers

  -- The loop over the servers that are left; `last` is the error of the server before them. Where the
  -- decoding of a reply panics or does not end, it ends the process, in a goroutine of the query.
  unfoldable pub serial_loop : ℕ → List Bytes → Error → Result (List ResourceRecord)
  unfolding query_server
  serial_loop count [] last = err (all_servers_failed count last)
  serial_loop count (server ∷ servers) last = elim (query_server server) [
    | ok answers ↦ ok answers
    | err e ↦ let rest = serial_loop count servers e in if is_value e then rest else err e
  ]

  -- Without a server the error wraps `nil`, for which `no_upstream` stands.
  unfoldable pub resolve_serial : List Bytes → Result (List ResourceRecord)
  unfolding serial_loop
  resolve_serial servers = serial_loop (length servers) servers no_upstream
