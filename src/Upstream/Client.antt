-- ===== src/Upstream/Client.antt =====
-- gateways/upstream/resolver.go: `NewResolver`, and `Resolve` with its deadline and its choice of a
-- strategy.
use rr_dns.Prelude.{
  Bool, ℕ, ltb, ◌+◌, ◌*◌, ◌==◌, List, is_empty, Option, none, some, Result, ok, err, if◌then◌else◌,
  no_servers, codec_required,
}
use rr_dns.Prelude.Bytes.{Bytes}
use rr_dns.Domain.Record.{second, ResourceRecord}
use rr_dns.Resolver.Alias.{Resolve}
use rr_dns.Upstream.{Network, resolve_serial, query_server}

-- `Options`. A `timeout` of 0 stands for any that is not positive; of the codec, which is the one of
-- this repository, only whether it is given counts.
pub record Options : Type 0 where
  pub servers : List Bytes
  pub timeout : ℕ
  pub parallel : Bool
  pub codec : Bool
  pub dial : Option Network

pub record Client : Type 0 where
  pub servers : List Bytes
  pub timeout : ℕ
  pub parallel : Bool
  pub network : Network

abbrev pub default_timeout : ℕ
default_timeout = 5 * second

-- `dialer` is the network of Go's `net.Dialer`.
unfoldable pub new_resolver : Network → Options → Result Client
new_resolver dialer opts =
    if is_empty opts.servers
    then err no_servers
    else if opts.codec
    then ok (record {
      servers = opts.servers;
      timeout = if opts.timeout == 0 then default_timeout else opts.timeout;
      parallel = opts.parallel;
      network = elim opts.dial [ none ↦ dialer | some net ↦ net ];
    })
    else err codec_required

-- `setTimeout`
unfoldable pub set_timeout : ℕ → Client → Client
set_timeout d c = if ltb 0 d then record c { timeout = d } else c

-- The deadline of the context, or else the one that the timeout gives it at the time `called`.
unfoldable pub ensure_context_deadline : Client → ℕ → Option ℕ → ℕ
ensure_context_deadline c called none = called + c.timeout
ensure_context_deadline c called (some deadline) = deadline

-- `context` is the deadline of the context, and `called` the time of the call. `race` is what `resolveWithContext` returns for a query to one server and the servers.
unfoldable pub resolve :
    ((Bytes → Result (List ResourceRecord)) → List Bytes → Result (List ResourceRecord))
    → ℕ
    → Client
    → Option ℕ
    → ℕ
    → Resolve
resolve race f c context called q now =
    let deadline = ensure_context_deadline c called context in
    if c.parallel
    then race (query_server c.network f (some deadline) q now) c.servers
    else resolve_serial c.network f (some deadline) q now c.servers
