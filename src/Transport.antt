-- ===== src/Transport.antt =====
-- gateways/transport: a datagram and its reply (`handlePacket`), and the factory. Logging is left out.
pub mod Listener
pub mod Packets
pub mod Datagrams
use rr_dns.Prelude.{
  Bool, ℕ, false, true, ◌||◌, List, [], ◌∷◌, Option, none, some, Result, ok, err, Error, is_value,
  take, if◌then◌else◌, transport_planned, transport_unsupported,
}
use rr_dns.Prelude.Bytes.{Bytes, bytes_eq, codes}
use rr_dns.Transport.Listener.{Udp, new_udp_transport}
use rr_dns.Domain.Question.{Question}
use rr_dns.Domain.Response.{DnsResponse}
use rr_dns.Wire.Query.{decode_query}
use rr_dns.Wire.Response.{encode_response}
use rr_dns.Names.{PublicSuffix}
use rr_dns.Resolver.HandleQuery.{Resolver, handle_query}

-- The interface `DNSResponder`, over the states `S` of an implementation.
abbrev pub Handler : Type 0 → Type 0
Handler S = S → Question → S × Result DnsResponse

-- The resolver as a handler: its error is always `nil`.
abbrev pub answering : {S : Type 0} → PublicSuffix → Resolver S → ℕ → Handler S
answering psl r now s q = let (s', response) = handle_query psl r now s q in (s', ok response)

-- What becomes of a datagram: the bytes that are written to the client; the error that is logged; or
-- the end of the whole process, by a panic or by a recursion that exhausts the stack.
pub data Reply : Type 0 where
  sent : Bytes → Reply
  dropped : Error → Reply
  crashed : Error → Reply

unfoldable pub failed : Error → Reply
failed e = if is_value e then dropped e else crashed e

-- `write` is `WriteToUDP` of the socket: `nil`, or an error.
unfoldable pub written : (Bytes → Option Error) → Bytes → Reply
written write msg = elim (write msg) [ none ↦ sent msg | some e ↦ dropped e ]

unfoldable pub reply_with : (ℕ → ℕ) → (Bytes → Option Error) → Result DnsResponse → Reply
unfolding failed written
reply_with clock write (err e) = failed e
reply_with clock write (ok response) = elim (encode_response clock response) [
  | err e ↦ failed e
  | ok msg ↦ written write msg
]

-- The buffer of `listenLoop` has 512 bytes: the rest of a longer datagram is lost.
unfoldable pub receive : Bytes → Bytes
receive datagram = take 512 datagram

-- The replies behind one: none, once the process has ended.
unfoldable pub go_on : {S : Type 0} → S → Reply → S × List Reply → S × List Reply
go_on s (crashed e) later = (s, crashed e ∷ [])
go_on s (sent msg) (s', replies) = (s', sent msg ∷ replies)
go_on s (dropped e) (s', replies) = (s', dropped e ∷ replies)

-- `clock` gives the moments at which the answers are written.
module _ {S : Type 0} (handler : Handler S) (f : ℕ) (clock : ℕ → ℕ)
    (write : Bytes → Option Error) where
  unfoldable pub handle_packet : S → Bytes → S × Reply
  unfolding reply_with failed
  handle_packet s datagram = elim (decode_query f datagram) [
    | err e ↦ (s, failed e)
    | ok q ↦ let (s', response) = handler s q in (s', reply_with clock write response)
  ]

  -- The datagrams in the order in which their goroutines are done with the handler.
  unfoldable pub handle_packets : S → List Bytes → S × List Reply
  unfolding handle_packet receive go_on
  handle_packets s [] = (s, [])
  handle_packets s (datagram ∷ rest) =
      let (s', reply) = handle_packet s (receive datagram) in
      let later = handle_packets s' rest in go_on s' reply later

-- `TransportType` is a text; these are its constants.
abbrev pub TransportType : Type 0
TransportType = Bytes

abbrev pub transport_udp : TransportType
transport_udp = codes "udp"

-- The types that `NewTransport` names without an implementation: DoH, DoT and DoQ.
abbrev pub planned : List TransportType
planned = codes "doh" ∷ codes "dot" ∷ codes "doq" ∷ []

-- The loop that compares `kind` with each type of a list.
abbrev pub listed : TransportType → List TransportType → Bool
listed kind [] = false
listed kind (t ∷ ts) = bytes_eq t kind || listed kind ts

unfoldable pub new_transport : TransportType → Bytes → Result Udp
new_transport kind addr =
    if bytes_eq kind transport_udp
    then ok (new_udp_transport addr)
    else if listed kind planned
    then err transport_planned
    else err transport_unsupported

abbrev pub get_supported_transports : List TransportType
get_supported_transports = transport_udp ∷ []

unfoldable pub is_transport_supported : TransportType → Bool
is_transport_supported kind = listed kind get_supported_transports
