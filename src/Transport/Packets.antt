-- ===== src/Transport/Packets.antt =====
-- A datagram and its reply, from the bytes of a query to the response that its sender reads.
use rr_dns.Prelude.{
  ℕ, ◌<◌, ◌≤◌, Option, none, some, Option-cases, [], length, take-le, Result, ok, Error, >>=-eq-ok,
  ◌≡◌, ◌⊎◌, inl, inr, refl, sym, ◌∙◌, ap,
}
use rr_dns.Prelude.Bytes.{Bytes}
use rr_dns.Text.{dot, split, trim_dot}
use rr_dns.Names.{PublicSuffix}
use rr_dns.Domain.Codes.{RrType}
use rr_dns.Domain.Question.{Question}
use rr_dns.Domain.Response.{DnsResponse}
use rr_dns.Wire.Name.RoundTrip.{IsName}
use rr_dns.Wire.Query.{encode_query, decode_query}
use rr_dns.Wire.Query.RoundTrip.{Fits, decode_query-encode_query}
use rr_dns.Wire.Response.{first_name, encode_response, decode_response}
use rr_dns.Wire.Response.RoundTrip.{
  IsSendableResponse, received_response, decode_response-encode_response,
}
use rr_dns.Resolver.HandleQuery.{Resolver, build_response, handle_query}
use rr_dns.Resolver.HandleQuery.Sources.{
  Source, from_zone, alias_failure, blocked, cached, upstream_failure, fetched, handle_query-Source,
}
use rr_dns.Transport.{
  Handler, Reply, sent, dropped, written, reply_with, receive, handle_packet, answering,
}

-- The question as the server reads it.
abbrev pub asked : Question → Question
asked q = record q { name = trim_dot q.name }

Source-id :
    {S : Type 0} (psl : PublicSuffix) (r : Resolver S) (now : ℕ) (s : S) (q : Question)
    (o : S × DnsResponse)
    → Source psl r now s q o
    → o.1.id ≡ q.id
unfolding build_response
Source-id psl r now s q o (from_zone records e p f h) = rw h
Source-id psl r now s q o (alias_failure records e p f h) = rw h
Source-id psl r now s q o (blocked p b h) = rw h
Source-id psl r now s q o (cached s' records p b c h) = rw h
Source-id psl r now s q o (upstream_failure s' e p b c u h) = rw h
Source-id psl r now s q o (fetched s' records p b c u h) = rw h

-- The message is given to the socket, and the reply says what the socket answers.
abbrev pub Delivers : (Bytes → Option Error) → Bytes → Reply → Type 0
Delivers write msg reply =
    (write msg ≡ none) × (reply ≡ sent msg)
    ⊎ (e : Error) × (write msg ≡ some e) × (reply ≡ dropped e)

pub written-Delivers :
    (write : Bytes → Option Error) (msg : Bytes) → Delivers write msg (written write msg)
unfolding written
written-Delivers write msg = elim (Option-cases (write msg)) [
  | inl e ↦ inl (e, rw (e, written) refl)
  | inr (x, e) ↦ inr (x, e, rw (e, written) refl)
]

pub handle_packet-written :
    {S : Type 0} (handler : Handler S) (f : ℕ) (clock : ℕ → ℕ) (write : Bytes → Option Error)
    (datagram msg : Bytes) (s : S) {s' : S} (q : Question) {resp : DnsResponse}
    → decode_query f datagram ≡ ok q
    → handler s q ≡ (s', ok resp)
    → encode_response clock resp ≡ ok msg
    → handle_packet handler f clock write s datagram ≡ (s', written write msg)
unfolding handle_packet reply_with
handle_packet-written handler f clock write datagram msg s q parsed answered encoded =
    rw (parsed, handle_packet) (rw (answered, handle_packet) (rw (encoded, reply_with)))

-- What a client writes is read as its question.
pub encoded-decode_query :
    (q : Question) (f : ℕ) (datagram : Bytes)
    → encode_query q ≡ ok datagram
    → Fits q
    → IsName (trim_dot q.name)
    → length (split dot (trim_dot q.name)) < f
    → decode_query f datagram ≡ ok (asked q)
encoded-decode_query q f datagram wrote fits named fuel =
    rw wrote at (decode_query-encode_query q f fits named fuel)

pub receive_whole : (d : Bytes) → length d ≤ 512 → receive d ≡ d
unfolding receive
receive_whole d h = take-le 512 d h

-- A query whose fields fit their machine types and whose name has labels of 1 to 63 bytes is sent, in
-- a datagram of at most 512 bytes, to a server on which the resolver is the handler, with fuel for more
-- labels than the name has. If the wire can carry the resolver's response, and its first answer, if
-- any, has the name of the question less its trailing dot, then one message is given to the socket to
-- write, and what `DecodeResponse` reads from the whole of it is the ID of the query and the resolver's
-- answers in their order, with their names in canonical form and the time that was left to each when
-- it was sent; the resolver's state is that after its answer. An error of writing is only logged.
pub handle_packet-handle_query :
    {S : Type 0} (psl : PublicSuffix) (r : Resolver S) (now : ℕ)
    (decode_rdata : RrType → Bytes → Result Bytes) (f : ℕ) (clock : ℕ → ℕ)
    (write : Bytes → Option Error) (read_at : ℕ) (s : S) (q : Question) (datagram : Bytes)
    → encode_query q ≡ ok datagram
    → length datagram ≤ 512
    → Fits q
    → IsName (trim_dot q.name)
    → length (split dot (trim_dot q.name)) < f
    → IsSendableResponse decode_rdata f (handle_query psl r now s (asked q)).1
    → ((handle_query psl r now s (asked q)).1.answers ≡ [])
      ⊎ (first_name (handle_query psl r now s (asked q)).1.answers
          ≡ (handle_query psl r now s (asked q)).1.question.name)
    → (msg : Bytes) × (reply : Reply) × (handle_packet
          (answering psl r now)
          f
          clock
          write
          s
          (receive datagram)
        ≡ ((handle_query psl r now s (asked q)).0, reply))
      × Delivers write msg reply
      × (decode_response decode_rdata f msg read_at q.id
          ≡ ok (received_response clock read_at (handle_query psl r now s (asked q)).1))
handle_packet-handle_query psl r now decode_rdata f clock write read_at s q datagram wrote small
      fits named fuel sendable same =
    let resp = (handle_query psl r now s (asked q)).1 in
    let parsed = encoded-decode_query q f datagram wrote fits named fuel in
    let (msg, encoded, received) =
      >>=-eq-ok (encode_response clock resp) (λ m. decode_response decode_rdata f m read_at resp.id)
        (decode_response-encode_response decode_rdata f clock read_at resp sendable same) in
    let same_id =
      Source-id psl r now s (asked q) (handle_query psl r now s (asked q))
        (handle_query-Source psl r now s (asked q)) in
    (
      msg,
      written write msg,
      rw (receive_whole datagram small) (
          handle_packet-written (answering psl r now) f clock write datagram msg s (asked q) parsed
            refl encoded),
      written-Delivers write msg,
      ap (λ id. decode_response decode_rdata f msg read_at id) (sym same_id) ∙ received,
    )
