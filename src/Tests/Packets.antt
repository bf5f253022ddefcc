-- ===== src/Tests/Packets.antt =====
-- Datagrams that reach the server.
use rr_dns.Prelude.{
  ℕ, ◌*◌, List, [], ◌∷◌, ◌++◌, length, Option, none, some, ok, err, Error, panic, ◌≡◌, refl, inl,
  inr, arith,
}
use rr_dns.Prelude.Bytes.{Bytes, codes}
use rr_dns.Text.{split, trim_dot}
use rr_dns.Domain.Record.{second}
use rr_dns.Domain.Question.{Question}
use rr_dns.Rdata
use rr_dns.Wire.Octets.{put_u16}
use rr_dns.Wire.Header.{message_header}
use rr_dns.Wire.Query.{encode_query, encode_query_labels, decode_query}
use rr_dns.Wire.Query.RoundTrip.{Fits}
use rr_dns.Wire.Response.{decode_response}
use rr_dns.Wire.Response.RoundTrip.{received_response}
use rr_dns.Resolver.HandleQuery.{
  Resolver, build_response, resolve_from_zone, chase_from_zone, is_fatal_alias_error, handle_query,
}
use rr_dns.Transport.{Handler, Reply, dropped, receive, handle_packet, handle_packets, answering}
use rr_dns.Transport.Packets.{Delivers, handle_packet-handle_query}
use rr_dns.Transport.Datagrams.{handle_packets-malformed}
use rr_dns.Tests.Sample.{address, ask, no_suffix}
use rr_dns.Tests.Response.{answered, answered-IsSendableResponse}

-- A resolver whose zone has one address for every question.
abbrev one_zone : Resolver (Unit {0})
one_zone = record {
  blocklist = none;
  upstream = none;
  upstream_cache = none;
  zone_cache = some (λ q. some (address (codes "a.io") (some (100 * second)) ∷ []));
  alias_resolver = none;
}

-- With a trailing dot, as a client may write it.
abbrev dotted : Question
dotted = ask (codes "a.io.")

dotted-Fits : Fits dotted
dotted-Fits = record {
  id_fits = omega arith;
  rrtype_fits = omega arith;
  rrclass_fits = omega arith;
}

-- Every write succeeds.
abbrev writes : Bytes → Option Error
writes msg = none

abbrev dotted_bytes : Bytes
dotted_bytes =
    message_header 7 0x0100 1 0 0 0 ++ (1 ∷ b'a' ∷ 2 ∷ b'i' ∷ b'o' ∷ 0 ∷ (put_u16 1 ++ put_u16 1))

dotted_written : encode_query dotted ≡ ok dotted_bytes
unfolding encode_query encode_query_labels split trim_dot message_header put_u16
dotted_written = refl

handle_packet-handle_query_example :
    (msg : Bytes) × (reply : Reply) × (handle_packet
        (answering no_suffix one_zone 0)
        9
        (λ i. 0)
        writes
        tt
        (receive dotted_bytes)
      ≡ (tt, reply))
    × Delivers writes msg reply
    × (decode_response Rdata.decode 9 msg 5 7 ≡ ok (received_response (λ i. 0) 5 answered))
unfolding trim_dot split handle_query resolve_from_zone chase_from_zone is_fatal_alias_error
    build_response message_header put_u16
handle_packet-handle_query_example =
    handle_packet-handle_query no_suffix one_zone 0 Rdata.decode 9 (λ i. 0) writes 5 tt dotted
      dotted_bytes dotted_written (omega arith) dotted-Fits (ground arith) (omega arith)
      answered-IsSendableResponse (inr refl)

-- A handler that counts and fails.
abbrev counting : Handler ℕ
counting n q = (n * 2, err panic)

handle_packets-malformed_example :
    (e : Error) × (xs ys : List Reply) × (length xs ≡ 1)
    × ((handle_packets counting 9 (λ i. 0) writes 3 ((9 ∷ []) ∷ (8 ∷ []) ∷ [])).1 ≡ xs ++ ys)
    × ((handle_packets counting 9 (λ i. 0) writes 3 ((9 ∷ []) ∷ (7 ∷ []) ∷ (8 ∷ []) ∷ [])).1
        ≡ xs ++ dropped e ∷ ys)
    × ((handle_packets counting 9 (λ i. 0) writes 3 ((9 ∷ []) ∷ (7 ∷ []) ∷ (8 ∷ []) ∷ [])).0
        ≡ (handle_packets counting 9 (λ i. 0) writes 3 ((9 ∷ []) ∷ (8 ∷ []) ∷ [])).0)
unfolding handle_packets decode_query
handle_packets-malformed_example =
    handle_packets-malformed counting 9 (λ i. 0) writes 3 ((9 ∷ []) ∷ []) ((8 ∷ []) ∷ []) (7 ∷ [])
      (tt, tt) (inl (omega arith))
