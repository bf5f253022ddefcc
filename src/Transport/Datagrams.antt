-- ===== src/Transport/Datagrams.antt =====
-- The datagrams that reach the server one after another, and the process that survives them or not.
use rr_dns.Prelude.{
  ℕ, ◌<◌, true, All, is_value, Option, Bool-cases, List, [], ◌∷◌, ◌++◌, length, ltb, ok, err, Error,
  too_short, question_count, ◌≡◌, ◌≢◌, ◌⊎◌, inl, inr, refl, ◌∙◌, ap, arith,
}
use rr_dns.Prelude.Bytes.{Bytes}
use rr_dns.Wire.Octets.{read_u16}
use rr_dns.Wire.Octets.Laws.{read_u16-lt}
use rr_dns.Wire.Query.{decode_query}
use rr_dns.Transport.{
  Handler, Reply, sent, dropped, crashed, failed, receive, go_on, handle_packet, handle_packets,
}
use rr_dns.Transport.Packets.{Delivers}

-- A datagram that is shorter than a header, or has another number of questions than one.
abbrev pub IsMalformed : Bytes → Type 0
IsMalformed d = (length d < 12) ⊎ ((n : ℕ) × (read_u16 d 4 ≡ ok n) × (n ≢ 1))

decode_query-malformed :
    (f : ℕ) (d : Bytes)
    → IsMalformed d
    → (e : Error) × (decode_query f d ≡ err e) × (is_value e ≡ true)
unfolding decode_query
decode_query-malformed f d (inl h) = (too_short, ground arith, refl)
decode_query-malformed f d (inr (n, p, h)) = elim (Bool-cases (ltb (length d) 12)) [
  | inl short ↦ (too_short, rw short, refl)
  | inr long ↦
      let (id, e0) = read_u16-lt d 0 (ground arith) in (question_count n, ground (arith, e0), refl)
]

-- The process goes on after the reply.
abbrev pub IsAlive : Reply → Type 0
IsAlive (sent msg) = Unit
IsAlive (dropped e) = Unit
IsAlive (crashed e) = ⊥

pub Delivers-IsAlive :
    (write : Bytes → Option Error) (msg : Bytes) (reply : Reply)
    → Delivers write msg reply
    → IsAlive reply
Delivers-IsAlive write msg reply (inl (e, p)) = rw p tt
Delivers-IsAlive write msg reply (inr (x, e, p)) = rw p tt

module _ {S : Type 0} where
  go_on-IsAlive :
      (s : S) (reply : Reply) (later : S × List Reply)
      → IsAlive reply
      → go_on s reply later ≡ (later.0, reply ∷ later.1)
  unfolding go_on
  go_on-IsAlive s (sent msg) later h = refl
  go_on-IsAlive s (dropped e) later h = refl
  go_on-IsAlive s (crashed e) later h = absurd h

  go_on-All :
      (s : S) (reply : Reply) (later : S × List Reply)
      → All IsAlive (go_on s reply later).1
      → IsAlive reply × All IsAlive later.1
  unfolding go_on
  go_on-All s (sent msg) later h = h
  go_on-All s (dropped e) later h = h
  go_on-All s (crashed e) later h = absurd h.0

module _ {S : Type 0} (handler : Handler S) (f : ℕ) (clock : ℕ → ℕ)
    (write : Bytes → Option Error) where
  -- One datagram of many that the process survives.
  handle_packets-cons :
      (s : S) (b : Bytes) (rest : List Bytes)
      → IsAlive (handle_packet handler f clock write s (receive b)).1
      → handle_packets handler f clock write s (b ∷ rest) ≡ (
        (handle_packets handler f clock write
            (handle_packet handler f clock write s (receive b)).0
            rest).0,
        (handle_packet handler f clock write s (receive b)).1
            ∷ (handle_packets handler f clock write
                (handle_packet handler f clock write s (receive b)).0
                rest).1,
      )
  unfolding handle_packets
  handle_packets-cons s b rest h = go_on-IsAlive _ _ _ h

  handle_packets-All :
      (s : S) (b : Bytes) (rest : List Bytes)
      → All IsAlive (handle_packets handler f clock write s (b ∷ rest)).1
      → IsAlive (handle_packet handler f clock write s (receive b)).1
        × All IsAlive
            (handle_packets handler f clock write
              (handle_packet handler f clock write s (receive b)).0
              rest).1
  unfolding handle_packets
  handle_packets-All s b rest h = go_on-All _ _ _ h

  -- A datagram whose reply does not depend on the state, does not change it and is none at which the
  -- process ends.
  abbrev pub Repeats : Bytes → Reply → Type 0
  Repeats d reply =
      IsAlive reply × ((s : S) → handle_packet handler f clock write s (receive d) ≡ (s, reply))

  -- Such a datagram has this reply among any others, if the process survives those before it, and
  -- they and the state are as without it.
  pub handle_packets-same :
      (d : Bytes) (reply : Reply)
      → Repeats d reply
      → (s : S) (before after : List Bytes)
      → All IsAlive (handle_packets handler f clock write s before).1
      → (xs ys : List Reply) × (length xs ≡ length before)
        × ((handle_packets handler f clock write s (before ++ after)).1 ≡ xs ++ ys)
        × ((handle_packets handler f clock write s (before ++ d ∷ after)).1 ≡ xs ++ reply ∷ ys)
        × ((handle_packets handler f clock write s (before ++ d ∷ after)).0
            ≡ (handle_packets handler f clock write s (before ++ after)).0)
  handle_packets-same d reply (alive, same) s [] after up =
      let one : handle_packets handler f clock write s (d ∷ after) ≡ (
        (handle_packets handler f clock write s after).0,
        reply ∷ (handle_packets handler f clock write s after).1,
      ) =
        handle_packets-cons s d after (rw (same s) alive) ∙ rw (same s) refl in
      (
        [],
        (handle_packets handler f clock write s after).1,
        refl,
        refl,
        ap (λ o. o.1) one,
        ap (λ o. o.0) one,
      )
  handle_packets-same d reply h s (b ∷ before) after up =
      let (b_alive, rest_up) = handle_packets-All s b before up in
      let s' = (handle_packet handler f clock write s (receive b)).0 in
      let (xs, ys, l, p, q, r) = handle_packets-same d reply h s' before after rest_up in
      let with_d = handle_packets-cons s b (before ++ d ∷ after) b_alive in
      let without = handle_packets-cons s b (before ++ after) b_alive in
      (
        (handle_packet handler f clock write s (receive b)).1 ∷ xs,
        ys,
        omega (arith, l),
        rw without (rw p),
        rw with_d (rw q),
        rw (with_d, without) r,
      )

  -- The datagrams before one and those after it, with one between them of which the first 512 bytes
  -- are shorter than a header or say another number of questions than one. If the process survives
  -- those before it, then it is dropped with an error, whatever the handler is, and neither the state
  -- nor any other reply is another than without it.
  pub handle_packets-malformed :
      (s : S) (before after : List Bytes) (d : Bytes)
      → All IsAlive (handle_packets handler f clock write s before).1
      → IsMalformed (receive d)
      → (e : Error) × (xs ys : List Reply) × (length xs ≡ length before)
        × ((handle_packets handler f clock write s (before ++ after)).1 ≡ xs ++ ys)
        × ((handle_packets handler f clock write s (before ++ d ∷ after)).1 ≡ xs ++ dropped e ∷ ys)
        × ((handle_packets handler f clock write s (before ++ d ∷ after)).0
            ≡ (handle_packets handler f clock write s (before ++ after)).0)
  unfolding handle_packet failed
  handle_packets-malformed s before after d up h =
      let (e, p) = decode_malformed in
      let (xs, ys, l, p1, p2, p3) = handle_packets-same d (dropped e) (tt, p) s before after up in
      (e, xs, ys, l, p1, p2, p3)
    where
      decode_malformed :
          (e : Error) × ((t : S)
            → handle_packet handler f clock write t (receive d) ≡ (t, dropped e))
      decode_malformed =
          let (e, p, value) = decode_query-malformed f (receive d) h in
          (e, λ t. rw (p, handle_packet) (rw value))
