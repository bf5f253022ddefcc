-- ===== src/Wire/Header.antt =====
-- The twelve bytes in front of a message: ID, flags, and the counts of the four sections.
use rr_dns.Prelude.{ℕ, ◌^◌, ◌≤◌, ◌<◌, ◌++◌, length, length-append, ok, ◌≡◌, refl, arith}
use rr_dns.Prelude.Bytes.{Bytes}
use rr_dns.Wire.Octets.{put_u16, read_byte, read_u16}

-- Six writes of a `uint16`.
unfoldable pub message_header : ℕ → ℕ → ℕ → ℕ → ℕ → ℕ → Bytes
message_header id flags qd an ns ar =
    put_u16 id ++ (put_u16 flags ++ (put_u16 qd ++ (put_u16 an ++ (put_u16 ns ++ put_u16 ar))))

pub length-message_header :
    (id flags qd an ns ar : ℕ) → length (message_header id flags qd an ns ar) ≡ 12
unfolding message_header put_u16
length-message_header id flags qd an ns ar = refl

pub message-le :
    (id flags qd an ns ar : ℕ) (body : Bytes)
    → 12 ≤ length (message_header id flags qd an ns ar ++ body)
message-le id flags qd an ns ar body = omega (
  arith,
  length-append (message_header id flags qd an ns ar) body,
  length-message_header id flags qd an ns ar,
)

-- Each word of the header is read back as the `uint16` of what was written.
module _ (id flags qd an ns ar : ℕ) (body : Bytes) where
  abbrev message : Bytes
  message = message_header id flags qd an ns ar ++ body

  pub read_id : id < 2 ^ 16 → read_u16 message 0 ≡ ok id
  unfolding message_header put_u16 read_u16 read_byte
  read_id h = ground arith

  pub read_flags : flags < 2 ^ 16 → read_u16 message 2 ≡ ok flags
  unfolding message_header put_u16 read_u16 read_byte
  read_flags h = ground arith

  pub read_qd : qd < 2 ^ 16 → read_u16 message 4 ≡ ok qd
  unfolding message_header put_u16 read_u16 read_byte
  read_qd h = ground arith

  pub read_an : an < 2 ^ 16 → read_u16 message 6 ≡ ok an
  unfolding message_header put_u16 read_u16 read_byte
  read_an h = ground arith

  pub read_ns : ns < 2 ^ 16 → read_u16 message 8 ≡ ok ns
  unfolding message_header put_u16 read_u16 read_byte
  read_ns h = ground arith

  pub read_ar : ar < 2 ^ 16 → read_u16 message 10 ≡ ok ar
  unfolding message_header put_u16 read_u16 read_byte
  read_ar h = ground arith
