-- ===== src/Config/Servers.antt =====
-- The addresses that `validIPPort` accepts.
use rr_dns.Prelude.{
  ℕ, ◌<◌, ◌==◌, [], ◌∷◌, ◌++◌, true, some, Option-cases, ◌≡◌, arith, Bool-cases, inl, inr, ◌⊎◌,
}
use rr_dns.Prelude.Bytes.{Bytes}
use rr_dns.Text.Fields.{parse_uint}
use rr_dns.Rdata.Address.Parse.{parse_ip}
use rr_dns.Config.{
  split_last, split_first, split_bracketed, split_plain, split_host_port, valid_ip_port,
}

split_last-append : (sep : ℕ) (s a b : Bytes) → split_last sep s ≡ some (a, b) → s ≡ a ++ sep ∷ b
unfolding split_last
split_last-append sep [] a b h = absurd (ground arith)
split_last-append sep (c ∷ s) a b h = elim (Option-cases (split_last sep s)) [
  | inl e ↦ ground (arith, e)
  | inr ((x, y), e) ↦ ground (arith, e, split_last-append sep s x y e)
]

split_first-append : (sep : ℕ) (s a b : Bytes) → split_first sep s ≡ some (a, b) → s ≡ a ++ sep ∷ b
unfolding split_first
split_first-append sep [] a b h = absurd (ground arith)
split_first-append sep (c ∷ s) a b h = elim (Option-cases (split_first sep s)) [
  | inl e ↦ ground (arith, e)
  | inr ((x, y), e) ↦ ground (arith, e, split_first-append sep s x y e)
]

split_plain-append : (s ip port : Bytes) → split_plain s ≡ some (ip, port) → s ≡ ip ++ b':' ∷ port
unfolding split_plain
split_plain-append s ip port h = elim (Option-cases (split_last b':' s)) [
  | inl e ↦ absurd (ground (arith, e))
  | inr ((x, y), e) ↦ ground (arith, e, split_last-append b':' s x y e)
]

split_bracketed-append :
    (s ip port : Bytes) → split_bracketed s ≡ some (ip, port) → s ≡ ip ++ b']' ∷ b':' ∷ port
unfolding split_bracketed
split_bracketed-append s ip port h = elim (Option-cases (split_first b']' s)) [
  | inl e ↦ absurd (ground (arith, e))
  | inr ((x, []), e) ↦ absurd (ground (arith, e))
  | inr ((x, c ∷ y), e) ↦ ground (arith, e, split_first-append b']' s x (c ∷ y) e)
]

-- A host and a port with a colon between them; the host may stand in brackets.
abbrev IsSplit : Bytes → Bytes → Bytes → Type 0
IsSplit addr ip port = (addr ≡ ip ++ b':' ∷ port) ⊎ (addr ≡ b'[' ∷ (ip ++ b']' ∷ b':' ∷ port))

split_host_port-IsSplit :
    (addr ip port : Bytes) → split_host_port addr ≡ some (ip, port) → IsSplit addr ip port
unfolding split_host_port
split_host_port-IsSplit [] ip port h = absurd (ground arith)
split_host_port-IsSplit (c ∷ s) ip port h = elim (Bool-cases (c == b'[')) [
  | inl e ↦ inr (ground (arith, split_bracketed-append s ip port))
  | inr e ↦ inl (split_plain-append (c ∷ s) ip port (rw e at h))
]

-- An address that passes for a server is a host and a port with a colon between them, the host in
-- brackets or not; the host is a text that `net.ParseIP` takes for an address, and the port is a decimal
-- number from 1 to 65535.
pub valid_ip_port-bounds :
    (addr : Bytes)
    → valid_ip_port addr ≡ true
    → (ip port ip_bytes : Bytes) × (n : ℕ) × IsSplit addr ip port
      × (parse_ip ip ≡ some ip_bytes)
      × (parse_uint 16 port ≡ some n)
      × (0 < n)
      × (n < 65536)
unfolding valid_ip_port
valid_ip_port-bounds addr h = elim (Option-cases (split_host_port addr)) [
  | inl e ↦ absurd (ground (arith, e))
  | inr ((ip, port), e) ↦ elim (Option-cases (parse_ip ip)) [
    | inl e1 ↦ absurd (ground (arith, e, e1))
    | inr (ip_bytes, e1) ↦ elim (Option-cases (parse_uint 16 port)) [
      | inl e2 ↦ absurd (ground (arith, e, e1, e2))
      | inr (n, e2) ↦ (
        ip,
        port,
        ip_bytes,
        n,
        split_host_port-IsSplit addr ip port e,
        e1,
        e2,
        ground (arith, e, e1, e2),
        ground (arith, e, e1, e2),
      )
    ]
  ]
]
