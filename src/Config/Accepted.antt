-- ===== src/Config/Accepted.antt =====
-- Every socket address passes for a server when it is written the way Go prints it.
use rr_dns.Prelude.{
  ℕ, ◌<◌, ◌≤◌, ◌==◌, false, true, [], ◌∷◌, ◌++◌, All, All-append, none, some, ◌≡◌, ◌≢◌, inl, inr,
  refl, arith,
}
use rr_dns.Prelude.Bytes.{Bytes, Lacks}
use rr_dns.Text.{dot, join}
use rr_dns.Text.Decimal.{decimal, decimal-All}
use rr_dns.Text.Fields.{parse_uint}
use rr_dns.Text.Numbers.{decimal-ne-nil, parse_uint-decimal}
use rr_dns.Rdata.Address.{decimals, v6_string}
use rr_dns.Rdata.Address.Parse.{v4_in_v6, is_v4_text, parse_v6, parse_ip, v6_groups, hex_run}
use rr_dns.Rdata.Encode.Addresses.{parse_ip-v4}
use rr_dns.Rdata.Encode.Aaaa.{IsV6, IsAddressByte, v6_string-IsAddressByte, parse_ip-v6_string}
use rr_dns.Config.{
  is_ip, is_port, contains, has_bracket, split_last, split_first, split_bracketed, split_plain,
  split_host_port, valid_ip_port,
}

Lacks-contains : (sep : ℕ) (s : Bytes) → Lacks sep s → contains sep s ≡ false
unfolding contains
Lacks-contains sep [] h = refl
Lacks-contains sep (c ∷ s) h = ground (arith, Lacks-contains sep s h.1, h.0)

split_last-none : (sep : ℕ) (s : Bytes) → Lacks sep s → split_last sep s ≡ none
unfolding split_last
split_last-none sep [] h = refl
split_last-none sep (c ∷ s) h = rw (split_last-none sep s h.1) (ground (arith, h.0))

split_last-found :
    (sep : ℕ) (a b : Bytes) → Lacks sep b → split_last sep (a ++ sep ∷ b) ≡ some (a, b)
unfolding split_last
split_last-found sep [] b h = rw (split_last-none sep b h) (ground arith)
split_last-found sep (c ∷ a) b h = rw (split_last-found sep a b h) refl

split_first-found :
    (sep : ℕ) (a b : Bytes) → Lacks sep a → split_first sep (a ++ sep ∷ b) ≡ some (a, b)
unfolding split_first
split_first-found sep [] b h = ground arith
split_first-found sep (c ∷ a) b h = rw (split_first-found sep a b h.1) (ground (arith, h.0))

-- No colon and no bracket.
abbrev IsPlainByte : ℕ → Type 0
IsPlainByte c = (c ≢ b':') × (c ≢ b'[') × (c ≢ b']')

plain-Lacks : (s : Bytes) → All IsPlainByte s → Lacks b':' s × Lacks b'[' s × Lacks b']' s
plain-Lacks [] h = (tt, tt, tt)
plain-Lacks (c ∷ s) (h, hs) = let (x, y, z) = plain-Lacks s hs in ((h.0, x), (h.1, y), (h.2, z))

has_bracket-false : (s : Bytes) → Lacks b'[' s → Lacks b']' s → has_bracket s ≡ false
unfolding has_bracket
has_bracket-false s h k = rw (Lacks-contains b'[' s h, Lacks-contains b']' s k)

split_plain-host :
    (host port : Bytes)
    → All IsPlainByte host
    → All IsPlainByte port
    → split_plain (host ++ b':' ∷ port) ≡ some (host, port)
unfolding split_plain
split_plain-host host port h p =
    let (hc, ho, hb) = plain-Lacks host h in
    let (pc, po, pb) = plain-Lacks port p in
    rw (split_plain, split_last-found b':' host port pc)
      (rw (Lacks-contains b':' host hc, has_bracket-false host ho hb, has_bracket-false port po pb)
        refl)

split_host_port-plain :
    (host port : Bytes)
    → All IsPlainByte host
    → All IsPlainByte port
    → host ≢ []
    → split_host_port (host ++ b':' ∷ port) ≡ some (host, port)
unfolding split_host_port
split_host_port-plain [] port h p ne = absurd (ne refl)
split_host_port-plain (c ∷ host) port h p ne =
    let no_bracket : (c == b'[') ≡ false = ground (arith, h.0.1) in
    rw no_bracket (split_plain-host (c ∷ host) port h p)

split_host_port-bracketed :
    (host port : Bytes)
    → Lacks b'[' host
    → Lacks b']' host
    → All IsPlainByte port
    → split_host_port (b'[' ∷ (host ++ b']' ∷ b':' ∷ port)) ≡ some (host, port)
unfolding split_host_port split_bracketed
split_host_port-bracketed host port ho hb p =
    let (pc, po, pb) = plain-Lacks port p in
    rw (split_bracketed, split_first-found b']' host (b':' ∷ port) hb)
      (rw (Lacks-contains b':' port pc, Lacks-contains b'[' host ho, has_bracket-false port po pb)
        refl)

valid-split :
    (addr ip port ip_bytes : Bytes) (n : ℕ)
    → split_host_port addr ≡ some (ip, port)
    → ip ≢ []
    → port ≢ []
    → parse_ip ip ≡ some ip_bytes
    → parse_uint 16 port ≡ some n
    → 0 < n
    → n < 65536
    → valid_ip_port addr ≡ true
unfolding valid_ip_port
valid-split addr [] port ip_bytes n s h k i p pos small = absurd (h refl)
valid-split addr (c ∷ ip) [] ip_bytes n s h k i p pos small = absurd (k refl)
valid-split addr (c ∷ ip) (d ∷ port) ip_bytes n s h k i p pos small =
    let good_ip : is_ip (c ∷ ip) ≡ true = rw (is_ip, i) refl in
    let good_port : is_port (d ∷ port) ≡ true = rw (is_port, p) (ground arith) in
    rw (valid_ip_port, s) (rw (good_ip, good_port) refl)

digits-plain : (s : Bytes) → All (λ c. (b'0' ≤ c) × (c ≤ b'9')) s → All IsPlainByte s
digits-plain [] h = tt
digits-plain (c ∷ s) h = (
  (
    λ e. absurd (omega (arith, h.0)),
    λ e. absurd (omega (arith, h.0)),
    λ e. absurd (omega (arith, h.0)),
  ),
  digits-plain s h.1,
)

decimal-plain : (n : ℕ) → All IsPlainByte (decimal n)
decimal-plain n = digits-plain (decimal n) (decimal-All n)

decimals-plain : (b : Bytes) → All IsPlainByte (join (dot ∷ []) (decimals b))
unfolding join
decimals-plain [] = tt
decimals-plain (a ∷ []) = decimal-plain a
decimals-plain (a ∷ b ∷ rest) =
    All-append IsPlainByte (decimal a) (dot ∷ join (dot ∷ []) (decimals (b ∷ rest)))
      (decimal-plain a)
      (
        (λ e. absurd (omega arith), λ e. absurd (omega arith), λ e. absurd (omega arith)),
        decimals-plain (b ∷ rest),
      )

address-Lacks : (s : Bytes) → All IsAddressByte s → Lacks b'[' s × Lacks b']' s
address-Lacks [] h = (tt, tt)
address-Lacks (c ∷ s) (inl x, h) =
    let (a, b) = address-Lacks s h in
    ((λ e. absurd (ground arith), a), (λ e. absurd (ground arith), b))
address-Lacks (c ∷ s) (inr x, h) =
    let (a, b) = address-Lacks s h in
    ((λ e. absurd (ground arith), a), (λ e. absurd (ground arith), b))

parse_ip-nil : parse_ip [] ≡ none
unfolding parse_ip is_v4_text parse_v6 v6_groups hex_run
parse_ip-nil = refl

parsed-ne-nil : (s ip_bytes : Bytes) → parse_ip s ≡ some ip_bytes → s ≢ []
parsed-ne-nil s ip_bytes h e = absurd (cc (h, e, parse_ip-nil))

-- A socket address as Go prints it: four decimal numbers, or an address of version 6 in brackets, and
-- behind a colon a port that is not 0.
pub data Printed : Bytes → Type 0 where
  plain :
      (a b c d port : ℕ)
      → All (λ n. n < 256) (a ∷ b ∷ c ∷ d ∷ [])
      → 0 < port
      → port < 65536
      → Printed (join (dot ∷ []) (decimals (a ∷ b ∷ c ∷ d ∷ [])) ++ b':' ∷ decimal port)
  bracketed :
      (b : Bytes) (port : ℕ)
      → IsV6 b
      → 0 < port
      → port < 65536
      → Printed (b'[' ∷ (v6_string b ++ b']' ∷ b':' ∷ decimal port))

-- Every socket address that is written as Go prints it, an IPv6 address in brackets and a port other
-- than 0, passes for a server.
pub Printed-valid_ip_port : {s : Bytes} → Printed s → valid_ip_port s ≡ true
Printed-valid_ip_port (plain a b c d port h pos small) =
    let host = join (dot ∷ []) (decimals (a ∷ b ∷ c ∷ d ∷ [])) in
    let parsed = parse_ip-v4 a b c d h in
    let some_host = parsed-ne-nil host (v4_in_v6 (a ∷ b ∷ c ∷ d ∷ [])) parsed in
    valid-split _ host (decimal port) (v4_in_v6 (a ∷ b ∷ c ∷ d ∷ [])) port
      (split_host_port-plain host (decimal port) (decimals-plain (a ∷ b ∷ c ∷ d ∷ []))
        (decimal-plain port) some_host)
      some_host (decimal-ne-nil port) parsed
      (parse_uint-decimal 16 port (omega arith) (omega arith)) pos small
Printed-valid_ip_port (bracketed b port v pos small) =
    let host = v6_string b in
    let parsed = parse_ip-v6_string b v.0 v.1 in
    let (ho, hb) = address-Lacks host (v6_string-IsAddressByte b v.0 v.1) in
    valid-split _ host (decimal port) b port
      (split_host_port-bracketed host (decimal port) ho hb (decimal-plain port))
      (parsed-ne-nil host b parsed) (decimal-ne-nil port) parsed
      (parse_uint-decimal 16 port (omega arith) (omega arith)) pos small
