-- ===== src/Domain/Record/Expiry.antt =====
-- The life of a cached record: its TTL counts down to 0, and it expires just after that.
use rr_dns.Prelude.{
  zero, suc, ◌≤◌, Bool-cases, inl, inr, ltb, leb, if◌then◌else◌, ◌∙◌, ◌%◌, ℕ, ◌+◌, ◌-◌, ◌*◌, ◌/◌,
  ◌^◌, ◌<◌, ◌≡◌, ◌↔◌, refl, arith, true, false, some, ok,
}
use rr_dns.Prelude.Bytes.{Bytes}
use rr_dns.Names.{canonical_dns_name}
use rr_dns.Domain.Record.{
  ResourceRecord, second, binade, float_seconds, new_authoritative, new_cached, ttl_remaining,
  effective_ttl, is_expired, is_authoritative,
}

new_cached-fields :
    (name : Bytes) (t c ttl : ℕ) (rdata text : Bytes) (now : ℕ) {rr : ResourceRecord}
    → new_cached name t c ttl rdata text now ≡ ok rr
    → (rr.name ≡ canonical_dns_name name)
      × (rr.ttl ≡ ttl)
      × (rr.expires_at ≡ some (now + ttl * second))
      × (rr.rdata ≡ rdata)
      × (rr.text ≡ text)
unfolding new_cached
new_cached-fields name t c ttl rdata text now e = ground arith

module _ (rr : ResourceRecord) (at : ℕ) (cached : rr.expires_at ≡ some at) where
  effective_ttl-cached :
      (now : ℕ)
      → effective_ttl rr now ≡ (if leb at now then 0 else float_seconds (at - now) % 2 ^ 32)
  unfolding effective_ttl
  effective_ttl-cached now = rw (cached, effective_ttl)

  is_expired-cached : (now : ℕ) → is_expired rr now ≡ ltb at now
  unfolding is_expired
  is_expired-cached now = rw (cached, is_expired)

binade-le : (f p n : ℕ) → p ≤ n + 1 → binade f p n ≤ n + 1
unfolding binade
binade-le zero p n h = h
binade-le (suc f) p n h = ground (arith, binade-le f (p * 2) n)

-- A whole number of seconds is kept.
pub float_seconds-mul : (n : ℕ) → n < 2 ^ 32 → float_seconds (n * second) ≡ n
unfolding float_seconds
float_seconds-mul n h =
    let whole : n * second / second ≡ n = omega arith in
    let exact : n * second % second ≡ 0 = omega arith in
    rw (whole, exact) (ground (arith, binade-le 64 1 n (omega arith)))

countdown :
    (at now ttl passed : ℕ)
    → ttl < 2 ^ 32
    → at ≡ now + ttl * second
    → (if leb at (now + passed * second)
        then 0
        else float_seconds (at - (now + passed * second)) % 2 ^ 32)
      ≡ ttl - passed
countdown at now ttl passed h e = elim (Bool-cases (leb at (now + passed * second))) [
  | inl over ↦ ground arith
  | inr open_still ↦
      let left : at - (now + passed * second) ≡ (ttl - passed) * second = ground arith in
      rw (open_still, left, float_seconds-mul (ttl - passed) (omega arith)) (ground arith)
]

-- A record that the constructor accepts is kept under its canonical name; its TTL is the one that
-- was given as long as the clock stands still, loses a second for each whole second that passes,
-- and is 0 from the expiry on; it counts as expired exactly after `now + ttl` seconds.
pub new_cached-countdown :
    (name : Bytes) (t c ttl : ℕ) (rdata text : Bytes) (now passed : ℕ) {rr : ResourceRecord}
    → ttl < 2 ^ 32
    → new_cached name t c ttl rdata text now ≡ ok rr
    → (rr.name ≡ canonical_dns_name name)
      × (effective_ttl rr now ≡ ttl)
      × (effective_ttl rr (now + passed * second) ≡ ttl - passed)
      × ((is_expired rr (now + passed) ≡ true) ↔ (ttl * second < passed))
      × (is_authoritative rr ≡ false)
unfolding is_authoritative
new_cached-countdown name t c ttl rdata text now passed {rr} h e =
    let (named, _, cached, _, _) = new_cached-fields name t c ttl rdata text now e in
    let at = now + ttl * second in
    (
      named,
      effective_ttl-cached rr at cached now ∙ ground (arith, countdown at now ttl 0),
      effective_ttl-cached rr at cached (now + passed * second)
          ∙ countdown at now ttl passed h refl,
      rw (is_expired-cached rr at cached (now + passed)) (ground arith),
      rw (cached, is_authoritative),
    )

-- An authoritative record never expires, and its TTL does not change.
pub new_authoritative-constant :
    (name : Bytes) (t c ttl : ℕ) (rdata text : Bytes) (now : ℕ) {rr : ResourceRecord}
    → new_authoritative name t c ttl rdata text ≡ ok rr
    → (rr.name ≡ canonical_dns_name name)
      × (effective_ttl rr now ≡ ttl)
      × (ttl_remaining rr now ≡ ttl * second)
      × (is_expired rr now ≡ false)
      × (is_authoritative rr ≡ true)
unfolding new_authoritative effective_ttl is_expired is_authoritative ttl_remaining
new_authoritative-constant name t c ttl rdata text now e = ground arith
