-- ===== src/Caches/Dns/Unexpired.antt =====
-- Which records of a list have not expired, told apart from the loop of `Get` that finds them.
use rr_dns.Prelude.{
  ℕ, ◌<◌, List, [], ◌∷◌, Option, none, some, true, false, Bool-cases, Option-cases, inl, inr, ◌≡◌,
  refl, ap, arith,
}
use rr_dns.Domain.Record
use rr_dns.Domain.Record.{ResourceRecord}
use rr_dns.Caches.Zone.Laws.{some_if_any}
use rr_dns.Caches.Dns.{valid_records}

-- The record has an expiry, and it lies before `now`.
abbrev pub IsPast : ℕ → ResourceRecord → Type 0
IsPast now rr = (at : ℕ) × (rr.expires_at ≡ some at) × (at < now)

-- The second list is the first without the records that have expired.
pub data Unexpired (now : ℕ) : List ResourceRecord → List ResourceRecord → Type 0 where
  all_seen : Unexpired now [] []
  past :
      (rr : ResourceRecord) (rrs kept : List ResourceRecord)
      → IsPast now rr
      → Unexpired now rrs kept
      → Unexpired now (rr ∷ rrs) kept
  lasting :
      (rr : ResourceRecord) (rrs kept : List ResourceRecord)
      → ¬ IsPast now rr
      → Unexpired now rrs kept
      → Unexpired now (rr ∷ rrs) (rr ∷ kept)

is_expired-IsPast :
    (now : ℕ) (rr : ResourceRecord) → Record.is_expired rr now ≡ true → IsPast now rr
unfolding Record.is_expired
is_expired-IsPast now rr e = elim (Option-cases rr.expires_at) [
  | inl forever ↦ absurd (ground arith)
  | inr (at, h) ↦ (at, h, ground arith)
]

IsPast-is_expired :
    (now : ℕ) (rr : ResourceRecord) → IsPast now rr → Record.is_expired rr now ≡ true
unfolding Record.is_expired
IsPast-is_expired now rr (at, e, lt) = rw e (ground arith)

lasting-is_expired :
    (now : ℕ) (rr : ResourceRecord) → ¬ IsPast now rr → Record.is_expired rr now ≡ false
lasting-is_expired now rr h = elim (Bool-cases (Record.is_expired rr now)) [
  | inl e ↦ absurd (h (is_expired-IsPast now rr e))
  | inr e ↦ e
]

pub valid_records-Unexpired :
    (now : ℕ) (rrs : List ResourceRecord) → Unexpired now rrs (valid_records now rrs)
unfolding valid_records
valid_records-Unexpired now [] = all_seen
valid_records-Unexpired now (rr ∷ rrs) = elim (Bool-cases (Record.is_expired rr now)) [
  | inl e ↦ rw e (past rr rrs _ (is_expired-IsPast now rr e) (valid_records-Unexpired now rrs))
  | inr e ↦ rw e (
      lasting rr rrs _ (λ p. absurd (ground (arith, IsPast-is_expired now rr p)))
        (valid_records-Unexpired now rrs))
]

pub Unexpired-valid_records :
    (now : ℕ) {rrs kept : List ResourceRecord}
    → Unexpired now rrs kept
    → valid_records now rrs ≡ kept
unfolding valid_records
Unexpired-valid_records now all_seen = refl
Unexpired-valid_records now (past rr rrs kept p h) =
    rw (IsPast-is_expired now rr p) (Unexpired-valid_records now h)
Unexpired-valid_records now (lasting rr rrs kept p h) =
    rw (lasting-is_expired now rr p) (ap (λ t. rr ∷ t) (Unexpired-valid_records now h))

-- What can be read under a key that holds the first: the records that have not expired, or nothing if
-- there is none.
pub data Readable (now : ℕ)
    : Option (List ResourceRecord) → Option (List ResourceRecord) → Type 0 where
  absent : Readable now none none
  gone : (rrs : List ResourceRecord) → Unexpired now rrs [] → Readable now (some rrs) none
  present :
      (rrs : List ResourceRecord) (rr : ResourceRecord) (kept : List ResourceRecord)
      → Unexpired now rrs (rr ∷ kept)
      → Readable now (some rrs) (some (rr ∷ kept))

pub some_if_any-Readable :
    (now : ℕ) (rrs kept : List ResourceRecord)
    → Unexpired now rrs kept
    → Readable now (some rrs) (some_if_any kept)
some_if_any-Readable now rrs [] h = gone rrs h
some_if_any-Readable now rrs (rr ∷ kept) h = present rrs rr kept h
