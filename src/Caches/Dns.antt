-- ===== src/Caches/Dns.antt =====
-- dnscache/dnscache.go, over the interface of the LRU library.
pub mod Laws
pub mod Unexpired
use rr_dns.Prelude.{
  ℕ, List, [], ◌∷◌, Option, none, some, Bool, true, false, not, ◌&&◌, if◌then◌else◌, Error,
  multiple_keys,
}
use rr_dns.Prelude.Bytes.{Bytes, bytes_eq}
use rr_dns.Names.{PublicSuffix}
use rr_dns.Domain.Record
use rr_dns.Domain.Record.{ResourceRecord}
use rr_dns.Caches.Lru.{Lru}

-- The records that have not expired at `now`.
unfoldable pub valid_records : ℕ → List ResourceRecord → List ResourceRecord
valid_records now [] = []
valid_records now (rr ∷ rrs) =
    if Record.is_expired rr now then valid_records now rrs else rr ∷ valid_records now rrs

-- The loop of `Set` that compares every record's key with the first.
unfoldable pub same_keys : PublicSuffix → Bytes → List ResourceRecord → Bool
same_keys psl key [] = true
same_keys psl key (rr ∷ rrs) = bytes_eq (Record.cache_key psl rr) key && same_keys psl key rrs

module _ (psl : PublicSuffix) (lru : Lru (List ResourceRecord)) where
  open lru use {State}

  -- `nil`, or the error, beside the new state.
  unfoldable pub set : State → List ResourceRecord → State × Option Error
  unfolding same_keys
  set s [] = (s, none)
  set s (rr ∷ rrs) =
      let key = Record.cache_key psl rr in
      if same_keys psl key (rr ∷ rrs)
      then (lru.add s key (rr ∷ rrs), none)
      else (s, some multiple_keys)

-- What `Get` does with the records that have not expired.
unfoldable pub keep_valid :
    (lru : Lru (List ResourceRecord))
    → lru.State
    → Bytes
    → List ResourceRecord
    → lru.State × Option (List ResourceRecord)
keep_valid lru s key [] = (lru.remove s key, none)
keep_valid lru s key (rr ∷ rrs) = (lru.add s key (rr ∷ rrs), some (rr ∷ rrs))

module _ (lru : Lru (List ResourceRecord)) where
  open lru use {State}

  unfoldable pub get : State → Bytes → ℕ → State × Option (List ResourceRecord)
  unfolding keep_valid valid_records
  get s key now =
      let (s', found) = lru.get s key in
      elim found [
        | none ↦ (s', none)
        | some records ↦ keep_valid lru s' key (valid_records now records)
      ]

  unfoldable pub delete : State → Bytes → State
  delete s key = lru.remove s key

  unfoldable pub len : State → ℕ
  len s = lru.len s

  unfoldable pub keys : State → List Bytes
  keys s = lru.keys s
