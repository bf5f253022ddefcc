-- ===== src/Caches/Dns/Laws.antt =====
-- What the cache of upstream answers returns and keeps.
use rr_dns.Prelude.{
  ℕ, List, [], ◌∷◌, Option, none, some, true, false, Bool-cases, Option-cases, inl, inr,
  if◌then◌else◌, multiple_keys, ◌≡◌, ◌≢◌, refl, sym, ap, ◌∙◌, arith,
}
use rr_dns.Prelude.Bytes.{Bytes, bytes_eq, bytes_eq_refl, bytes_eq→eq, bytes_eq_iff}
use rr_dns.Names.{PublicSuffix}
use rr_dns.Domain.Record
use rr_dns.Domain.Record.{ResourceRecord}
use rr_dns.Caches.Lru.{Lru, LruLaws}
use rr_dns.Caches.Zone.Laws.{some_if_any}
use rr_dns.Caches.Dns.Unexpired.{Readable, absent, some_if_any-Readable, valid_records-Unexpired}
use rr_dns.Caches.Dns.{valid_records, same_keys, set, keep_valid, get}

-- The records under the key that have not expired, if there is one.
abbrev pub fresh : ℕ → Option (List ResourceRecord) → Option (List ResourceRecord)
fresh now none = none
fresh now (some records) = some_if_any (valid_records now records)

fresh-Readable :
    (now : ℕ) (held : Option (List ResourceRecord)) → Readable now held (fresh now held)
fresh-Readable now none = absent
fresh-Readable now (some records) =
    some_if_any-Readable now records (valid_records now records)
      (valid_records-Unexpired now records)

module _ (lru : Lru (List ResourceRecord)) (laws : LruLaws (List ResourceRecord) lru) where
  open lru use {State, peek}

  get_miss :
      (s : State) (key : Bytes) (now : ℕ)
      → peek s key ≡ none
      → get lru s key now ≡ ((lru.get s key).0, none)
  unfolding get
  get_miss s key now e = rw (laws.get-peek s key ∙ e, get)

  get_hit :
      (s : State) (key : Bytes) (now : ℕ) (records : List ResourceRecord)
      → peek s key ≡ some records
      → get lru s key now ≡ keep_valid lru (lru.get s key).0 key (valid_records now records)
  unfolding get
  get_hit s key now records e = rw (laws.get-peek s key ∙ e, get)

  -- The three facts about a `Get` of `key` with the outcome `r`.
  abbrev pub Reads :
      State → Bytes → Option (List ResourceRecord) → State × Option (List ResourceRecord) → Type 0
  Reads s key kept r =
      (r.1 ≡ kept) × (peek r.0 key ≡ kept) × ((j : Bytes) → key ≢ j → peek r.0 j ≡ peek s j)

  keep_valid-Reads :
      (s s' : State) (key : Bytes) (old valid : List ResourceRecord)
      → ((j : Bytes) → peek s' j ≡ peek s j)
      → peek s key ≡ some old
      → Reads s key (some_if_any valid) (keep_valid lru s' key valid)
  unfolding keep_valid
  keep_valid-Reads s s' key old [] same e =
      (refl, laws.peek-remove_self s' key, λ j ne. laws.peek-remove_ne s' key j ne ∙ same j)
  keep_valid-Reads s s' key old (rr ∷ rrs) same e = (
    refl,
    laws.peek-add_self s' key (rr ∷ rrs),
    λ j ne. laws.peek-add_present s' key j (rr ∷ rrs) old ne (same key ∙ e) ∙ same j,
  )

  pub get-Reads :
      (s : State) (key : Bytes) (now : ℕ) → Reads s key (fresh now (peek s key)) (get lru s key now)
  get-Reads s key now = elim (Option-cases (peek s key)) [
    | inl e ↦
        rw (get_miss s key now e, e)
          (refl, laws.peek-get s key key ∙ e, λ j ne. laws.peek-get s key j)
    | inr (records, e) ↦
        rw (get_hit s key now records e, e)
          (keep_valid-Reads s (lru.get s key).0 key records (valid_records now records)
            (laws.peek-get s key) e)
  ]

  -- A `Get` of `key` returns the records under it that have not expired at `now` (no expiry, or none
  -- before `now`), in their order, or nothing if there is none. Afterwards exactly those are under
  -- `key`, and under any other key `j` is what was there.
  pub get-fresh :
      (s : State) (key j : Bytes) (now : ℕ)
      → Readable now (peek s key) (get lru s key now).1
        × (peek (get lru s key now).0 j
            ≡ (if bytes_eq key j then (get lru s key now).1 else peek s j))
  get-fresh s key j now =
      let (returned, kept, others) = get-Reads s key now in
      (
        rw returned (fresh-Readable now (peek s key)),
        elim (Bool-cases (bytes_eq key j)) [
          | inl e ↦ rw (← bytes_eq→eq key j e, bytes_eq_refl key) (kept ∙ sym returned)
          | inr e ↦ rw e (others j (λ (p : key ≡ j). ground (arith, bytes_eq_iff key j)))
        ],
      )

  module _ (psl : PublicSuffix) where
    pub set-cases :
        (s : State) (rr : ResourceRecord) (rrs : List ResourceRecord)
        → (set psl lru s [] ≡ (s, none))
          × (same_keys psl (Record.cache_key psl rr) rrs ≡ true
              → ((set psl lru s (rr ∷ rrs)).1 ≡ none)
                × (peek (set psl lru s (rr ∷ rrs)).0 (Record.cache_key psl rr) ≡ some (rr ∷ rrs)))
          × (same_keys psl (Record.cache_key psl rr) rrs ≡ false
              → set psl lru s (rr ∷ rrs) ≡ (s, some multiple_keys))
    unfolding set
    set-cases s rr rrs = (
      refl,
      λ h.
          let stored : set psl lru s (rr ∷ rrs)
              ≡ (lru.add s (Record.cache_key psl rr) (rr ∷ rrs), none) =
            rw (bytes_eq_refl (Record.cache_key psl rr), h) in
          (rw stored, rw stored (laws.peek-add_self s (Record.cache_key psl rr) (rr ∷ rrs))),
      λ h. rw (bytes_eq_refl (Record.cache_key psl rr), h),
    )

    pub get-set_fresh :
        (s : State) (rr : ResourceRecord) (rrs : List ResourceRecord) (now : ℕ)
        → same_keys psl (Record.cache_key psl rr) rrs ≡ true
        → (get lru (set psl lru s (rr ∷ rrs)).0 (Record.cache_key psl rr) now).1
          ≡ fresh now (some (rr ∷ rrs))
    get-set_fresh s rr rrs now h =
        (get-Reads (set psl lru s (rr ∷ rrs)).0 (Record.cache_key psl rr) now).0
        ∙ ap (fresh now) ((set-cases s rr rrs).1 h).1

    -- Records that share a key and are stored at one moment are, at any moment, read back under their
    -- key in their order, less those whose expiry lies before that moment; nothing is read once all
    -- have expired.
    pub get-set :
        (s : State) (rr : ResourceRecord) (rrs : List ResourceRecord) (now : ℕ)
        → same_keys psl (Record.cache_key psl rr) rrs ≡ true
        → Readable now
            (some (rr ∷ rrs))
            (get lru (set psl lru s (rr ∷ rrs)).0 (Record.cache_key psl rr) now).1
    get-set s rr rrs now h =
        rw (get-set_fresh s rr rrs now h) (fresh-Readable now (some (rr ∷ rrs)))
