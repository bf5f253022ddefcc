-- ===== src/Tests/Sample.antt =====
-- Values that the tests share: records, a public suffix list, and an unbounded cache.
use rr_dns.Prelude.{
  ℕ, List, [], ◌∷◌, Option, none, length, Bool-cases, inl, inr, ◌≡◌, ◌≢◌, refl, false,
}
use rr_dns.Prelude.Bytes.{Bytes, bytes_eq, bytes_eq_refl, bytes_eq→eq, codes}
use rr_dns.Prelude.Assoc.{Assoc, lookup, insert, delete, lookup-insert, lookup-delete}
use rr_dns.Names.{PublicSuffix}
use rr_dns.Domain.Record.{ResourceRecord}
use rr_dns.Domain.Question.{Question}
use rr_dns.Caches.Lru.{Lru, LruLaws}

-- Every name is its own registrable domain.
abbrev pub no_suffix : PublicSuffix
no_suffix name = none

abbrev pub address : Bytes → Option ℕ → ResourceRecord
address name at = record {
  name = name;
  rrtype = 1;
  rrclass = 1;
  ttl = 300;
  expires_at = at;
  rdata = 10 ∷ 0 ∷ 0 ∷ 1 ∷ [];
  text = codes "10.0.0.1";
}

abbrev pub alias : Bytes → Bytes → ResourceRecord
alias name target = record {
  name = name;
  rrtype = 5;
  rrclass = 1;
  ttl = 300;
  expires_at = none;
  rdata = [];
  text = target;
}

abbrev pub ask : Bytes → Question
ask name = record { id = 7; name = name; rrtype = 1; rrclass = 1 }

abbrev pub name_keys : Assoc (List ResourceRecord) → List Bytes
name_keys [] = []
name_keys ((k, _) ∷ m) = k ∷ name_keys m

-- A cache whose capacity is never reached.
abbrev pub unbounded : Lru (List ResourceRecord)
unbounded = record {
  State = Assoc (List ResourceRecord);
  empty = λ size. [];
  get = λ s k. (s, lookup k s);
  add = λ s k v. insert k v s;
  remove = λ s k. delete k s;
  len = length;
  keys = name_keys;
  peek = λ s k. lookup k s;
}

ne-bytes_eq : (k j : Bytes) → k ≢ j → bytes_eq k j ≡ false
ne-bytes_eq k j ne = elim (Bool-cases (bytes_eq k j)) [
  | inl e ↦ absurd (ne (bytes_eq→eq k j e))
  | inr e ↦ e
]

pub unbounded-LruLaws : LruLaws (List ResourceRecord) unbounded
unbounded-LruLaws = record {
  get-peek = λ s k. refl;
  peek-get = λ s k j. refl;
  peek-add_self = λ s k v. rw (lookup-insert k k v s, bytes_eq_refl k);
  peek-add_ne = λ s k j v ne. inl (rw (lookup-insert k j v s, ne-bytes_eq k j ne));
  peek-add_present = λ s k j v w ne e. rw (lookup-insert k j v s, ne-bytes_eq k j ne);
  peek-remove_self = λ s k. rw (lookup-delete k k s, bytes_eq_refl k);
  peek-remove_ne = λ s k j ne. rw (lookup-delete k j s, ne-bytes_eq k j ne);
}
