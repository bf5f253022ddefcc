-- ===== src/App/Found.antt =====
-- The records that the zones have for a question, and their way to the client.
use mathlib.Core.Path.{subst}
use rr_dns.Prelude.{
  ℕ, ◌+◌, ◌*◌, ◌<◌, ◌≤◌, List, [], ◌∷◌, length, true, Bool-cases, inl, inr, Option, none, some, ok,
  All, ◌≡◌, ◌⊎◌, refl, sym, ◌∙◌, ap, arith,
}
use rr_dns.Prelude.Bytes.{Bytes, bytes_eq, bytes_eq→eq, Lacks}
use rr_dns.Prelude.Assoc.{Assoc}
use rr_dns.Text.{dot, split}
use rr_dns.Names.{PublicSuffix, canonical_dns_name, get_apex_domain}
use rr_dns.Names.Canonical.{IsSpaceless, canonical_dns_name_self}
use rr_dns.Domain.Codes.{rrtype_is_valid, rrclass_is_valid}
use rr_dns.Domain.CacheKey.Laws.{KeepsLacks, generate_cache_key-eq_iff}
use rr_dns.Domain.Question
use rr_dns.Domain.Question.{Question}
use rr_dns.Domain.Record
use rr_dns.Domain.Record.{second, ResourceRecord}
use rr_dns.Domain.Record.Expiry.{float_seconds-mul}
use rr_dns.Caches.Zone.Laws.{some_if_any, matching}
use rr_dns.Rdata
use rr_dns.Rdata.Encode
use rr_dns.Rdata.Encode.RoundTrip.{Reads, decode-encode}
use rr_dns.Wire.Name.RoundTrip.{IsName}
use rr_dns.Wire.Query.RoundTrip.{Fits}
use rr_dns.Wire.Response.{first_name}
use rr_dns.Wire.Response.Answer.{received, IsSendable}
use rr_dns.Wire.Response.RoundTrip.{seconds_left, received_all}
use rr_dns.ZoneFiles.Records.{IsLoaded}
use rr_dns.ZoneFiles.Directory.{AreLoaded}
use rr_dns.App.Order.{zone_of}
use rr_dns.App.Answers.{zone_answer, records_of}

-- The TTL that `buildApplication` gives the records of zone files, in nanoseconds.
abbrev zone_ttl : ℕ
zone_ttl = 300 * second

zone_of-IsLoaded :
    (apex : Bytes) (zones : Assoc (List ResourceRecord)) (rrs : List ResourceRecord)
    → All (AreLoaded zone_ttl) zones
    → zone_of apex zones ≡ some rrs
    → All (IsLoaded zone_ttl) rrs
zone_of-IsLoaded apex [] rrs h e = absurd (ground arith)
zone_of-IsLoaded apex ((root, w) ∷ zones) rrs (x, xs) e =
    elim (Bool-cases (bytes_eq (canonical_dns_name root) apex)) [
      | inl same ↦ subst (λ r. All (IsLoaded zone_ttl) r) (some-injective (rw same at e)) x.2
      | inr differs ↦ zone_of-IsLoaded apex zones rrs xs (rw differs at e)
    ]
  where
    some-injective : {a b : List ResourceRecord} → some a ≡ some b → a ≡ b
    some-injective e' = cc

module _ (psl : PublicSuffix) where
  -- A record of a zone file whose cache key is that of the question.
  pub record IsFound (q : Question) (rr : ResourceRecord) : Type 0 where
    pub loaded : IsLoaded zone_ttl rr
    pub same_key : Record.cache_key psl rr ≡ Question.cache_key psl q

  matching-IsFound :
      (q : Question) (rrs : List ResourceRecord)
      → All (IsLoaded zone_ttl) rrs
      → All (IsFound q) (matching psl (Question.cache_key psl q) rrs)
  unfolding matching
  matching-IsFound q [] h = tt
  matching-IsFound q (rr ∷ rrs) (x, xs) =
      elim (Bool-cases (bytes_eq (Record.cache_key psl rr) (Question.cache_key psl q))) [
        | inl same ↦
            rw same
              (record { loaded = x; same_key = bytes_eq→eq _ _ same }, matching-IsFound q rrs xs)
        | inr differs ↦ rw differs (matching-IsFound q rrs xs)
      ]

  some_if_any-some :
      (rrs records : List ResourceRecord) → some_if_any rrs ≡ some records → rrs ≡ records
  some_if_any-some [] records e = absurd (ground arith)
  some_if_any-some (rr ∷ rrs) records e = ground arith

  records_of-IsFound :
      (q : Question) (zone : Option (List ResourceRecord)) (records : List ResourceRecord)
      → ((rrs : List ResourceRecord) → zone ≡ some rrs → All (IsLoaded zone_ttl) rrs)
      → records_of psl q zone ≡ some records
      → All (IsFound q) records
  records_of-IsFound q none records h e = absurd (ground arith)
  records_of-IsFound q (some rrs) records h e =
      subst (λ r. All (IsFound q) r)
        (some_if_any-some (matching psl (Question.cache_key psl q) rrs) records e)
        (matching-IsFound q rrs (h rrs refl))

  pub zone_answer-IsFound :
      (zones : Assoc (List ResourceRecord)) (q : Question) (records : List ResourceRecord)
      → All (AreLoaded zone_ttl) zones
      → zone_answer psl zones q ≡ some records
      → All (IsFound q) records
  zone_answer-IsFound zones q records h e =
      let apex = get_apex_domain psl (canonical_dns_name q.name) in
      records_of-IsFound q (zone_of apex zones) records
        (λ rrs found. zone_of-IsLoaded apex zones rrs h found) e

-- A question whose type and class are among those that the server knows, and whose name is written in
-- canonical form, without `|`, with labels of 1 to 63 bytes.
pub record IsPlainQuestion (q : Question) : Type 0 where
  pub canonical : canonical_dns_name q.name ≡ q.name
  pub lacks_pipe : Lacks b'|' q.name
  pub named : IsName q.name
  pub typed : rrtype_is_valid q.rrtype ≡ true
  pub classed : rrclass_is_valid q.rrclass ≡ true

-- A record whose name has no white space and no `|`, whose text is written the way its data are
-- printed, and whose data fit the wire format.
pub record IsPlainRecord (rr : ResourceRecord) : Type 0 where
  pub spaceless : IsSpaceless rr.name
  pub lacks_pipe : Lacks b'|' rr.name
  pub plain : Reads rr.rrtype rr.text rr.text
  pub small : length rr.rdata ≤ 65535

validate-valid :
    (rr : ResourceRecord)
    → Record.validate rr ≡ ok tt
    → (rrtype_is_valid rr.rrtype ≡ true) × (rrclass_is_valid rr.rrclass ≡ true)
unfolding Record.validate
validate-valid rr h = ground arith

-- The data decode to the text that they encode.
encoded-decode :
    (rr : ResourceRecord)
    → Encode.encode rr.rrtype rr.text ≡ ok rr.rdata
    → Reads rr.rrtype rr.text rr.text
    → Rdata.decode rr.rrtype rr.rdata ≡ ok rr.text
encoded-decode rr e h = rw e at (decode-encode h)

-- A record that was found has the name, the type and the class of the question.
IsFound-same :
    (psl : PublicSuffix) (q : Question) (rr : ResourceRecord)
    → KeepsLacks psl
    → IsPlainQuestion q
    → IsFound psl q rr
    → IsPlainRecord rr
    → (rr.name ≡ q.name) × (rr.rrtype ≡ q.rrtype) × (rr.rrclass ≡ q.rrclass)
unfolding Record.cache_key Question.cache_key
IsFound-same psl q rr keeps ask found plain =
    let (typed, classed) = validate-valid rr found.loaded.valid in
    let (names, types, classes) =
      (generate_cache_key-eq_iff psl keeps rr.name q.name rr.rrtype q.rrtype rr.rrclass q.rrclass
          plain.lacks_pipe ask.lacks_pipe typed ask.typed classed ask.classed).0
        found.same_key in
    (
      sym (canonical_dns_name_self rr.name found.loaded.canonical plain.spaceless)
          ∙ names
          ∙ ask.canonical,
      types,
      classes,
    )

IsFound-IsSendable :
    (psl : PublicSuffix) (f : ℕ) (q : Question) (rr : ResourceRecord)
    → KeepsLacks psl
    → Fits q
    → IsPlainQuestion q
    → length (split dot q.name) + 1 < f
    → IsFound psl q rr
    → IsPlainRecord rr
    → (rr.name ≡ q.name) × IsSendable Rdata.decode f rr
IsFound-IsSendable psl f q rr keeps fits ask fuel found plain =
    let (name, rrtype, rrclass) = IsFound-same psl q rr keeps ask found plain in
    (
      name,
      record {
        named = rw name ask.named;
        rrtype_fits = rw rrtype fits.rrtype_fits;
        rrclass_fits = rw rrclass fits.rrclass_fits;
        ttl_fits = rw found.loaded.ttl_given (omega arith);
        rdata_fits = plain.small;
        decoded = encoded-decode rr found.loaded.encoded plain.plain;
        valid =
            rw (canonical_dns_name_self rr.name found.loaded.canonical plain.spaceless)
              found.loaded.valid;
        enough = rw name fuel;
      },
    )

-- What the client keeps of a record: all but its expiry, which is the TTL of 300 seconds from `now`.
abbrev pub kept : ℕ → ResourceRecord → ResourceRecord
kept now rr = record rr { expires_at = some (now + 300 * second) }

abbrev pub kept_all : ℕ → List ResourceRecord → List ResourceRecord
kept_all now [] = []
kept_all now (rr ∷ rrs) = kept now rr ∷ kept_all now rrs

received-kept :
    (rr : ResourceRecord) (at now : ℕ)
    → IsLoaded zone_ttl rr
    → IsPlainRecord rr
    → received rr (seconds_left rr at) now ≡ kept now rr
unfolding received seconds_left
received-kept rr at now h p = ground (
  arith,
  h.permanent,
  h.ttl_given,
  float_seconds-mul 300 (omega arith),
  canonical_dns_name_self rr.name h.canonical p.spaceless,
)

pub received_all-kept :
    (psl : PublicSuffix) (q : Question) (clock : ℕ → ℕ) (i now : ℕ) (rrs : List ResourceRecord)
    → All (IsFound psl q) rrs
    → All IsPlainRecord rrs
    → received_all clock i now rrs ≡ kept_all now rrs
unfolding received_all
received_all-kept psl q clock i now [] h p = refl
received_all-kept psl q clock i now (rr ∷ rrs) h p =
    rw (received-kept rr (clock i) now h.0.loaded p.0)
      (ap (λ t. kept now rr ∷ t) (received_all-kept psl q clock (i + 1) now rrs h.1 p.1))

pub found_response-IsSendable :
    (psl : PublicSuffix) (f : ℕ) (q : Question) (records : List ResourceRecord)
    → KeepsLacks psl
    → Fits q
    → IsPlainQuestion q
    → length (split dot q.name) + 1 < f
    → All (IsFound psl q) records
    → All IsPlainRecord records
    → ((records ≡ []) ⊎ (first_name records ≡ q.name)) × All (IsSendable Rdata.decode f) records
found_response-IsSendable psl f q [] keeps fits ask fuel found plain = (inl refl, tt)
found_response-IsSendable psl f q (rr ∷ rrs) keeps fits ask fuel found plain =
    let (name, sendable) = IsFound-IsSendable psl f q rr keeps fits ask fuel found.0 plain.0 in
    let (_, rest) = found_response-IsSendable psl f q rrs keeps fits ask fuel found.1 plain.1 in
    (inr name, (sendable, rest))
