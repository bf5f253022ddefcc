-- ===== src/ZoneFiles/Records.antt =====
-- What a name, a type and its values make.
use mathlib.Core.Path.{subst}
use rr_dns.Prelude.{
  ℕ, ◌%◌, ◌^◌, List, [], ◌∷◌, is_empty, Bool-cases, false, Option, none, some, ok, >>=-eq-ok,
  ok_injective, All, ◌≡◌, refl, inl, inr, arith,
}
use rr_dns.Text.{trim_space}
use rr_dns.Prelude.Bytes.{Bytes}
use rr_dns.Names.{canonical_dns_name}
use rr_dns.Names.Canonical.{IsCanonical, canonical_dns_name-IsCanonical}
use rr_dns.Domain.Codes.{rrtype_from_string, rrclass_in}
use rr_dns.Domain.Record
use rr_dns.Domain.Record.{float_seconds, ResourceRecord, new_authoritative}
use rr_dns.Rdata.Encode
use rr_dns.ZoneFiles.{
  Value, text, texts, other, clean_texts, to_string_values, build_resource_record,
}

-- An authoritative record of class IN that `Validate` accepts, under a canonical name, whose data
-- encode its text.
pub record IsLoaded (ttl : ℕ) (rr : ResourceRecord) : Type 0 where
  pub permanent : rr.expires_at ≡ none
  pub class_in : rr.rrclass ≡ rrclass_in
  pub ttl_given : rr.ttl ≡ float_seconds ttl % 2 ^ 32
  pub encoded : Encode.encode rr.rrtype rr.text ≡ ok rr.rdata
  pub valid : Record.validate rr ≡ ok tt
  pub canonical : IsCanonical rr.name

new_authoritative-fields :
    (name : Bytes) (t c ttl : ℕ) (rdata s : Bytes) {rr : ResourceRecord}
    → new_authoritative name t c ttl rdata s ≡ ok rr
    → (rr.name ≡ canonical_dns_name name)
      × (rr.rrtype ≡ t)
      × (rr.rrclass ≡ c)
      × (rr.ttl ≡ ttl)
      × (rr.expires_at ≡ none)
      × (rr.rdata ≡ rdata)
      × (rr.text ≡ s)
      × (Record.validate rr ≡ ok tt)
unfolding new_authoritative Record.validate
new_authoritative-fields name t c ttl rdata s e = ground arith

abbrev pub texts_of : List ResourceRecord → List Bytes
texts_of [] = []
texts_of (rr ∷ rrs) = rr.text ∷ texts_of rrs

-- What one name and type make of the values: a record for each value, in order.
pub record AreBuilt (fqdn rr_type : Bytes) (values : List Bytes) (ttl : ℕ)
    (rrs : List ResourceRecord) : Type 0 where
  pub in_order : texts_of rrs ≡ values
  pub named : All (λ rr. rr.name ≡ canonical_dns_name fqdn) rrs
  pub typed : All (λ rr. rr.rrtype ≡ rrtype_from_string rr_type) rrs
  pub loaded : All (IsLoaded ttl) rrs

AreBuilt-cons :
    (fqdn rr_type s : Bytes) (values : List Bytes) (ttl : ℕ) (rdata : Bytes) (rr : ResourceRecord)
    (rrs : List ResourceRecord)
    → Encode.encode (rrtype_from_string rr_type) s ≡ ok rdata
    → new_authoritative fqdn
        (rrtype_from_string rr_type)
        rrclass_in
        (float_seconds ttl % 2 ^ 32)
        rdata
        s
      ≡ ok rr
    → AreBuilt fqdn rr_type values ttl rrs
    → AreBuilt fqdn rr_type (s ∷ values) ttl (rr ∷ rrs)
AreBuilt-cons fqdn rr_type s values ttl rdata rr rrs p q b =
    let (name, type, class, ttl_is, permanent, rdata_is, text_is, valid) =
      new_authoritative-fields fqdn (rrtype_from_string rr_type) rrclass_in
        (float_seconds ttl % 2 ^ 32) rdata s q in
    record {
      in_order = rw (text_is, b.in_order);
      named = (name, b.named);
      typed = (type, b.typed);
      loaded = (
        record {
          permanent = permanent;
          class_in = class;
          ttl_given = ttl_is;
          encoded = rw (type, text_is, rdata_is) p;
          valid = valid;
          canonical = rw name (canonical_dns_name-IsCanonical fqdn);
        },
        b.loaded,
      );
    }

-- If the values, of which none is empty, make records at all, then each makes one, in their order,
-- with the value as its text, the type that was named, and under the canonical name.
pub build_resource_record-AreBuilt :
    (fqdn rr_type : Bytes) (values : List Bytes) (ttl : ℕ) {rrs : List ResourceRecord}
    → All (λ s. is_empty s ≡ false) values
    → build_resource_record fqdn rr_type values ttl ≡ ok rrs
    → AreBuilt fqdn rr_type values ttl rrs
unfolding build_resource_record
build_resource_record-AreBuilt fqdn rr_type [] ttl h e =
    subst (λ rrs. AreBuilt fqdn rr_type [] ttl rrs) (ok_injective e)
      (record { in_order = refl; named = tt; typed = tt; loaded = tt })
build_resource_record-AreBuilt fqdn rr_type (s ∷ values) ttl (h, hs) e =
    let (rdata, p, e1) = >>=-eq-ok (Encode.encode t s) _ (rw h at e) in
    let (rr, q, e2) = >>=-eq-ok (new_authoritative fqdn t rrclass_in ttl' rdata s) _ e1 in
    let (rrs, r, e3) = >>=-eq-ok (build_resource_record fqdn rr_type values ttl) _ e2 in
    subst (λ all. AreBuilt fqdn rr_type (s ∷ values) ttl all) (ok_injective e3)
      (AreBuilt-cons fqdn rr_type s values ttl rdata rr rrs p q
        (build_resource_record-AreBuilt fqdn rr_type values ttl hs r))
  where
    t : ℕ
    t = rrtype_from_string rr_type

    ttl' : ℕ
    ttl' = float_seconds ttl % 2 ^ 32

clean_texts-nonempty :
    (elems : List (Option Bytes)) → All (λ s. is_empty s ≡ false) (clean_texts elems)
unfolding clean_texts
clean_texts-nonempty [] = tt
clean_texts-nonempty (none ∷ elems) = clean_texts-nonempty elems
clean_texts-nonempty (some s ∷ elems) = elim (Bool-cases (is_empty (trim_space s))) [
  | inl blank ↦ rw blank (clean_texts-nonempty elems)
  | inr shown ↦ rw shown (shown, clean_texts-nonempty elems)
]

pub to_string_values-nonempty : (v : Value) → All (λ s. is_empty s ≡ false) (to_string_values v)
unfolding to_string_values
to_string_values-nonempty (text s) = clean_texts-nonempty (some s ∷ [])
to_string_values-nonempty (texts elems) = clean_texts-nonempty elems
to_string_values-nonempty other = tt
