-- ===== src/Rdata/RoundTrip.antt =====
-- A domain name that `encodeDomainName` of rrdata wrote is read back by `Decode`.
use rr_dns.Prelude.{
  ℕ, zero, suc, ◌+◌, ◌<◌, List, [], ◌∷◌, ◌++◌, length, length-append, append_assoc, append-nil, ok,
  ◌>>=◌, ◌≡◌, true, false, refl, sym, arith, All, ◌==◌,
}
use rr_dns.Prelude.Bytes.{Bytes}
use rr_dns.Text.{dot, split}
use rr_dns.Text.Split.{join-split}
use rr_dns.Names.{canonical_dns_name}
use rr_dns.Domain.Codes.{RrType}
use rr_dns.Wire.Octets.{slice}
use rr_dns.Wire.Octets.Laws.{read_byte-append, slice-at}
use rr_dns.Wire.Name.RoundTrip.{IsLabel, IsName, label_bytes, name_bytes}
use rr_dns.Wire.Query.RoundTrip.{encode_query_labels-label_bytes}
use rr_dns.Wire.Response.Skip.{length-label_bytes}
use rr_dns.Rdata.{encode_domain_name, segments, decode_domain_name, is_name_type, decode}

-- Bytes at which the reading of segments stops.
abbrev pub Stops : RrType → Bytes → Type 0
Stops t r = (f : ℕ) (p : Bytes) (i : ℕ) → i ≡ length p → segments (suc f) t (p ++ r) i ≡ ok []

pub segments-label_bytes :
    (ss : List Bytes) (f : ℕ) (t : RrType) (p r : Bytes) (i : ℕ)
    → Stops t r
    → i ≡ length p
    → All (λ s. 0 < length s) ss
    → length ss < f
    → segments f t (p ++ (label_bytes ss ++ r)) i ≡ ok ss
unfolding segments label_bytes
segments-label_bytes ss zero t p r i stops e h k = absurd (omega arith)
segments-label_bytes [] (suc f) t p r i stops e h k = stops f p i e
segments-label_bytes (s ∷ ss) (suc f) t p r i stops e (hs, h) k =
    rw (append_assoc s (label_bytes ss) r) (
      rw (read_byte-append p (length s) (s ++ tail) i e, cut)
        (rw
          (
            shift,
            segments-label_bytes ss f t (p ++ (length s ∷ s)) r (i + 1 + length s) stops
                (omega (arith, length-append p (length s ∷ s))) h (omega arith),
          )
          (ground
            (arith, length-append (p ++ (length s ∷ s)) tail, length-append p (length s ∷ s)))))
  where
    tail : Bytes
    tail = label_bytes ss ++ r

    shift : p ++ (length s ∷ (s ++ tail)) ≡ (p ++ (length s ∷ s)) ++ tail
    shift = sym (append_assoc p (length s ∷ s) tail)

    cut : slice (p ++ (length s ∷ (s ++ tail))) (i + 1) (i + 1 + length s) ≡ ok s
    cut =
        slice-at (p ++ (length s ∷ (s ++ tail))) (p ++ length s ∷ []) s tail (i + 1)
          (i + 1 + length s) (sym (append_assoc p (length s ∷ []) (s ++ tail)))
          (omega (arith, length-append p (length s ∷ [])))
          (omega (arith, length-append p (length s ∷ [])))

zero-Stops : (t : RrType) (r : Bytes) → Stops t (0 ∷ r)
unfolding segments
zero-Stops t r f p i e = rw (read_byte-append p 0 r i e) (ground (arith, length-append p (0 ∷ r)))

pub nil-Stops : (t : RrType) → Stops t []
unfolding segments
nil-Stops t f p i e = ground (arith, length-append p [])

IsLabel-filled : (ss : List Bytes) → All IsLabel ss → All (λ s. 0 < length s) ss
IsLabel-filled [] h = tt
IsLabel-filled (s ∷ ss) h = (h.0.0, IsLabel-filled ss h.1)

-- A name on the wire, whatever follows.
pub decode_domain_name-name_bytes :
    (t : RrType) (name r : Bytes)
    → IsName name
    → decode_domain_name t (name_bytes name ++ r) ≡ ok name
unfolding decode_domain_name
decode_domain_name-name_bytes t name r h = rw (bytes_of, read, join-split dot name)
  where
    ss : List Bytes
    ss = split dot name

    bytes_of : name_bytes name ++ r ≡ label_bytes ss ++ 0 ∷ r
    bytes_of = unfold name_bytes in append_assoc (label_bytes (split dot name)) (0 ∷ []) r

    read : segments (length (label_bytes ss ++ 0 ∷ r) + 1) t (label_bytes ss ++ 0 ∷ r) 0 ≡ ok ss
    read =
        segments-label_bytes ss (length (label_bytes ss ++ 0 ∷ r) + 1) t [] (0 ∷ r) 0
          (zero-Stops t r) refl (IsLabel-filled ss h)
          (omega (arith, length-label_bytes ss, length-append (label_bytes ss) (0 ∷ r)))

pub encode_domain_name-name_bytes :
    (name : Bytes)
    → IsName (canonical_dns_name name)
    → encode_domain_name name ≡ ok (name_bytes (canonical_dns_name name))
unfolding encode_domain_name name_bytes
encode_domain_name-name_bytes name h =
    rw (encode_query_labels-label_bytes (split dot (canonical_dns_name name)) h)

pub is_name_type-false : (t : RrType) → is_name_type t ≡ true → (t == 1) ≡ false
unfolding is_name_type
is_name_type-false t kind = ground arith

-- The target of an NS, CNAME or PTR record whose canonical form has labels of 1 to 63 bytes is
-- encoded, and its data decode to the canonical form.
pub decode-encode_domain_name :
    (t : RrType) (name : Bytes)
    → is_name_type t ≡ true
    → IsName (canonical_dns_name name)
    → (encode_domain_name name >>= decode t) ≡ ok (canonical_dns_name name)
unfolding decode
decode-encode_domain_name t name kind h =
    rw (encode_domain_name-name_bytes name h, kind, is_name_type-false t kind)
      (rw (← append-nil (name_bytes (canonical_dns_name name)))
        (decode_domain_name-name_bytes t (canonical_dns_name name) [] h))
