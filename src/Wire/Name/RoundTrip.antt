-- ===== src/Wire/Name/RoundTrip.antt =====
-- A name that `encodeDomainName` wrote is read back by `decodeName`, wherever it stands.
use rr_dns.Prelude.{
  ℕ, zero, suc, ◌+◌, ◌≤◌, ◌<◌, List, [], ◌∷◌, ◌++◌, ◌≡◌, refl, sym, ◌∙◌, arith, length,
  length-append, append_assoc, append-nil, ok, false, All, is_empty,
}
use rr_dns.Prelude.Bytes.{Bytes}
use rr_dns.Text.{dot, split}
use rr_dns.Text.Split.{join-split}
use rr_dns.Wire.Octets.{slice}
use rr_dns.Wire.Octets.Laws.{read_byte-append, slice-append}
use rr_dns.Wire.Name.{
  stop, segment, round, decode_labels, decode_name, encode_labels, encode_domain_name,
}

-- A label that the wire format can hold.
abbrev pub IsLabel : Bytes → Type 0
IsLabel s = (0 < length s) × (length s ≤ 63)

-- A name whose labels the wire format can hold, written without a trailing dot.
abbrev pub IsName : Bytes → Type 0
IsName name = All IsLabel (split dot name)

-- The labels on the wire, each behind its length.
unfoldable pub label_bytes : List Bytes → Bytes
label_bytes [] = []
label_bytes (s ∷ ss) = length s ∷ (s ++ label_bytes ss)

pub encode_labels-label_bytes :
    (ss : List Bytes) → All IsLabel ss → encode_labels ss ≡ ok (label_bytes ss)
unfolding encode_labels label_bytes
encode_labels-label_bytes [] h = refl
encode_labels-label_bytes (s ∷ ss) (hs, h) = rw (encode_labels-label_bytes ss h) (ground arith)

round-segment_append :
    (p s r : Bytes) (o : ℕ)
    → o ≡ length p
    → IsLabel s
    → round (p ++ (length s ∷ (s ++ r))) o ≡ segment s (o + 1 + length s)
unfolding round
round-segment_append p s r o e h =
    rw (read_byte-append p (length s) (s ++ r) o e)
      (rw cut (ground (arith, length-append p (length s ∷ (s ++ r)), length-append s r)))
  where
    cut : slice (p ++ (length s ∷ (s ++ r))) (o + 1) (o + 1 + length s) ≡ ok s
    cut = rw (← append_assoc p (length s ∷ []) (s ++ r)) (
        slice-append (p ++ length s ∷ []) s r (o + 1) (o + 1 + length s)
          (omega (arith, length-append p (length s ∷ [])))
          (omega (arith, length-append p (length s ∷ []))))

round-stop_append : (p r : Bytes) (o : ℕ) → o ≡ length p → round (p ++ 0 ∷ r) o ≡ stop (ok (o + 1))
unfolding round
round-stop_append p r o e =
    rw (read_byte-append p 0 r o e) (ground (arith, length-append p (0 ∷ r)))

-- The walk over written labels, with the zero byte behind them.
pub decode_labels-label_bytes :
    (ss : List Bytes) (f : ℕ) (p r : Bytes) (o : ℕ) (labels : List Bytes)
    → o ≡ length p
    → All IsLabel ss
    → length ss < f
    → decode_labels f (p ++ (label_bytes ss ++ 0 ∷ r)) o labels
      ≡ ok (labels ++ ss, o + length (label_bytes ss) + 1)
unfolding decode_labels label_bytes
decode_labels-label_bytes ss zero p r o labels e h k = absurd (omega arith)
decode_labels-label_bytes [] (suc f) p r o labels e h k =
    rw (round-stop_append p r o e, decode_labels) (ground (arith, append-nil labels))
decode_labels-label_bytes (s ∷ ss) (suc f) p r o labels e (hs, h) k =
    rw (append_assoc s (label_bytes ss) (0 ∷ r)) (
      rw (round-segment_append p s (label_bytes ss ++ 0 ∷ r) o e hs, decode_labels)
        (rw (shift) (
          decode_labels-label_bytes ss f (p ++ (length s ∷ s)) r (o + 1 + length s)
            (labels ++ s ∷ []) (omega (arith, length-append p (length s ∷ s))) h (omega arith)
          ∙ ground (arith, append_assoc labels (s ∷ []) ss, length-append s (label_bytes ss)))))
  where
    shift :
        p ++ (length s ∷ (s ++ (label_bytes ss ++ 0 ∷ r)))
        ≡ (p ++ (length s ∷ s)) ++ (label_bytes ss ++ 0 ∷ r)
    shift = sym (append_assoc p (length s ∷ s) (label_bytes ss ++ 0 ∷ r))

-- The name as `encodeDomainName` writes it.
unfoldable pub name_bytes : Bytes → Bytes
unfolding label_bytes
name_bytes name = label_bytes (split dot name) ++ 0 ∷ []

-- The empty text has the empty label, so it is no `IsName`.
IsName-ne-nil : (name : Bytes) → IsName name → is_empty name ≡ false
unfolding split
IsName-ne-nil [] h = absurd (omega arith)
IsName-ne-nil (c ∷ s) h = refl

pub encode_domain_name-name_bytes :
    (name : Bytes) → IsName name → encode_domain_name name ≡ ok (name_bytes name)
unfolding encode_domain_name name_bytes
encode_domain_name-name_bytes name h =
    rw (IsName-ne-nil name h, encode_labels-label_bytes (split dot name) h)

pub decode_name-name_bytes :
    (name p r : Bytes) (o f : ℕ)
    → o ≡ length p
    → IsName name
    → length (split dot name) < f
    → decode_name f (p ++ (name_bytes name ++ r)) o ≡ ok (name, o + length (name_bytes name))
unfolding decode_name name_bytes
decode_name-name_bytes name p r o f e h k =
    rw
      (
        append_assoc (label_bytes (split dot name)) (0 ∷ []) r,
        decode_labels-label_bytes (split dot name) f p r o [] e h k,
      )
      (ground (arith, join-split dot name, length-append (label_bytes (split dot name)) (0 ∷ [])))
