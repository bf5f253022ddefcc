-- ===== src/Wire/Response/Skip.antt =====
-- The question that `DecodeResponse` skips, where it is written out.
use rr_dns.Prelude.{
  ℕ, zero, suc, ◌+◌, ◌≤◌, ◌<◌, List, [], ◌∷◌, ◌++◌, length, length-append, append_assoc, ok, ◌≡◌,
  sym, arith, All,
}
use rr_dns.Prelude.Bytes.{Bytes}
use rr_dns.Text.{dot, split}
use rr_dns.Wire.Octets.Laws.{read_byte-append}
use rr_dns.Wire.Name.RoundTrip.{IsLabel, IsName, label_bytes, name_bytes}
use rr_dns.Wire.Response.{skip_labels, skip_questions}

-- The skipping of a name that is written out.
skip_labels-label_bytes :
    (ss : List Bytes) (f : ℕ) (p r : Bytes) (o : ℕ)
    → o ≡ length p
    → All IsLabel ss
    → length ss < f
    → skip_labels f (p ++ (label_bytes ss ++ 0 ∷ r)) o ≡ ok (o + length (label_bytes ss) + 1)
unfolding skip_labels label_bytes
skip_labels-label_bytes ss zero p r o e h k = absurd (omega arith)
skip_labels-label_bytes [] (suc f) p r o e h k =
    rw (read_byte-append p 0 r o e) (ground (arith, length-append p (0 ∷ r)))
skip_labels-label_bytes (s ∷ ss) (suc f) p r o e (hs, h) k =
    rw (append_assoc s (label_bytes ss) (0 ∷ r)) (
      rw (read_byte-append p (length s) (s ++ (label_bytes ss ++ 0 ∷ r)) o e) (
        rw
          (
            shift,
            skip_labels-label_bytes ss f (p ++ (length s ∷ s)) r (o + 1 + length s)
                (omega (arith, length-append p (length s ∷ s))) h (omega arith),
          )
          (ground (
            arith,
            length-append s (label_bytes ss),
            length-append (p ++ (length s ∷ s)) (label_bytes ss ++ 0 ∷ r),
            length-append p (length s ∷ s),
          ))))
  where
    shift :
        p ++ (length s ∷ (s ++ (label_bytes ss ++ 0 ∷ r)))
        ≡ (p ++ (length s ∷ s)) ++ (label_bytes ss ++ 0 ∷ r)
    shift = sym (append_assoc p (length s ∷ s) (label_bytes ss ++ 0 ∷ r))

pub length-label_bytes : (ss : List Bytes) → length ss ≤ length (label_bytes ss)
unfolding label_bytes
length-label_bytes [] = omega arith
length-label_bytes (s ∷ ss) = omega (arith, length-append s (label_bytes ss), length-label_bytes ss)

pub skip_question :
    (first p r : Bytes) (o : ℕ)
    → o ≡ length p
    → IsName first
    → skip_questions 1 (p ++ (name_bytes first ++ r)) o ≡ ok (o + length (name_bytes first) + 4)
unfolding skip_questions name_bytes
skip_question first p r o e h =
    rw
      (
        append_assoc (label_bytes ss) (0 ∷ []) r,
        skip_labels-label_bytes ss (length (p ++ (label_bytes ss ++ 0 ∷ r)) + 1) p r o e h (
            omega (
              arith,
              length-label_bytes ss,
              length-append p (label_bytes ss ++ 0 ∷ r),
              length-append (label_bytes ss) (0 ∷ r),
            )),
      )
      (ground (arith, length-append (label_bytes ss) (0 ∷ [])))
  where
    ss : List Bytes
    ss = split dot first
