-- ===== src/Wire/Name/Fuel.antt =====
-- Fuel only decides whether the walk of `decodeName` ends: a walk that ends does so with any
-- larger fuel, and with the same outcome.
use rr_dns.Prelude.{
  ℕ, zero, suc, ◌+◌, List, [], ◌∷◌, ◌++◌, ◌≡◌, ◌≢◌, refl, ◌∙◌, arith, Result, ok, err, Error,
  out_of_fuel, >>=-eq-ok, sym, inl, inr, ◌⊎◌,
}
use rr_dns.Prelude.Bytes.{Bytes}
use rr_dns.Wire.Name.{Round, stop, segment, jump, round, decode_labels, decode_name}

-- The outcome of a run that has ended.
abbrev pub Ended {ℓ} : {A : Type ℓ} → Result A → Type ℓ
Ended r = r ≢ err out_of_fuel

-- To split on a round and keep the equation.
pub Round-cases :
    (r : Round)
    → ((end : ℕ) × (r ≡ stop (ok end)))
      ⊎ ((e : Error) × (r ≡ stop (err e)))
      ⊎ ((s : Bytes) × (n : ℕ) × (r ≡ segment s n))
      ⊎ ((t : ℕ) × (n : ℕ) × (r ≡ jump t n))
Round-cases (stop (ok end)) = inl (end, refl)
Round-cases (stop (err e)) = inr (inl (e, refl))
Round-cases (segment s n) = inr (inr (inl (s, n, refl)))
Round-cases (jump t n) = inr (inr (inr (t, n, refl)))

decode_labels-suc :
    (f : ℕ) (msg : Bytes) (offset : ℕ) (labels : List Bytes)
    → Ended (decode_labels f msg offset labels)
    → decode_labels (suc f) msg offset labels ≡ decode_labels f msg offset labels
unfolding decode_labels
decode_labels-suc zero msg offset labels h = absurd (h refl)
decode_labels-suc (suc f) msg offset labels h = elim (Round-cases (round msg offset)) [
  | inl (end, e) ↦ rw (e, decode_labels)
  | inr (inl (e, e')) ↦ rw (e', decode_labels)
  | inr (inr (inl (s, n, e))) ↦ ground (arith, decode_labels-suc f msg n (labels ++ s ∷ []))
  | inr (inr (inr (t, n, e))) ↦ ground (arith, decode_labels-suc f msg t [])
]

pub decode_labels_le :
    (k f : ℕ) (msg : Bytes) (offset : ℕ) (labels : List Bytes)
    → Ended (decode_labels f msg offset labels)
    → decode_labels (k + f) msg offset labels ≡ decode_labels f msg offset labels
decode_labels_le zero f msg offset labels h = let e : 0 + f ≡ f = omega arith in rw e
decode_labels_le (suc k) f msg offset labels h =
    let ih = decode_labels_le k f msg offset labels h in
    let e : suc k + f ≡ suc (k + f) = omega arith in
    rw e (decode_labels-suc (k + f) msg offset labels (λ x. h (sym ih ∙ x)) ∙ ih)

-- A name that some fuel decodes is decoded to the same name, with the same offset behind it, by
-- every larger fuel; so the fuel does not show in an outcome.
pub decode_name_le :
    (k f : ℕ) (msg : Bytes) (offset : ℕ) {r : Bytes × ℕ}
    → decode_name f msg offset ≡ ok r
    → decode_name (k + f) msg offset ≡ ok r
unfolding decode_name
decode_name_le k f msg offset h =
    let (a, e, _) = >>=-eq-ok (decode_labels f msg offset []) _ h in
    rw (decode_labels_le k f msg offset [] (λ x. absurd (clash (sym e ∙ x)))) h
  where
    clash : {a : List Bytes × ℕ} → ok a ≡ err out_of_fuel → ⊥
    clash e = cc
