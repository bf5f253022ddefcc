-- ===== src/Wire/Name/Panics.antt =====
-- No read or slice of `decodeName` is out of range.
use rr_dns.Prelude.{
  ℕ, zero, suc, List, [], ◌∷◌, ◌++◌, Result, ok, err, panic, ◌>>=◌, ◌≡◌, ◌≢◌, refl, inl, inr, arith,
}
use rr_dns.Prelude.Bytes.{Bytes}
use rr_dns.Wire.Octets.{slice}
use rr_dns.Wire.Octets.Laws.{read_byte-lt, read_u16-lt}
use rr_dns.Wire.Name.{stop, round, decode_labels, decode_name}
use rr_dns.Wire.Name.Fuel.{Round-cases}

-- The outcome of a run without a run-time panic.
abbrev pub Safe {ℓ} : {A : Type ℓ} → Result A → Type ℓ
Safe r = r ≢ err panic

round-ne-panic : (msg : Bytes) (o : ℕ) → round msg o ≢ stop (err panic)
unfolding round slice
round-ne-panic msg o h = ground (arith, read_byte-lt msg o, read_u16-lt msg o)

pub Safe-bind {ℓ κ} :
    {A : Type ℓ} {B : Type κ} (m : Result A) (k : A → Result B)
    → Safe m
    → ((a : A) → m ≡ ok a → Safe (k a))
    → Safe (m >>= k)
Safe-bind (ok a) k hm hk = hk a refl
Safe-bind (err e) k hm hk = λ x. hm (ground arith)

decode_labels-Safe :
    (f : ℕ) (msg : Bytes) (o : ℕ) (labels : List Bytes) → Safe (decode_labels f msg o labels)
unfolding decode_labels
decode_labels-Safe zero msg o labels = λ x. cc
decode_labels-Safe (suc f) msg o labels = elim (Round-cases (round msg o)) [
  | inl (end, e) ↦ rw (e, decode_labels) (λ x. cc)
  | inr (inl (e, e')) ↦ rw (e', decode_labels) (λ x. round-ne-panic msg o (ground arith))
  | inr (inr (inl (s, n, e))) ↦
      rw (e, decode_labels) (decode_labels-Safe f msg n (labels ++ s ∷ []))
  | inr (inr (inr (t, n, e))) ↦
      rw (e, decode_labels)
        (Safe-bind (decode_labels f msg t []) _ (decode_labels-Safe f msg t []) (λ a p x. cc))
]

pub decode_name-Safe : (f : ℕ) (msg : Bytes) (o : ℕ) → Safe (decode_name f msg o)
unfolding decode_name
decode_name-Safe f msg o =
    Safe-bind (decode_labels f msg o []) _ (decode_labels-Safe f msg o []) (λ a p x. cc)
