-- ===== src/Wire/Name/Pointers.antt =====
-- When the walk of `decodeName` ends: the code follows every compression pointer, with no test that
-- it points backwards and no bound on the number of jumps.
use rr_dns.Prelude.{
  ℕ, zero, suc, ◌+◌, ◌-◌, ◌*◌, ◌≤◌, ◌<◌, List, [], ◌∷◌, ◌++◌, ◌≡◌, ◌≢◌, refl, arith, length, Result,
  ok, err, out_of_fuel, ◌>>=◌, inl, inr, ◌⊎◌,
}
use rr_dns.Prelude.Bytes.{Bytes}
use rr_dns.Wire.Octets.{read_byte, read_u16, slice}
use rr_dns.Wire.Name.{stop, segment, jump, round, decode_labels, decode_name}
use rr_dns.Wire.Name.Fuel.{Ended, Round-cases}

-- A set of offsets that no round leaves: a label leads to an offset in the set, and so does a
-- pointer.
abbrev pub IsTrap {κ} : Bytes → (ℕ → Type κ) → Type κ
IsTrap msg P =
    (o : ℕ)
    → P o
    → ((s : Bytes) × (n : ℕ) × (round msg o ≡ segment s n) × P n)
      ⊎ ((t : ℕ) × (n : ℕ) × (round msg o ≡ jump t n) × P t)

decode_labels-trap {κ} :
    (msg : Bytes) (P : ℕ → Type κ) (trap : IsTrap msg P) (f o : ℕ) (labels : List Bytes)
    → P o
    → decode_labels f msg o labels ≡ err out_of_fuel
unfolding decode_labels
decode_labels-trap msg P trap zero o labels h = refl
decode_labels-trap msg P trap (suc f) o labels h = elim (trap o h) [
  | inl (s, n, e, p) ↦
      rw (e, decode_labels) (decode_labels-trap msg P trap f n (labels ++ s ∷ []) p)
  | inr (t, n, e, p) ↦ rw (e, decode_labels) (rw (decode_labels-trap msg P trap f t [] p))
]

-- From an offset in a trap no fuel is enough: the program's recursion does not end. A pointer to
-- itself is such a set, and so is any cycle of labels and pointers.
pub decode_name-trap {κ} :
    (msg : Bytes) (P : ℕ → Type κ) (trap : IsTrap msg P) (o : ℕ)
    → P o
    → (f : ℕ) → decode_name f msg o ≡ err out_of_fuel
unfolding decode_name
decode_name-trap msg P trap o h f = rw (decode_labels-trap msg P trap f o [] h)

-- A set of offsets that the walk keeps to, and a measure on it that a label does not raise and a
-- pointer lowers.
pub record Descends (msg : Bytes) (P : ℕ → Type 0) (rank : ℕ → ℕ) : Type 0 where
  pub along : (o n : ℕ) (s : Bytes) → P o → round msg o ≡ segment s n → P n × (rank n ≤ rank o)
  pub down : (o t n : ℕ) → P o → round msg o ≡ jump t n → P t × (rank t < rank o)

round-segment :
    (msg : Bytes) (o n : ℕ) (s : Bytes) → round msg o ≡ segment s n → (o < n) × (n ≤ length msg)
unfolding round
round-segment msg o n s h = ground arith

round-ne-out_of_fuel : (msg : Bytes) (o : ℕ) → round msg o ≢ stop (err out_of_fuel)
unfolding round read_byte read_u16 slice
round-ne-out_of_fuel msg o h = ground arith

pub Ended-bind {ℓ κ} :
    {A : Type ℓ} {B : Type κ} (m : Result A) (k : A → Result B)
    → Ended m
    → ((a : A) → Ended (k a))
    → Ended (m >>= k)
Ended-bind (ok a) k hm hk = hk a
Ended-bind (err e) k hm hk = λ x. hm (ground arith)

module _ (msg : Bytes) (P : ℕ → Type 0) (rank : ℕ → ℕ) (d : Descends msg P rank) where
  decode_labels-Descends :
      (f o : ℕ) (labels : List Bytes)
      → P o
      → rank o * (length msg + 1) + (length msg - o) < f
      → Ended (decode_labels f msg o labels)
  unfolding decode_labels
  decode_labels-Descends zero o labels p h = absurd (omega arith)
  decode_labels-Descends (suc f) o labels p h = elim (Round-cases (round msg o)) [
    | inl (end, e) ↦ rw (e, decode_labels) (λ x. cc)
    | inr (inl (e, e')) ↦ rw (e', decode_labels) (λ x. round-ne-out_of_fuel msg o (ground arith))
    | inr (inr (inl (s, n, e))) ↦
        let (forward, inside) = round-segment msg o n s e in
        let (q, flat) = d.along o n s p e in
        rw (e, decode_labels) (decode_labels-Descends f n (labels ++ s ∷ []) q (grind arith))
    | inr (inr (inr (t, n, e))) ↦
        let (q, lower) = d.down o t n p e in
        let ih = decode_labels-Descends f t [] q (grind arith) in
        rw (e, decode_labels) (Ended-bind (decode_labels f msg t []) _ ih (λ a x. cc))
  ]

-- Where the pointers on the walk descend by some measure, the walk ends, within as many rounds as
-- the measure at the offset allows jumps, times the length of the message.
pub decode_name-Descends :
    (msg : Bytes) (P : ℕ → Type 0) (rank : ℕ → ℕ) (o f : ℕ)
    → Descends msg P rank
    → P o
    → (rank o + 1) * (length msg + 1) ≤ f
    → Ended (decode_name f msg o)
unfolding decode_name
decode_name-Descends msg P rank o f d p h =
    Ended-bind (decode_labels f msg o []) _
      (decode_labels-Descends msg P rank d f o [] p (grind arith)) (λ a x. cc)
