-- ===== src/Wire/Name.antt =====
-- udp_codec.go: `decodeName` and `encodeDomainName`.
pub mod Fuel
pub mod Pointers
pub mod Panics
pub mod RoundTrip
use rr_dns.Prelude.{
  Bool, ℕ, zero, suc, ◌+◌, ◌/◌, ◌%◌, ◌^◌, ltb, leb, ◌==◌, if◌then◌else◌, true, false, List, [], ◌∷◌,
  ◌++◌, is_empty, length, Result, ok, err, ◌>>=◌, out_of_fuel, offset_out_of_bounds,
  pointer_out_of_bounds, label_out_of_bounds, label_too_long,
}
use rr_dns.Prelude.Bytes.{Bytes, codes}
use rr_dns.Text.{dot, split, join}
use rr_dns.Wire.Octets.{byte, read_byte, read_u16, slice}

-- `length&0xC0 == 0xC0`: the two upper bits of the byte are set.
abbrev pub is_pointer : ℕ → Bool
is_pointer length = length / 64 % 4 == 3

-- `strings.Join(labels, ".")`
abbrev pub join_labels : List Bytes → Bytes
join_labels = join (dot ∷ [])

-- What one round of the loop of `decodeName` finds at the offset.
pub data Round : Type 0 where
  -- the loop ends: by an error, or by the zero byte with the offset behind it
  stop : Result ℕ → Round
  -- a label, and the offset behind it
  segment : Bytes → ℕ → Round
  -- a compression pointer: its target, and the offset behind it
  jump : ℕ → ℕ → Round

-- A failed read or slice would be a panic of the round.
abbrev pub or_stop {ℓ} : {A : Type ℓ} → Result A → (A → Round) → Round
or_stop (ok a) k = k a
or_stop (err e) k = stop (err e)

unfoldable pub round : Bytes → ℕ → Round
round msg offset =
    if leb (length msg) offset
    then stop (err offset_out_of_bounds)
    else or_stop (read_byte msg offset) (λ len.
      if len == 0
      then stop (ok (offset + 1))
      else if is_pointer len
      then (if leb (length msg) (offset + 1)
          then stop (err pointer_out_of_bounds)
          else or_stop (read_u16 msg offset) (λ word. jump (word % 2 ^ 14) (offset + 2)))
      else if ltb (length msg) (offset + 1 + len)
      then stop (err label_out_of_bounds)
      else or_stop (slice msg (offset + 1) (offset + 1 + len))
          (λ bytes. segment bytes (offset + 1 + len)))

-- The loop, over `labels` and `offset`. The call of `decodeName` on the target of a pointer is a
-- walk of its own. A round takes one unit of fuel, and so does the call.
unfoldable pub decode_labels : ℕ → Bytes → ℕ → List Bytes → Result (List Bytes × ℕ)
decode_labels zero msg offset labels = err out_of_fuel
decode_labels (suc f) msg offset labels = elim (round msg offset) [
  | stop (ok end) ↦ ok (labels, end)
  | stop (err e) ↦ err e
  | segment bytes next ↦ decode_labels f msg next (labels ++ bytes ∷ [])
  | jump target end ↦ do
    (suffix, _) ← decode_labels f msg target []
    ok (labels ++ join_labels suffix ∷ [], end)
]

unfoldable pub decode_name : ℕ → Bytes → ℕ → Result (Bytes × ℕ)
decode_name f msg offset = do
  (labels, end) ← decode_labels f msg offset []
  ok (join_labels labels, end)

-- The loop over the labels of `encodeDomainName`.
unfoldable pub encode_labels : List Bytes → Result Bytes
encode_labels [] = ok []
encode_labels (label ∷ labels) =
    if ltb 63 (length label)
    then err label_too_long
    else encode_labels labels >>= λ rest. ok (byte (length label) ∷ (label ++ rest))

unfoldable pub encode_domain_name : Bytes → Result Bytes
unfolding encode_labels
encode_domain_name name =
    if is_empty name
    then ok (0 ∷ [])
    else encode_labels (split dot name) >>= λ labels. ok (labels ++ 0 ∷ [])
