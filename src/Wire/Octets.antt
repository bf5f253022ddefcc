-- ===== src/Wire/Octets.antt =====
-- Reads and writes of big-endian numbers (`binary.BigEndian`, `binary.Write`) and slices. A read or
-- a slice out of range is Go's run-time panic.
pub mod Laws
use rr_dns.Prelude.{
  ℕ, ◌+◌, ◌-◌, ◌*◌, ◌/◌, ◌%◌, ◌^◌, leb, ◌&&◌, if◌then◌else◌, [], ◌∷◌, none, some, length, get_elem?,
  take, drop, Result, ok, err, panic, ◌>>=◌,
}
use rr_dns.Prelude.Bytes.{Bytes}

-- `byte(n)`
abbrev pub byte : ℕ → ℕ
byte n = n % 256

unfoldable pub put_u16 : ℕ → Bytes
put_u16 n = byte (n / 256) ∷ byte n ∷ []

unfoldable pub put_u32 : ℕ → Bytes
put_u32 n = byte (n / 2 ^ 24) ∷ byte (n / 2 ^ 16) ∷ byte (n / 256) ∷ byte n ∷ []

-- `data[i]`
unfoldable pub read_byte : Bytes → ℕ → Result ℕ
read_byte s i = elim (get_elem? s i) [ none ↦ err panic | some b ↦ ok b ]

unfoldable pub read_u16 : Bytes → ℕ → Result ℕ
read_u16 s i = do a ← read_byte s i; b ← read_byte s (i + 1); ok (a * 256 + b)

unfoldable pub read_u32 : Bytes → ℕ → Result ℕ
read_u32 s i = do a ← read_u16 s i; b ← read_u16 s (i + 2); ok (a * 2 ^ 16 + b)

-- `data[lo:hi]`
unfoldable pub slice : Bytes → ℕ → ℕ → Result Bytes
slice s lo hi =
    if leb lo hi && leb hi (length s) then ok (take (hi - lo) (drop lo s)) else err panic
