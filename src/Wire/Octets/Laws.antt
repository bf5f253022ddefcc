-- ===== src/Wire/Octets/Laws.antt =====
-- What is read where something was written, and which reads are in range.
use rr_dns.Prelude.{
  ℕ, zero, suc, ◌+◌, ◌-◌, ◌*◌, ◌/◌, ◌%◌, ◌^◌, ◌≤◌, ◌<◌, [], ◌∷◌, ◌++◌, List, ◌≡◌, refl, ◌∙◌, arith,
  some, length, get_elem?, take, drop, ok, length-append, append_assoc, take-append, drop-append,
}
use rr_dns.Prelude.Bytes.{Bytes}
use rr_dns.Wire.Octets.{byte, put_u16, put_u32, read_byte, read_u16, read_u32, slice}

get_elem?-append : (p : Bytes) (b : ℕ) (r : Bytes) → get_elem? (p ++ b ∷ r) (length p) ≡ some b
get_elem?-append [] b r = refl
get_elem?-append (c ∷ p) b r = get_elem?-append p b r

-- The position is given by an equation, so that any sum for it will do.
pub read_byte-append :
    (p : Bytes) (b : ℕ) (r : Bytes) (i : ℕ) → i ≡ length p → read_byte (p ++ b ∷ r) i ≡ ok b
unfolding read_byte
read_byte-append p b r i e = rw (e, get_elem?-append p b r, read_byte)

pub read_u16-append :
    (p : Bytes) (n : ℕ) (r : Bytes) (i : ℕ)
    → i ≡ length p
    → n < 2 ^ 16
    → read_u16 (p ++ (put_u16 n ++ r)) i ≡ ok n
unfolding read_u16 put_u16
read_u16-append p n r i e h = rw (read_byte-append p (byte (n / 256)) (byte n ∷ r) i e) (
    rw (← append_assoc p (byte (n / 256) ∷ []) (byte n ∷ r)) (
      rw
        (read_byte-append (p ++ byte (n / 256) ∷ []) (byte n) r (i + 1)
          (omega (arith, length-append p (byte (n / 256) ∷ []))))
        (ground arith)))

get_elem?-lt {ℓ} :
    {A : Type ℓ} (s : List A) (i : ℕ) → i < length s → (b : A) × (get_elem? s i ≡ some b)
get_elem?-lt [] i h = elim h [ ]
get_elem?-lt (c ∷ s) zero h = (c, refl)
get_elem?-lt (c ∷ s) (suc i) h = get_elem?-lt s i (omega arith)

-- A read in range gives a byte.
pub read_byte-lt : (s : Bytes) (i : ℕ) → i < length s → (b : ℕ) × (read_byte s i ≡ ok b)
unfolding read_byte
read_byte-lt s i h = let (b, e) = get_elem?-lt s i h in (b, rw (e, read_byte))

pub read_u16-lt : (s : Bytes) (i : ℕ) → i + 1 < length s → (n : ℕ) × (read_u16 s i ≡ ok n)
unfolding read_u16
read_u16-lt s i h =
    let (a, ea) = read_byte-lt s i (omega arith) in
    let (b, eb) = read_byte-lt s (i + 1) h in (a * 256 + b, rw (ea, eb))

pub read_u32-lt : (s : Bytes) (i : ℕ) → i + 3 < length s → (n : ℕ) × (read_u32 s i ≡ ok n)
unfolding read_u32
read_u32-lt s i h =
    let (a, ea) = read_u16-lt s i (omega arith) in
    let (b, eb) = read_u16-lt s (i + 2) (omega arith) in (a * 2 ^ 16 + b, rw (ea, eb))

pub slice-le :
    (s : Bytes) (lo hi : ℕ)
    → lo ≤ hi
    → hi ≤ length s
    → slice s lo hi ≡ ok (take (hi - lo) (drop lo s))
unfolding slice
slice-le s lo hi h k = ground arith

pub slice-append :
    (p s r : Bytes) (lo hi : ℕ)
    → lo ≡ length p
    → hi ≡ length p + length s
    → slice (p ++ (s ++ r)) lo hi ≡ ok s
slice-append p s r lo hi e f =
    slice-le (p ++ (s ++ r)) lo hi (omega arith)
      (omega (arith, length-append p (s ++ r), length-append s r))
    ∙ rw e (
        rw (drop-append p (s ++ r))
          (let n : hi - length p ≡ length s = omega arith in rw n (rw (take-append s r))))

pub length-put_u16 : (n : ℕ) → length (put_u16 n) ≡ 2
unfolding put_u16
length-put_u16 n = refl

put_u32_halves :
    (n : ℕ) (r : Bytes) → put_u32 n ++ r ≡ put_u16 (n / 2 ^ 16) ++ (put_u16 (n % 2 ^ 16) ++ r)
unfolding put_u32 put_u16
put_u32_halves n r = ground arith

pub read_u32-append :
    (p : Bytes) (n : ℕ) (r : Bytes) (i : ℕ)
    → i ≡ length p
    → n < 2 ^ 32
    → read_u32 (p ++ (put_u32 n ++ r)) i ≡ ok n
unfolding read_u32
read_u32-append p n r i e h =
    rw
      (
        put_u32_halves n r,
        read_u16-append p (n / 2 ^ 16) (put_u16 (n % 2 ^ 16) ++ r) i e (omega arith),
      )
      (rw (← append_assoc p (put_u16 (n / 2 ^ 16)) (put_u16 (n % 2 ^ 16) ++ r)) (
        rw
          (read_u16-append (p ++ put_u16 (n / 2 ^ 16)) (n % 2 ^ 16) r (i + 2)
            (omega (arith, length-append p (put_u16 (n / 2 ^ 16)), length-put_u16 (n / 2 ^ 16)))
            (omega arith))
          (ground arith)))

-- The same for a message of which only an equation is known.
pub read_u16-at :
    (msg p : Bytes) (n : ℕ) (r : Bytes) (i : ℕ)
    → msg ≡ p ++ (put_u16 n ++ r)
    → i ≡ length p
    → n < 2 ^ 16
    → read_u16 msg i ≡ ok n
read_u16-at msg p n r i m e h = rw m (read_u16-append p n r i e h)

pub read_u32-at :
    (msg p : Bytes) (n : ℕ) (r : Bytes) (i : ℕ)
    → msg ≡ p ++ (put_u32 n ++ r)
    → i ≡ length p
    → n < 2 ^ 32
    → read_u32 msg i ≡ ok n
read_u32-at msg p n r i m e h = rw m (read_u32-append p n r i e h)

pub slice-at :
    (msg p s r : Bytes) (lo hi : ℕ)
    → msg ≡ p ++ (s ++ r)
    → lo ≡ length p
    → hi ≡ length p + length s
    → slice msg lo hi ≡ ok s
slice-at msg p s r lo hi m e f = rw m (slice-append p s r lo hi e f)
