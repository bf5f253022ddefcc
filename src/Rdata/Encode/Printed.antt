-- ===== src/Rdata/Encode/Printed.antt =====
-- The text of an IPv6 address is parsed, by its groups and the run that it leaves out.
use mathlib.Core.Path.{subst}
use rr_dns.Prelude.{
  ℕ, zero, suc, ◌+◌, ◌-◌, ◌<◌, ◌==◌, if◌then◌else◌, List, [], ◌∷◌, ◌++◌, length, take, drop, none,
  some, false, ◌≡◌, ◌≢◌, refl, sym, ap, ◌∙◌, All, append_assoc, length-append, take-append,
  drop-append, inl, inr, arith,
}
use rr_dns.Prelude.Bytes.{Bytes}
use rr_dns.Text.{dot, join}
use rr_dns.Rdata.Address.Parse.{zeros, fill_gap, v6_groups, parse_v6, is_v4_text}
use rr_dns.Rdata.Encode.Hex.{IsHex}
use rr_dns.Rdata.Encode.Groups.{
  IsGroup, bytes_of, text_of, text_of-start, v6_groups-text, v6_groups-gap,
}
use rr_dns.Rdata.Encode.Runs.{IsRun}
use rr_dns.Rdata.Encode.Pairs.{bytes_of-zeros, bytes_of-append, length-bytes_of, length-zeros}

-- Without a gap 16 bytes are the address, and with one it takes the place of what is left out.
fill_gap-none : (ip : Bytes) → length ip ≡ 16 → fill_gap ip none ≡ some ip
unfolding fill_gap
fill_gap-none ip h = ground arith

fill_gap-zeros :
    (a b : Bytes) (n : ℕ)
    → length a + n + length b ≡ 16
    → 0 < n
    → fill_gap (a ++ b) (some (length a)) ≡ some (a ++ (zeros n ++ b))
unfolding fill_gap
fill_gap-zeros a b n h p =
    let gap : 16 - length (a ++ b) ≡ n = omega (arith, length-append a b) in
    rw (take-append a b, drop-append a b, gap) (ground (arith, length-append a b))

-- A text without a dot is not taken for version 4.
pub is_v4_text-false : (s : Bytes) → All (λ c. c ≢ dot) s → is_v4_text s ≡ false
unfolding is_v4_text
is_v4_text-false [] h = refl
is_v4_text-false (c ∷ s) (hc, h) = ground (arith, is_v4_text-false s h)

parse_v6-start : (c : ℕ) (s : Bytes) → IsHex c → parse_v6 (c ∷ s) ≡ v6_groups 8 [] none (c ∷ s)
unfolding parse_v6
parse_v6-start c [] h = refl
parse_v6-start c (d ∷ s) h = ground arith

-- What `IP.String` makes of groups and a run.
abbrev pub printed : List ℕ → ℕ × ℕ → Bytes
printed gs (start, n) =
    if n == 0
    then text_of gs
    else text_of (take start gs) ++ (b':' ∷ b':' ∷ text_of (drop (start + n) gs))

text_of-parse :
    (g : ℕ) (gs : List ℕ)
    → All IsGroup (g ∷ gs)
    → length gs ≡ 7
    → parse_v6 (text_of (g ∷ gs)) ≡ some (bytes_of (g ∷ gs))
text_of-parse g gs h l =
    let (c, s, e, hex) = text_of-start g gs h.0 in
    ap parse_v6 e
    ∙ parse_v6-start c s hex
    ∙ ap (v6_groups 8 [] none) (sym e)
    ∙ v6_groups-text 7 [] none g gs h (omega arith)
    ∙ fill_gap-none (bytes_of (g ∷ gs)) (omega (arith, length-bytes_of gs))

gap-bytes :
    (front back : List ℕ) (n : ℕ)
    → length front + n + length back ≡ 8
    → 0 < n
    → fill_gap (bytes_of front ++ bytes_of back) (some (length (bytes_of front)))
      ≡ some (bytes_of (front ++ (zeros n ++ back)))
gap-bytes front back n l p =
    fill_gap-zeros (bytes_of front) (bytes_of back) (n + n)
      (omega (arith, length-bytes_of front, length-bytes_of back)) (omega arith)
    ∙ ap (λ t. some (bytes_of front ++ (t ++ bytes_of back))) (sym (bytes_of-zeros n))
    ∙ ap (λ t. some (bytes_of front ++ t)) (sym (bytes_of-append (zeros n) back))
    ∙ ap some (sym (bytes_of-append front (zeros n ++ back)))

zero-parse : parse_v6 (text_of [] ++ (b':' ∷ b':' ∷ text_of [])) ≡ some (bytes_of (zeros 8 ++ []))
unfolding parse_v6 join
zero-parse = refl

parse_v6-gap :
    (c : ℕ) (s : Bytes)
    → parse_v6 (text_of [] ++ (b':' ∷ b':' ∷ c ∷ s)) ≡ v6_groups 8 [] (some 0) (c ∷ s)
unfolding parse_v6 join
parse_v6-gap c s = refl

gap-parse :
    (front back : List ℕ) (n : ℕ)
    → All IsGroup front
    → All IsGroup back
    → length front + n + length back ≡ 8
    → 0 < n
    → parse_v6 (text_of front ++ (b':' ∷ b':' ∷ text_of back))
      ≡ some (bytes_of (front ++ (zeros n ++ back)))
gap-parse [] [] n hf hb l p =
    let eight : 8 ≡ n = omega arith in zero-parse ∙ ap (λ k. some (bytes_of (zeros k ++ []))) eight
gap-parse [] (g ∷ gs) n hf hb l p =
    let (c, s, e, hex) = text_of-start g gs hb.0 in
    ap (λ t. parse_v6 (text_of [] ++ (b':' ∷ b':' ∷ t))) e
    ∙ parse_v6-gap c s
    ∙ ap (v6_groups 8 [] (some 0)) (sym e)
    ∙ v6_groups-text 7 [] (some 0) g gs hb (omega arith)
    ∙ gap-bytes [] (g ∷ gs) n l p
gap-parse (g ∷ gs) back n hf hb l p =
    let (c, s, e, hex) = text_of-start g gs hf.0 in
    let tail = b':' ∷ b':' ∷ text_of back in
    ap (λ t. parse_v6 (t ++ tail)) e
    ∙ parse_v6-start c (s ++ tail) hex
    ∙ ap (λ t. v6_groups 8 [] none (t ++ tail)) (sym e)
    ∙ v6_groups-gap 7 [] g gs back hf hb (omega arith)
    ∙ gap-bytes (g ∷ gs) back n l p

All-zeros :
    (n : ℕ) (front back : List ℕ)
    → All IsGroup (front ++ (zeros n ++ back))
    → All IsGroup front × All IsGroup back
All-zeros zero [] back h = (tt, h)
All-zeros (suc n) [] back h = (tt, (All-zeros n [] back h.1).1)
All-zeros n (g ∷ front) back h = let (hf, hb) = All-zeros n front back h.1 in ((h.0, hf), hb)

drop-run :
    (front back : List ℕ) (n : ℕ) → drop (length front + n) (front ++ (zeros n ++ back)) ≡ back
drop-run front back n =
    let same : length front + n ≡ length (front ++ zeros n) =
      omega (arith, length-append front (zeros n), length-zeros n) in
    rw (same, ← append_assoc front (zeros n) back) (drop-append (front ++ zeros n) back)

run-length :
    (front back : List ℕ) (n : ℕ)
    → length (front ++ (zeros n ++ back)) ≡ length front + n + length back
run-length front back n =
    omega
      (arith, length-append front (zeros n ++ back), length-append (zeros n) back, length-zeros n)

run-parse :
    (front back : List ℕ) (n : ℕ)
    → 0 < n
    → All IsGroup (front ++ (zeros n ++ back))
    → length (front ++ (zeros n ++ back)) ≡ 8
    → parse_v6 (printed (front ++ (zeros n ++ back)) (length front, n))
      ≡ some (bytes_of (front ++ (zeros n ++ back)))
run-parse front back n p h l =
    let (hf, hb) = All-zeros n front back h in
    let some_zeros : (n == 0) ≡ false = ground arith in
    rw (some_zeros, take-append front (zeros n ++ back), drop-run front back n)
      (gap-parse front back n hf hb (omega (arith, run-length front back n)) p)

pub printed-parse :
    (gs : List ℕ) (start n : ℕ)
    → IsRun gs (start, n)
    → All IsGroup gs
    → length gs ≡ 8
    → parse_v6 (printed gs (start, n)) ≡ some (bytes_of gs)
printed-parse [] start n r h l = absurd (omega arith)
printed-parse (g ∷ gs) start n (inl e) h l = rw e (text_of-parse g gs h (omega arith))
printed-parse (g ∷ gs) start n (inr (front, back, e, f, p)) h l =
    subst
      (λ gs'.
        All IsGroup gs' → length gs' ≡ 8 → parse_v6 (printed gs' (start, n)) ≡ some (bytes_of gs'))
      (sym e) (λ h' l'. rw (← f) (run-parse front back n p h' l')) h l
