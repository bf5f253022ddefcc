-- ===== src/Upstream/Parallel/Totals.antt =====
-- Sums over the goroutines of a race.
use rr_dns.Prelude.{ℕ, ◌+◌, ◌*◌, ◌≤◌, List, [], ◌∷◌, ◌++◌, length, ◌≡◌, arith}
use rr_dns.Prelude.Bytes.{Bytes}
use rr_dns.Upstream.Parallel.{
  Status, running, error_sent, error_received, error_dropped, had_answers, launch, received,
}

unfoldable pub total : (Status → ℕ) → List (Bytes × Status) → ℕ
total f [] = 0
total f ((s, st) ∷ cells) = f st + total f cells

total-append :
    (f : Status → ℕ) (before after : List (Bytes × Status))
    → total f (before ++ after) ≡ total f before + total f after
unfolding total
total-append f [] after = omega arith
total-append f ((s, st) ∷ before) after = omega (arith, total-append f before after)

pub total-replace :
    (f : Status → ℕ) (before after : List (Bytes × Status)) (s : Bytes) (u v : Status)
    → total f (before ++ (s, u) ∷ after) + f v ≡ total f (before ++ (s, v) ∷ after) + f u
unfolding total
total-replace f before after s u v =
    omega (arith, total-append f before ((s, u) ∷ after), total-append f before ((s, v) ∷ after))

pub total-launch :
    (f : Status → ℕ) (servers : List Bytes) → total f (launch servers) ≡ f running * length servers
unfolding total launch
total-launch f [] = omega arith
total-launch f (s ∷ ss) = grind (arith, total-launch f ss)

-- Whether a goroutine had answers.
abbrev pub heard : Status → ℕ
heard had_answers = 1
heard _ = 0

pub received-heard :
    (cells : List (Bytes × Status)) → received cells + total heard cells ≤ length cells
unfolding received total
received-heard [] = omega arith
received-heard ((s, running) ∷ cells) = omega (arith, received-heard cells)
received-heard ((s, error_sent) ∷ cells) = omega (arith, received-heard cells)
received-heard ((s, error_received) ∷ cells) = omega (arith, received-heard cells)
received-heard ((s, error_dropped) ∷ cells) = omega (arith, received-heard cells)
received-heard ((s, had_answers) ∷ cells) = omega (arith, received-heard cells)
