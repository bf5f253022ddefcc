-- ===== src/Rdata/Encode/Runs.antt =====
-- The run of groups of 0 that `IP.String` replaces by "::".
use rr_dns.Prelude.{
  ℕ, ◌+◌, ◌<◌, ltb, leb, ◌==◌, ◌&&◌, List, [], ◌∷◌, ◌++◌, length, drop, ◌≡◌, refl, ap, sym, ◌∙◌,
  arith, append_assoc, length-append, inl, inr, ◌⊎◌, Bool-cases, suc,
}
use rr_dns.Rdata.Address.{zero_run, longest_run}
use rr_dns.Rdata.Address.Parse.{zeros}

cons-drop :
    (g n m : ℕ) (gs : List ℕ)
    → g ≡ 0
    → n ≡ suc m
    → gs ≡ zeros m ++ drop m gs
    → g ∷ gs ≡ zeros n ++ drop n (g ∷ gs)
cons-drop g n m gs z e h = rw (e, z) (ap (◌∷◌ 0) h)

zero_run-split : (gs : List ℕ) → gs ≡ zeros (zero_run gs) ++ drop (zero_run gs) gs
unfolding zero_run
zero_run-split [] = refl
zero_run-split (g ∷ gs) = elim (Bool-cases (g == 0)) [
  | inl e ↦
      cons-drop g (zero_run (g ∷ gs)) (zero_run gs) gs (ground arith) (ground arith)
        (zero_run-split gs)
  | inr e ↦ rw e refl
]

-- A start and a length that are those of a run of groups of 0, if the length is not 0.
abbrev pub IsRun : List ℕ → ℕ × ℕ → Type 0
IsRun full (start, n) =
    (n ≡ 0)
    ⊎ ((front back : List ℕ) × (full ≡ front ++ (zeros n ++ back))
        × (length front ≡ start)
        × (0 < n))

longest_run-IsRun_from :
    (full front gs : List ℕ) (i : ℕ) (best : ℕ × ℕ)
    → full ≡ front ++ gs
    → length front ≡ i
    → IsRun full best
    → IsRun full (longest_run gs i best)
unfolding longest_run
longest_run-IsRun_from full front [] i best e l h = h
longest_run-IsRun_from full front (g ∷ gs) i (start, n) e l h =
    let further = e ∙ sym (append_assoc front (g ∷ []) gs) in
    let next = length-append front (g ∷ []) in
    elim (Bool-cases (leb 2 (zero_run (g ∷ gs)) && ltb n (zero_run (g ∷ gs)))) [
      | inl better ↦ rw better (
          longest_run-IsRun_from full (front ++ g ∷ []) gs (i + 1) (i, zero_run (g ∷ gs)) further
            (omega arith)
            (inr (
              front,
              drop (zero_run (g ∷ gs)) (g ∷ gs),
              e ∙ ap (λ t. front ++ t) (zero_run-split (g ∷ gs)),
              l,
              ground arith,
            )))
      | inr same ↦ rw same (
          longest_run-IsRun_from full (front ++ g ∷ []) gs (i + 1) (start, n) further (omega arith)
            h)
    ]

pub longest_run-IsRun : (gs : List ℕ) → IsRun gs (longest_run gs 0 (0, 0))
longest_run-IsRun gs = longest_run-IsRun_from gs [] gs 0 (0, 0) refl refl (inl refl)
