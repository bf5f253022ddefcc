-- ===== src/Text/Split.antt =====
-- Laws of `split` and `join`.
use rr_dns.Prelude.{ℕ, [], ◌∷◌, ◌++◌, List, ◌≡◌, ◌≢◌, refl, ◌∙◌, arith, All, ap}
use rr_dns.Prelude.Bytes.{Bytes, Lacks}
use rr_dns.Text.{split, join, cons_first}

pub split-ne-nil : (sep : ℕ) (s : Bytes) → split sep s ≢ []
unfolding split
split-ne-nil sep [] h = cc
split-ne-nil sep (c ∷ s) h = ground (arith, split-ne-nil sep s)

join-cons_first :
    (sep : Bytes) (c : ℕ) (ps : List Bytes) → ps ≢ [] → join sep (cons_first c ps) ≡ c ∷ join sep ps
unfolding join
join-cons_first sep c [] h = absurd (h refl)
join-cons_first sep c (p ∷ []) h = refl
join-cons_first sep c (p ∷ q ∷ ps) h = refl

join-nil_cons : (sep : Bytes) (ps : List Bytes) → ps ≢ [] → join sep ([] ∷ ps) ≡ sep ++ join sep ps
unfolding join
join-nil_cons sep [] h = absurd (h refl)
join-nil_cons sep (p ∷ ps) h = refl

-- The parts joined by the separator are the text.
pub join-split : (sep : ℕ) (s : Bytes) → join (sep ∷ []) (split sep s) ≡ s
unfolding split
join-split sep [] = unfold join in refl
join-split sep (c ∷ s) = ground (
  arith,
  join-split sep s,
  join-cons_first (sep ∷ []) c (split sep s) (split-ne-nil sep s),
  join-nil_cons (sep ∷ []) (split sep s) (split-ne-nil sep s),
)

pub split-append :
    (sep : ℕ) (p s : Bytes) → Lacks sep p → split sep (p ++ sep ∷ s) ≡ p ∷ split sep s
unfolding split
split-append sep [] s h = ground arith
split-append sep (c ∷ p) s (hc, h) = ground (arith, split-append sep p s h)

pub split-single : (sep : ℕ) (p : Bytes) → Lacks sep p → split sep p ≡ p ∷ []
unfolding split
split-single sep [] h = refl
split-single sep (c ∷ p) (hc, h) = ground (arith, split-single sep p h)

-- One or more parts without the separator are given back by splitting their join.
pub split-join :
    (sep : ℕ) (ps : List Bytes) → ps ≢ [] → All (Lacks sep) ps → split sep (join (sep ∷ []) ps) ≡ ps
unfolding join
split-join sep [] h _ = absurd (h refl)
split-join sep (p ∷ []) _ (hp, _) = split-single sep p hp
split-join sep (p ∷ q ∷ ps) _ (hp, hs) =
    split-append sep p _ hp ∙ ap (◌∷◌ p) (split-join sep (q ∷ ps) (cc) hs)
