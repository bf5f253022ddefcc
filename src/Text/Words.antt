-- ===== src/Text/Words.antt =====
-- Laws of `fields_by`: words, and separators between them.
use rr_dns.Prelude.{ℕ, List, [], ◌∷◌, ◌++◌, Bool, true, false, is_empty, All, ◌≡◌, refl, arith}
use rr_dns.Prelude.Bytes.{Bytes}
use rr_dns.Text.{is_space, join, trim_space}
use rr_dns.Text.Trim.{
  EndsOutside, StartsOutside, trim_right-EndsOutside_self, trim_left-StartsOutside_self,
}
use rr_dns.Text.Fields.{fields_by}

-- A text with a byte, of which no byte is a separator.
abbrev pub IsWord : (ℕ → Bool) → Bytes → Type 0
IsWord p w = (is_empty w ≡ false) × All (λ c. p c ≡ false) w

module _ (p : ℕ → Bool) where
  pub fields_by-append :
      (w s : Bytes) (c : ℕ) → IsWord p w → p c ≡ true → fields_by p (w ++ c ∷ s) ≡ w ∷ fields_by p s
  unfolding fields_by
  fields_by-append [] s c h sep = absurd (ground (arith, h.0))
  fields_by-append (x ∷ []) s c h sep = ground (arith, h.1.0)
  fields_by-append (x ∷ y ∷ w) s c h sep =
      rw (h.1.0, fields_by-append (y ∷ w) s c (refl, h.1.1) sep, h.1.1.0) refl

  pub fields_by-word : (w : Bytes) → IsWord p w → fields_by p w ≡ w ∷ []
  unfolding fields_by
  fields_by-word [] h = absurd (ground (arith, h.0))
  fields_by-word (x ∷ []) h = ground (arith, h.1.0)
  fields_by-word (x ∷ y ∷ w) h = rw (h.1.0, fields_by-word (y ∷ w) (refl, h.1.1), h.1.1.0) refl

  -- Words with a separator between each two are the fields of the text.
  pub fields_by-join :
      (c : ℕ) (ws : List Bytes)
      → p c ≡ true
      → All (IsWord p) ws
      → fields_by p (join (c ∷ []) ws) ≡ ws
  unfolding join
  fields_by-join c [] sep h = unfold fields_by in refl
  fields_by-join c (w ∷ []) sep h = fields_by-word w h.0
  fields_by-join c (w ∷ v ∷ ws) sep h =
      rw (fields_by-append w (join (c ∷ []) (v ∷ ws)) c h.0 sep, fields_by-join c (v ∷ ws) sep h.1)
        refl

pub trim_space_self :
    (s : Bytes) → StartsOutside is_space s → EndsOutside is_space s → trim_space s ≡ s
unfolding trim_space
trim_space_self s a b =
    rw (trim_left-StartsOutside_self is_space s a, trim_right-EndsOutside_self is_space s b)
