-- ===== src/Config/Env.antt =====
-- Lists in environment variables.
use rr_dns.Prelude.{
  append-nil, if◌then◌else◌, ℕ, List, [], ◌∷◌, ◌++◌, ◌||◌, Bool, true, false, is_empty, All, ◌≡◌,
  refl, arith, inl, inr, ◌⊎◌, ap,
}
use rr_dns.Prelude.Bytes.{Bytes}
use rr_dns.Text.{is_space, join, trim_space, trim_left, trim_right}
use rr_dns.Text.Trim.{EndsOutside, StartsOutside, All-EndsOutside}
use rr_dns.Text.Words.{IsWord, fields_by-join, trim_space_self}
use rr_dns.Text.Fields.{fields_by}
use rr_dns.Config.{contains, is_separator, Setting, one, many, transform_value}

-- A text with a byte, and without white space and commas.
abbrev pub IsItem : Bytes → Type 0
IsItem w = (is_empty w ≡ false) × All (λ c. (is_space c ≡ false) × (is_separator c ≡ false)) w

-- What a list is read as: a single item as a text.
abbrev pub setting_of : List Bytes → Setting
setting_of [] = one []
setting_of (w ∷ []) = one w
setting_of (w ∷ v ∷ ws) = many (w ∷ v ∷ ws)

spaceless :
    (w : Bytes)
    → All (λ c. (is_space c ≡ false) × (is_separator c ≡ false)) w
    → All (λ c. is_space c ≡ false) w
spaceless [] h = tt
spaceless (c ∷ w) h = (h.0.0, spaceless w h.1)

words : (ws : List Bytes) → All IsItem ws → All (IsWord is_separator) ws
words [] h = tt
words (w ∷ ws) h = ((h.0.0, separated w h.0.1), words ws h.1)
  where
    separated :
        (w : Bytes)
        → All (λ c. (is_space c ≡ false) × (is_separator c ≡ false)) w
        → All (λ c. is_separator c ≡ false) w
    separated [] h = tt
    separated (c ∷ w) h = (h.0.1, separated w h.1)

contains-separator :
    (w s : Bytes) (c : ℕ)
    → is_separator c ≡ true
    → (contains b' ' (w ++ c ∷ s) || contains b',' (w ++ c ∷ s)) ≡ true
unfolding contains
contains-separator [] s c h = ground arith
contains-separator (d ∷ w) s c h = ground (arith, contains-separator w s c h)

contains-item :
    (w : Bytes)
    → All (λ c. (is_space c ≡ false) × (is_separator c ≡ false)) w
    → (contains b' ' w || contains b',' w) ≡ false
unfolding contains
contains-item [] h = refl
contains-item (d ∷ w) h = ground (arith, contains-item w h.1, h.0.1)

StartsOutside-append :
    (w s : Bytes) → IsItem w → StartsOutside is_space (w ++ s) × (is_empty (w ++ s) ≡ false)
StartsOutside-append [] s h = absurd (ground (arith, h.0))
StartsOutside-append (c ∷ w) s h = (h.1.0.0, refl)

EndsOutside-append :
    (p : ℕ → Bool) (w s : Bytes) → is_empty s ≡ false → EndsOutside p s → EndsOutside p (w ++ s)
EndsOutside-append p [] s h e = e
EndsOutside-append p (c ∷ []) [] h e = absurd (ground arith)
EndsOutside-append p (c ∷ []) (d ∷ s) h e = e
EndsOutside-append p (c ∷ b ∷ w) s h e = EndsOutside-append p (b ∷ w) s h e

joined :
    (c : ℕ) (w : Bytes) (ws : List Bytes)
    → All IsItem (w ∷ ws)
    → (is_empty (join (c ∷ []) (w ∷ ws)) ≡ false)
      × StartsOutside is_space (join (c ∷ []) (w ∷ ws))
      × EndsOutside is_space (join (c ∷ []) (w ∷ ws))
unfolding join
joined c w [] h =
    let (starts, filled) = StartsOutside-append w [] h.0 in
    (h.0.0, rw append-nil at starts, All-EndsOutside is_space w (spaceless w h.0.1))
joined c w (v ∷ ws) h =
    let (starts, filled) = StartsOutside-append w (c ∷ join (c ∷ []) (v ∷ ws)) h.0 in
    let (more, _, ends) = joined c v ws h.1 in
    (
      filled,
      starts,
      EndsOutside-append is_space w (c ∷ join (c ∷ []) (v ∷ ws)) refl
          (EndsOutside-append is_space (c ∷ []) (join (c ∷ []) (v ∷ ws)) more ends),
    )

is_separator_of : (c : ℕ) → (c ≡ b' ') ⊎ (c ≡ b',') → is_separator c ≡ true
is_separator_of c (inl e) = rw e
is_separator_of c (inr e) = rw e

-- Items joined by blanks, or by commas, are read as the list of the items if they are at
-- least two, and as a text if there is only one or none; nothing is lost at the ends.
pub transform_value-join :
    (c : ℕ) (ws : List Bytes)
    → (c ≡ b' ') ⊎ (c ≡ b',')
    → All IsItem ws
    → transform_value (join (c ∷ []) ws) ≡ setting_of ws
unfolding transform_value
transform_value-join c [] sep h = unfold join trim_space trim_left trim_right in refl
transform_value-join c (w ∷ ws) sep h =
    let (filled, starts, ends) = joined c w ws h in
    let trimmed = trim_space_self (join (c ∷ []) (w ∷ ws)) starts ends in
    rw trimmed (rw filled (read ws h))
  where
    text : List Bytes → Bytes
    text vs = join (c ∷ []) (w ∷ vs)

    read :
        (vs : List Bytes)
        → All IsItem (w ∷ vs)
        → (if contains b' ' (text vs) || contains b',' (text vs)
            then many (fields_by is_separator (text vs))
            else one (text vs))
          ≡ setting_of (w ∷ vs)
    read [] k = unfold join in rw (contains-item w k.0.1) refl
    read (v ∷ vs) k =
        let listed : (contains b' ' (text (v ∷ vs)) || contains b',' (text (v ∷ vs))) ≡ true =
          unfold join in contains-separator w (join (c ∷ []) (v ∷ vs)) c (is_separator_of c sep) in
        rw listed (
          ap many (
            fields_by-join is_separator c (w ∷ v ∷ vs) (is_separator_of c sep)
              (words (w ∷ v ∷ vs) k)))
