-- ===== src/Upstream/Parallel/Invariant.antt =====
-- What holds in every state of a race.
use rr_dns.Prelude.{
  Bool, true, false, ℕ, ◌≤◌, ◌<◌, List, [], ◌∷◌, ◌++◌, length, Option, none, some, Result, ok, err,
  Error, ◌≡◌, refl, sym, ap, ◌∙◌, All, arith,
}
use rr_dns.Prelude.Bytes.{Bytes}
use rr_dns.Domain.Record.{ResourceRecord}
use rr_dns.Upstream.Parallel.{
  Status, running, error_sent, error_received, error_dropped, had_answers, Race, launch, Step,
  fails, interrupted, drops, answers_first, answers_late, receives, expires, Reachable, launched,
  next,
}
use rr_dns.Upstream.Parallel.Totals.{total, heard, total-replace}

unfoldable pub names : List (Bytes × Status) → List Bytes
names [] = []
names ((s, st) ∷ cells) = s ∷ names cells

names-launch : (servers : List Bytes) → names (launch servers) ≡ servers
unfolding names launch
names-launch [] = refl
names-launch (s ∷ ss) = ap (λ xs. s ∷ xs) (names-launch ss)

names-append :
    (before after : List (Bytes × Status)) → names (before ++ after) ≡ names before ++ names after
unfolding names
names-append [] after = refl
names-append ((s, st) ∷ before) after = ap (λ xs. s ∷ xs) (names-append before after)

pub length-names : (cells : List (Bytes × Status)) → length (names cells) ≡ length cells
unfolding names
length-names [] = refl
length-names ((s, st) ∷ cells) = omega (arith, length-names cells)

some-ok : {a b : List ResourceRecord} → some a ≡ some b → ok a ≡ ok b
some-ok x = ground arith

-- No goroutine has had answers.
abbrev pub Quiet : Bytes × Status → Type 0
Quiet (s, running) = Unit
Quiet (s, error_sent) = Unit
Quiet (s, error_received) = Unit
Quiet (s, error_dropped) = Unit
Quiet (s, had_answers) = ⊥

launch-Quiet : (servers : List Bytes) → All Quiet (launch servers)
unfolding launch
launch-Quiet [] = tt
launch-Quiet (s ∷ ss) = (tt, launch-Quiet ss)

-- The state of one goroutine is replaced.
All-replace :
    (P : Bytes × Status → Type 0) (before after : List (Bytes × Status)) (c d : Bytes × Status)
    → (P c → P d)
    → All P (before ++ c ∷ after)
    → All P (before ++ d ∷ after)
All-replace P [] after c d h (x, xs) = (h x, xs)
All-replace P (b ∷ before) after c d h (x, xs) = (x, All-replace P before after c d h xs)

names-replace :
    (before after : List (Bytes × Status)) (s : Bytes) (u v : Status)
    → names (before ++ (s, u) ∷ after) ≡ names (before ++ (s, v) ∷ after)
unfolding names
names-replace before after s u v =
    names-append before ((s, u) ∷ after) ∙ sym (names-append before ((s, v) ∷ after))

module _ (ask : Bytes → Result (List ResourceRecord)) where
  abbrev pub Fails : Bytes → Type 0
  Fails s = (e : Error) × (ask s ≡ err e)

  -- A server of the list gave the answers.
  abbrev pub AnsweredBy : List Bytes → List ResourceRecord → Type 0
  AnsweredBy servers answers =
      (before : List Bytes) × (s : Bytes) × (after : List Bytes) × (servers ≡ before ++ s ∷ after)
      × (ask s ≡ ok answers)

  -- What is known of a goroutine before the context is done.
  abbrev pub Fair : Bytes × Status → Type 0
  Fair (s, running) = Unit
  Fair (s, error_sent) = Fails s
  Fair (s, error_received) = Fails s
  Fair (s, error_dropped) = ⊥
  Fair (s, had_answers) = Unit

  launch-Fair : (servers : List Bytes) → All Fair (launch servers)
  unfolding launch
  launch-Fair [] = tt
  launch-Fair (s ∷ ss) = (tt, launch-Fair ss)

  pub record Fairly (servers : List Bytes) (st : Race) : Type 0 where
    pub in_order : names st.cells ≡ servers
    pub fair : st.expired ≡ false → All Fair st.cells
    pub honest :
        (answers : List ResourceRecord) → st.response ≡ some answers → AnsweredBy servers answers
    pub quiet : st.response ≡ none → All Quiet st.cells
    pub loud :
        (answers : List ResourceRecord) → st.response ≡ some answers → 0 < total heard st.cells

  -- A goroutine goes on, and the response channel stays as it is.
  move-Fairly :
      (servers : List Bytes) (before after : List (Bytes × Status)) (s : Bytes) (u v : Status)
      (r : Option (List ResourceRecord)) (x : Bool)
      → (x ≡ false → Fair (s, u) → Fair (s, v))
      → (r ≡ none → Quiet (s, u) → Quiet (s, v))
      → heard u ≤ heard v
      → Fairly servers (record { cells = before ++ (s, u) ∷ after; response = r; expired = x })
      → Fairly servers (record { cells = before ++ (s, v) ∷ after; response = r; expired = x })
  move-Fairly servers before after s u v r x f g le h = record {
    in_order = names-replace before after s v u ∙ h.in_order;
    fair = λ e. All-replace Fair before after (s, u) (s, v) (f e) (h.fair e);
    honest = h.honest;
    quiet = λ e. All-replace Quiet before after (s, u) (s, v) (g e) (h.quiet e);
    loud = λ held e. omega (arith, h.loud held e, total-replace heard before after s u v);
  }

  Step-Fairly :
      (servers : List Bytes) {st st' : Race}
      → Step ask st st'
      → Fairly servers st
      → Fairly servers st'
  unfolding names
  Step-Fairly servers (fails before after s e r x p v) h =
      move-Fairly servers before after s running error_sent r x (λ _ _. (e, p)) (λ _ y. y)
        (omega arith) h
  Step-Fairly servers (interrupted before after s r) h =
      move-Fairly servers before after s running error_sent r true (λ e. absurd (ground arith))
        (λ _ y. y) (omega arith) h
  Step-Fairly servers (drops before after s r) h =
      move-Fairly servers before after s running error_dropped r true (λ e. absurd (ground arith))
        (λ _ y. y) (omega arith) h
  Step-Fairly servers (answers_first before after s answers x p) h = record {
    in_order = names-replace before after s had_answers running ∙ h.in_order;
    fair = λ e. All-replace Fair before after (s, running) (s, had_answers) (λ _. tt) (h.fair e);
    honest = λ held y. (
      names before,
      s,
      names after,
      sym h.in_order ∙ names-append before ((s, running) ∷ after),
      p ∙ some-ok y,
    );
    quiet = λ e. absurd (ground arith);
    loud = λ held y. omega (arith, total-replace heard before after s running had_answers);
  }
  Step-Fairly servers (answers_late before after s answers held x p) h =
      move-Fairly servers before after s running had_answers (some held) x (λ _ _. tt)
        (λ e. absurd (ground arith)) (omega arith) h
  Step-Fairly servers (receives before after s r x) h =
      move-Fairly servers before after s error_sent error_received r x (λ _ y. y) (λ _ y. y)
        (omega arith) h
  Step-Fairly servers (expires cells r) h = record {
    in_order = h.in_order;
    fair = λ e. absurd (ground arith);
    honest = h.honest;
    quiet = h.quiet;
    loud = h.loud;
  }

  pub Reachable-Fairly :
      (servers : List Bytes) {n : ℕ} {st : Race} → Reachable ask servers n st → Fairly servers st
  Reachable-Fairly servers launched = record {
    in_order = names-launch servers;
    fair = λ e. launch-Fair servers;
    honest = λ answers x. absurd (ground arith);
    quiet = λ x. launch-Quiet servers;
    loud = λ answers x. absurd (ground arith);
  }
  Reachable-Fairly servers (next _ _ _ reach step) =
      Step-Fairly servers step (Reachable-Fairly servers reach)
