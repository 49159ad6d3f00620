-- ===== src/Ignore/Wildcard/Exact.antt =====
-- The loop of `wildcard` in crates/rowd-core/src/ignore.rs against what a rule means.
use rowd.Base.{
  ℕ, zero, suc, ◌+◌, ◌<◌, Text, Option, none, some, Bool, true, false, ◌==◌, [], ◌∷◌, length, All,
  if◌then◌else◌, ◌≡◌, ◌≢◌, ◌↔◌, refl, sym, ◌∙◌, arith,
}
use rowd.Ignore.Wildcard.Loop.{star, Back, only_stars, go_back, scan, wildcard}
use rowd.Ignore.Wildcard.Termination.{Fuel, Fuel-byte, Fuel-star}
use rowd.Ignore.Wildcard.Glob.{
  Glob, Later, Later→Glob, only_stars→Glob, Glob→only_stars, Glob-byte, Later-byte, Later-star,
  Later-next, Later-end, byte, now, skip,
}

abbrev pub StarFree : Text → Type 0
StarFree t = All (λ c. c ≢ star) t

-- What the loop knows of the question `G` at a position: a match here settles it, and with a star
-- behind, a position further on is all that is left.
Saved : Type 0 → Text → Text → Back → Type 0
Saved G p t none = G → Glob p t
Saved G p t (some (bp, bt)) =
    ((Later bp bt → G) × (G → Later bp bt)) × (Glob bp bt → Glob p t) × StarFree bt

record Inv (G : Type 0) (p t : Text) (back : Back) : Type 0 where
  here : Glob p t → G
  later : G → Later p t
  saved : Saved G p t back

Answers : Type 0 → Option Bool → Type 0
Answers G r = (b : Bool) × (r ≡ some b) × ((b ≡ true) ↔ G)

-- What a call of the loop on that much fuel answers.
Scans : Type 0 → ℕ → Type 0
Scans G f =
    (k : ℕ) (q u : Text) (b : Back)
    → Inv G q u b
    → StarFree u
    → length q < k
    → Fuel f k q u b
    → Answers G (scan f q u b)

if-Answers :
    (G : Type 0) (b : Bool) (r q : Option Bool)
    → (b ≡ true → Answers G r)
    → (b ≡ false → Answers G q)
    → Answers G (if b then r else q)
if-Answers G true r q on_true on_false = on_true refl
if-Answers G false r q on_true on_false = on_false refl

Saved-byte :
    (G : Type 0) {q u p t : Text} (back : Back)
    → (Glob q u → Glob p t)
    → Saved G q u back
    → Saved G p t back
unfolding Saved
Saved-byte G none f s = λ g. f (s g)
Saved-byte G (some (bp, bt)) f s = (s.0, λ g. f (s.1 g), s.2)

module _ {G : Type 0} where
  -- A byte that is in both.
  Inv-byte :
      {d c : ℕ} {p t : Text} (back : Back)
      → d ≡ c
      → c ≢ star
      → Inv G (d ∷ p) (c ∷ t) back
      → Inv G p t back
  Inv-byte {d} {c} {p} {t} back e m inv =
      let same : d ≢ star = λ q. m (sym e ∙ q) in
      record {
        here = λ g. inv.here (rw (sym e) (byte same g));
        later = λ g. Later-byte t same (inv.later g);
        saved = Saved-byte G back (λ g. (Glob-byte g same).1) inv.saved;
      }

  -- A star becomes the last one.
  Inv-star :
      (d : ℕ) (p t : Text) (back : Back)
      → d ≡ star
      → Inv G (d ∷ p) t back
      → StarFree t
      → Inv G p t (some (p, t))
  unfolding Saved
  Inv-star d p t back e inv free = record {
    here = λ g. inv.here (Later→Glob e (now g));
    later = λ g. Later-star e (inv.later g);
    saved = ((λ l. inv.here (Later→Glob e l), λ g. Later-star e (inv.later g)), λ g. g, free);
  }

  -- The next place for the last star, when here is no match.
  Inv-back :
      {p t bp bt : Text} {x : ℕ}
      → Inv G p t (some (bp, x ∷ bt))
      → ¬ Glob p t
      → Inv G bp bt (some (bp, bt))
  unfolding Saved
  Inv-back inv n =
      let nowhere : ¬ Glob _ _ = λ g. n (inv.saved.1 g) in
      record {
        here = λ g. inv.saved.0.0 (skip (now g));
        later = λ g. Later-next (inv.saved.0.1 g) nowhere;
        saved = (
          (λ l. inv.saved.0.0 (skip l), λ g. Later-next (inv.saved.0.1 g) nowhere),
          λ g. g,
          inv.saved.2.1,
        );
      }

module _ (G : Type 0) where
  -- No match here: the loop goes back to the last star, or there is no match.
  go_back-Answers :
      (f k : ℕ) (p : Text) (c : ℕ) (t : Text) (back : Back)
      → Inv G p (c ∷ t) back
      → ¬ Glob p (c ∷ t)
      → Fuel (suc f) k p (c ∷ t) back
      → Scans G f
      → Answers G (go_back back (scan f))
  unfolding go_back Saved Fuel Answers Scans
  go_back-Answers f k p c t none inv n h next =
      (false, refl, (ground arith, λ g. absurd (n (inv.saved g))))
  go_back-Answers f k p c t (some (bp, [])) inv n h next = absurd (omega arith)
  go_back-Answers f k p c t (some (bp, x ∷ bt)) inv n h next =
      next k bp bt (some (bp, bt)) (Inv-back inv n) inv.saved.2.1 h.2
        (omega arith, omega arith, h.2)

  answers : (f : ℕ) → Scans G f
  unfolding scan only_stars Saved Fuel Answers Scans
  answers zero k p t none inv free lt h = absurd (omega arith)
  answers zero k p t (some (bp, bt)) inv free lt h = absurd (omega arith)
  answers (suc f) k p [] back inv free lt h = (
    only_stars p,
    refl,
    (λ b. inv.here (only_stars→Glob p b), λ g. Glob→only_stars (Later-end (inv.later g))),
  )
  answers (suc f) k [] (c ∷ t) back inv free lt h =
      go_back-Answers f k [] c t back inv (λ g. elim g [ ]) h (answers f)
  answers (suc f) k (d ∷ p) (c ∷ t) back inv free lt h =
      if-Answers G (d == c) _ _
        (λ same.
          let e : d ≡ c = ground (arith, same) in
          answers f k p t back (Inv-byte back e free.0 inv) free.1 (omega arith)
            (Fuel-byte f k d c p t back h))
        (λ differ.
          if-Answers G (d == star) _ _
            (λ is_star.
              answers f k p (c ∷ t) (some (p, c ∷ t))
                (Inv-star d p (c ∷ t) back (ground (arith, is_star)) inv free) free (omega arith)
                (Fuel-star f k d p (c ∷ t) back lt h))
            (λ no_star.
              go_back-Answers f k (d ∷ p) c t back inv
                (λ g.
                  let e = Glob-byte g (λ q. ground (arith, no_star, q)) in
                  ground (arith, differ, e.0))
                h (answers f)))

-- `wildcard` always returns, and it returns `true` for exactly the texts that the rule means, as long
-- as the text has no star.
pub wildcard-decides_Glob :
    (pattern text : Text)
    → StarFree text
    → (b : Bool) × (wildcard pattern text ≡ some b) × ((b ≡ true) ↔ Glob pattern text)
unfolding wildcard Saved Fuel Answers Scans
wildcard-decides_Glob pattern text free =
    answers (Glob pattern text) _ (length pattern + 1) pattern text none
      (record { here = λ g. g; later = λ g. now g; saved = λ g. g }) free (omega arith)
      (omega arith)
