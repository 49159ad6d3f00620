-- ===== src/Round/Merge/Here.antt =====
-- What a round of crates/rowd-core/src/sync.rs does with one path, where it returns.
use rowd.Base.{
  ℕ, Text, lookup, text_eq_iff, Option, some, [], ◌∷◌, ◌++◌, All-map, All-append, ◌≡◌, refl, sym,
  ◌∙◌,
}
use rowd.Model.{Entry}
use rowd.Round.{Round, PendingPut, PendingGet}
use rowd.Round.Merge.Due.{due, due-append, due_foreign, Only}
use rowd.Round.Merge.Track.{Now, put_path, get_path}

module _ (q : Text) where
  -- No transfer of `q` is under way, and the devices and the base hold `x`, `y` and `c`.
  pub record Free (x y : Option Entry) (c : Option Text) (r : Round) : Type 0 where
    pub local : lookup q r.local ≡ x
    pub peer : lookup q r.peer ≡ y
    pub base : lookup q r.base ≡ c
    pub puts : Only put_path (λ j. j.entry) q (λ e. ⊥) r.pending_puts
    pub gets : Only get_path (λ j. j.entry) q (λ e. ⊥) r.pending_gets

  module _ {x y : Option Entry} {c : Option Text} where
    pub Now→Free : (r : Round) → Now q ⊥ x y c r → Free x y c r
    Now→Free r h =
        let puts = All-map (λ j o e. (o e).0) r.pending_puts h.puts_owed in
        let gets = All-map (λ j o e. (o e).0) r.pending_gets h.gets_owed in
        record {
          local = sym (due_foreign _ _ q r.pending_gets _ gets) ∙ h.local;
          peer = sym (due_foreign _ _ q r.pending_puts _ puts) ∙ h.peer;
          base =
              sym (due_foreign put_path (λ j. j.entry.hash) q r.pending_puts _ puts)
              ∙ sym (due_foreign get_path (λ j. j.entry.hash) q r.pending_gets _ gets)
              ∙ h.base;
          puts = puts;
          gets = gets;
        }

    -- A `Put` or a `Get` of `q` joins its window.
    pub put-Now :
        (job : PendingPut) (r : Round) (bytes : ℕ)
        → job.path ≡ q
        → Free x y c r
        → Now q Unit x
            (some job.entry)
            (some job.entry.hash)
            (record r { pending_puts = r.pending_puts ++ job ∷ []; put_bytes = bytes })
    unfolding due
    put-Now job r bytes e h = record {
      local = due_foreign _ _ q r.pending_gets _ h.gets ∙ h.local;
      peer =
          rw
            (
              due-append put_path (λ j. j.entry) q r.pending_puts (job ∷ []) (lookup q r.peer),
              (text_eq_iff job.path q).1 e,
            )
            refl;
      base =
          rw
            (
              due-append put_path (λ j. j.entry.hash) q r.pending_puts (job ∷ []) (lookup q r.base),
              (text_eq_iff job.path q).1 e,
            )
            (due_foreign get_path (λ j. j.entry.hash) q r.pending_gets _ h.gets);
      puts_owed =
          All-append _ r.pending_puts (job ∷ [])
            (All-map (λ j o e. absurd (o e)) r.pending_puts h.puts) (λ _. (tt, refl), tt);
      gets_owed = All-map (λ j o e. absurd (o e)) r.pending_gets h.gets;
      puts_are = refl;
      gets_are = refl;
    }

    pub get-Now :
        (job : PendingGet) (r : Round) (bytes : ℕ)
        → job.path ≡ q
        → Free x y c r
        → Now q Unit
            (some job.entry)
            y
            (some job.entry.hash)
            (record r { pending_gets = r.pending_gets ++ job ∷ []; get_bytes = bytes })
    unfolding due
    get-Now job r bytes e h = record {
      local =
          rw
            (
              due-append get_path (λ j. j.entry) q r.pending_gets (job ∷ []) (lookup q r.local),
              (text_eq_iff job.path q).1 e,
            )
            refl;
      peer = due_foreign _ _ q r.pending_puts _ h.puts ∙ h.peer;
      base =
          rw
            (
              due-append get_path (λ j. j.entry.hash) q r.pending_gets (job ∷ [])
                  (due put_path (λ j. j.entry.hash) q r.pending_puts (lookup q r.base)),
              (text_eq_iff job.path q).1 e,
            )
            refl;
      puts_owed = All-map (λ j o e. absurd (o e)) r.pending_puts h.puts;
      gets_owed =
          All-append _ r.pending_gets (job ∷ [])
            (All-map (λ j o e. absurd (o e)) r.pending_gets h.gets) (λ _. (tt, refl), tt);
      puts_are = refl;
      gets_are = refl;
    }

    pub Free→Now : (r : Round) → Free x y c r → Now q Unit x y c r
    Free→Now r h = record {
      local = due_foreign _ _ q r.pending_gets _ h.gets ∙ h.local;
      peer = due_foreign _ _ q r.pending_puts _ h.puts ∙ h.peer;
      base =
          due_foreign get_path (λ j. j.entry.hash) q r.pending_gets _ h.gets
          ∙ due_foreign put_path (λ j. j.entry.hash) q r.pending_puts _ h.puts
          ∙ h.base;
      puts_owed = All-map (λ j o e. absurd (o e)) r.pending_puts h.puts;
      gets_owed = All-map (λ j o e. absurd (o e)) r.pending_gets h.gets;
      puts_are = refl;
      gets_are = refl;
    }
