-- ===== src/Round/Edits.antt =====
-- The PC's own edits in a round of crates/rowd-core/src/sync.rs.
mod Transfers
mod Actions
use rowd.Base.{
  Text, Map, lookup, Option, none, some, true, false, List, [], ◌∷◌, All, text_eq, text_eq_iff,
  All-map, Bool-cases, inl, inr, ◌≡◌, ◌≢◌, ◌⊎◌, refl, sym, ◌∙◌, arith,
}
use rowd.Config.{SyncMode}
use rowd.Model.{Entry, Manifest, hash_of, reconcile}
use rowd.Model.Actions.{to_pc}
use rowd.Model.Conflicts.{conflict_path, conflict_path-starts_with, conflict_folder, starts_with}
use rowd.Model.Decision.{reconcile-to_pc_iff}
use rowd.Round.{Round, begin}
use rowd.Round.Exec.{
  Any, Keeps, Keeps-pure, Keeps-branch, Keeps-inspect, Keeps-bind, Keeps-when, bind-at, branch,
  inspect, pure, ◌>>◌,
}
use rowd.Round.Decide.{decide, bootstrap_of, action_of}
use rowd.Round.Transfer.{Env, flush_ack_batch}
use rowd.Round.Loop.{visit, visit_all, coordinate, flush_puts, flush_gets}
use Transfers.{Held, flush_ack_batch-Held}
use Actions.{carry_out-Held, flush_puts-Held, flush_gets-Held}

-- Without a remap policy the PC's file is fetched over only where it is missing or is the base.
decide-to_pc :
    (mode : SyncMode) (base : Option Text) (p a : Option Entry)
    → (decide mode none base p a).action ≡ to_pc
    → (hash_of p ≡ none) ⊎ (hash_of p ≡ base)
unfolding decide
decide-to_pc mode none p a h = ((reconcile-to_pc_iff none (hash_of p) (hash_of a)).0 h).2
decide-to_pc mode (some b) p a h = ((reconcile-to_pc_iff (some b) (hash_of p) (hash_of a)).0 h).2

-- Each path comes up once, as in the `BTreeSet` that the loop goes through.
abbrev pub Distinct : List Text → Type 0
Distinct [] = Unit
Distinct (x ∷ xs) = All (λ y. y ≢ x) xs × Distinct xs

module _ (env : Env) (q : Text) (b : Option Text) (e : Entry)
    (elsewhere : (p h : Text) → conflict_path env.digest p h ≢ q) (plain : env.remap ≡ none)
    (edited : b ≢ some e.hash) where
  abbrev Before : Round → Type 0
  Before = Held env Unit q b e

  abbrev After : Round → Type 0
  After = Held env ⊥ q b e

  Before-After : (r : Round) → Before r → After r
  Before-After r h = record {
    there = h.there;
    unread = λ w. absurd w;
    puts = All-map (λ job n w. absurd w) r.pending_puts h.puts;
    gets = All-map (λ job n. (λ w. absurd w, n.1)) r.pending_gets h.gets;
  }

  visit-Held : (W : Type 0) (path : Text) → path ≢ q → Keeps Any (Held env W q b e) (visit env path)
  unfolding visit
  visit-Held W path other =
      Keeps-branch _ _ _ (λ _. Keeps-pure tt)
        λ _. Keeps-inspect _ λ s h.
          carry_out-Held env W q b e elsewhere _ path _ _ (λ w. other) λ at. absurd (other at)

  visit_all-Held :
      (W : Type 0) (paths : List Text)
      → All (λ path. path ≢ q) paths
      → Keeps Any (Held env W q b e) (visit_all env paths)
  unfolding visit_all
  visit_all-Held W [] n = Keeps-pure tt
  visit_all-Held W (path ∷ paths) n =
      Keeps-bind _ _ (visit-Held W path n.0) λ _. visit_all-Held W paths n.1

  -- At its turn the base of `q` is still the one that the edit differs from.
  unread-to_pc :
      (base : Option Text) (p a : Option Entry)
      → base ≡ b
      → (decide env.mode env.remap base p a).action ≡ to_pc
      → hash_of p ≢ some e.hash
  unread-to_pc base p a same act held =
      let act' : (decide env.mode none base p a).action ≡ to_pc = rw plain at act in
      elim (decide-to_pc env.mode base p a act') [
        | inl missing ↦ cc
        | inr old ↦ edited (sym same ∙ sym old ∙ held)
      ]

  -- The turn of `q` itself.
  visit-After : (s : Round) → Before s → After (visit env q s).1
  unfolding visit inspect branch pure
  visit-After s h = elim (Bool-cases (env.excluded q)) [
    | inl skipped ↦ rw (skipped, visit) (Before-After s h)
    | inr open_path ↦
        rw (open_path, visit)
          ((carry_out-Held env ⊥ q b e elsewhere
              (decide env.mode env.remap (lookup q s.base) (lookup q env.pc) (lookup q env.android))
              q (lookup q env.pc) (lookup q env.android) (λ w. absurd w)
              (λ _.
                unread-to_pc (lookup q s.base) (lookup q env.pc) (lookup q env.android)
                  (h.unread tt))).at
            s (Before-After s h)).0
  ]

  visit_all-After :
      (paths : List Text)
      → Distinct paths
      → (s : Round) → Before s
      → After (visit_all env paths s).1
  unfolding visit_all
  visit_all-After [] d s h = unfold pure in Before-After s h
  visit_all-After (path ∷ paths) d s h = elim (Bool-cases (text_eq path q)) [
    | inl here ↦
        let at : path ≡ q = (text_eq_iff path q).0 here in
        bind-at After After (visit env path) (λ _. visit_all env paths) s (λ r k. k)
          (λ _ r k. ((visit_all-Held ⊥ paths (rw at at d.0)).at r k).0) (rw at (visit-After s h))
    | inr there ↦
        bind-at After Before (visit env path) (λ _. visit_all env paths) s Before-After
          (λ _ r k. visit_all-After paths d.1 r k)
          ((visit-Held Unit path (λ at. cc ((text_eq_iff path q).1 at))).at s h).0
  ]

  coordinate-After :
      (paths : List Text)
      → Distinct paths
      → (s : Round) → Before s
      → After (coordinate env paths s).1
  unfolding coordinate
  coordinate-After paths d s h =
      bind-at After After (visit_all env paths) _ s (λ r k. k) (λ _ r k. (last.at r k).0)
        (visit_all-After paths d s h)
    where
      last : Keeps Any After (flush_puts env >> (flush_gets env >> flush_ack_batch env))
      last = Keeps-bind _ _ (flush_puts-Held env ⊥ q b e elsewhere) λ _.
          Keeps-bind _ _ (flush_gets-Held env ⊥ q b e elsewhere)
            λ _. flush_ack_batch-Held env ⊥ q b e

-- In a Share without a remap policy, whatever the manifests, the mode, the ignore rules and the
-- deferrals are, and whether the round ends, is deferred or fails: a file of the PC outside the
-- conflict folder that differs from the committed base is afterwards what it was before, each path
-- coming up once.
pub coordinate-keeps_edit :
    (env : Env) (paths : List Text) (base : Map Text) (conflicts : Map (Unit {0}))
    (local peer : Manifest) (q : Text) (e : Entry)
    → env.remap ≡ none
    → Distinct paths
    → starts_with q conflict_folder ≡ false
    → lookup q local ≡ some e
    → lookup q base ≢ some e.hash
    → lookup q (coordinate env paths (begin base conflicts local peer)).1.local ≡ some e
unfolding begin
coordinate-keeps_edit env paths base conflicts local peer q e plain d outside held edited =
    (coordinate-After env q (lookup q base) e elsewhere plain edited paths d
      (begin base conflicts local peer)
      (record { there = held; unread = λ _. refl; puts = tt; gets = tt })).there
  where
    elsewhere : (p h : Text) → conflict_path env.digest p h ≢ q
    elsewhere p h at = cc (conflict_path-starts_with env.digest p h)
