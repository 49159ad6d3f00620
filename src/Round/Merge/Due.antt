-- ===== src/Round/Merge/Due.antt =====
-- What the transfers under way in a round of crates/rowd-core/src/sync.rs will make of one path.
use rowd.Base.{
  Text, text_eq, text_eq_iff, Option, some, List, [], ◌∷◌, ◌++◌, All, Bool-cases, inl, inr, ◌≡◌,
  refl, arith, if◌then◌else◌,
}

module _ {J V : Type 0} (path_of : J → Text) (value_of : J → V) (q : Text) where
  unfoldable pub due : List J → Option V → Option V
  due [] o = o
  due (job ∷ jobs) o = due jobs (if text_eq (path_of job) q then some (value_of job) else o)

  pub due-append : (xs ys : List J) (o : Option V) → due (xs ++ ys) o ≡ due ys (due xs o)
  unfolding due
  due-append [] ys o = refl
  due-append (x ∷ xs) ys o = due-append xs ys _

  -- Every job of `q` has a value of `O`.
  abbrev pub Only : (V → Type 0) → List J → Type 0
  Only O jobs = All (λ job. path_of job ≡ q → O (value_of job)) jobs

  pub due_foreign : (jobs : List J) (o : Option V) → Only (λ v. ⊥) jobs → due jobs o ≡ o
  unfolding due
  due_foreign [] o h = refl
  due_foreign (job ∷ jobs) o h =
      ground (arith, text_eq_iff (path_of job) q, h.0, due_foreign jobs o h.1)

  -- Where all of them have the same value, it stays.
  pub due_same : (jobs : List J) (c : Option V) → Only (λ v. some v ≡ c) jobs → due jobs c ≡ c
  unfolding due
  due_same [] c h = refl
  due_same (job ∷ jobs) c h = ground (arith, text_eq_iff (path_of job) q, h.0, due_same jobs c h.1)

  -- So another job with that value may as well come first.
  pub due_first :
      (path : Text) (v : V) (jobs : List J) (c o : Option V)
      → (path ≡ q → some v ≡ c)
      → Only (λ v. some v ≡ c) jobs
      → due jobs (if text_eq path q then some v else o)
        ≡ (if text_eq path q then some v else due jobs o)
  due_first path v jobs c o e h = elim (Bool-cases (text_eq path q)) [
    | inl here ↦
        let at : some v ≡ c = e ((text_eq_iff path q).0 here) in rw (here, at) (due_same jobs c h)
    | inr there ↦ rw there refl
  ]
