-- ===== src/Overlap/Credits.antt =====
-- The credits of `GetBudget` in crates/rowd-core/src/sync.rs under any order of its calls.
use rowd.Base.{
  ℕ, ◌+◌, ◌≤◌, true, false, List, [], ◌∷◌, ◌++◌, length, length-append, ◌≡◌, refl, arith,
}
use rowd.Round.{max_in_flight_files, max_staged_bytes}
use rowd.Overlap.{GetCredits, waits, acquire, release, cancel}

unfoldable pub total : List ℕ → ℕ
total [] = 0
total (b ∷ bs) = b + total bs

total-remove : (xs ys : List ℕ) (b : ℕ) → total (xs ++ (b ∷ ys)) ≡ b + total (xs ++ ys)
unfolding total
total-remove [] ys b = refl
total-remove (x ∷ xs) ys b = omega (arith, total-remove xs ys b)

-- The credits, and the sizes of the files that were granted and not yet released.
pub data Reach : GetCredits → List ℕ → Type 0 where
  begins :
      Reach (record { files = 0; bytes = 0; peak_files = 0; peak_bytes = 0; cancelled = false }) []
  grants :
      {c : GetCredits} {held : List ℕ} (bytes : ℕ)
      → Reach c held
      → waits bytes c ≡ false
      → (acquire bytes c).0 ≡ true
      → Reach (acquire bytes c).1 (bytes ∷ held)
  refuses :
      {c : GetCredits} {held : List ℕ} (bytes : ℕ)
      → Reach c held
      → waits bytes c ≡ false
      → (acquire bytes c).0 ≡ false
      → Reach (acquire bytes c).1 held
  releases :
      {c : GetCredits} (xs ys : List ℕ) (bytes : ℕ)
      → Reach c (xs ++ (bytes ∷ ys))
      → Reach (release bytes c) (xs ++ ys)
  cancels : {c : GetCredits} {held : List ℕ} → Reach c held → Reach (cancel c) held

pub record Counted (c : GetCredits) (held : List ℕ) : Type 0 where
  pub files_are : c.files ≡ length held
  pub bytes_are : c.bytes ≡ total held
  pub peak_files : c.files ≤ c.peak_files
  pub peak_bytes : c.bytes ≤ c.peak_bytes
  pub few : c.peak_files ≤ max_in_flight_files
  pub small : c.peak_bytes ≤ max_staged_bytes

grant-Counted :
    (c : GetCredits) (held : List ℕ) (bytes : ℕ)
    → Counted c held
    → waits bytes c ≡ false
    → (acquire bytes c).0 ≡ true
    → Counted (acquire bytes c).1 (bytes ∷ held)
unfolding waits acquire total
grant-Counted c held bytes i go granted = ground (arith, i, go, granted)

refuse-Counted :
    (c : GetCredits) (held : List ℕ) (bytes : ℕ)
    → Counted c held
    → (acquire bytes c).0 ≡ false
    → Counted (acquire bytes c).1 held
unfolding acquire
refuse-Counted c held bytes i refused = ground (arith, i, refused)

-- Whatever grants, releases and cancellations there are, in any order: the credits count the files and
-- bytes that are held, so that a release never takes more than there is; and no more than four files
-- and eight MiB were ever held at once.
pub Reach-Counted : {c : GetCredits} {held : List ℕ} → Reach c held → Counted c held
unfolding total release cancel
Reach-Counted begins = record {
  files_are = refl;
  bytes_are = refl;
  peak_files = omega arith;
  peak_bytes = omega arith;
  few = omega arith;
  small = omega arith;
}
Reach-Counted (grants bytes r go granted) = grant-Counted _ _ bytes (Reach-Counted r) go granted
Reach-Counted (refuses bytes r go refused) = refuse-Counted _ _ bytes (Reach-Counted r) refused
Reach-Counted (releases xs ys bytes r) =
    let i = Reach-Counted r in
    record {
      files_are = omega (arith, i.files_are, length-append xs (bytes ∷ ys), length-append xs ys);
      bytes_are = omega (arith, i.bytes_are, total-remove xs ys bytes);
      peak_files = omega (arith, i.peak_files);
      peak_bytes = omega (arith, i.peak_bytes);
      few = i.few;
      small = i.small;
    }
Reach-Counted (cancels r) = let i = Reach-Counted r in assumption
