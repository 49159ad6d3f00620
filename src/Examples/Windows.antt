-- ===== src/Examples/Windows.antt =====
-- A planned window of Gets and the credits of its workers: crates/rowd-core/src/sync.rs.
use rowd.Base.{Text, codes, none, some, true, false, lookup, text_eq, [], ◌∷◌, ◌≡◌, refl, arith}
use rowd.Model.{Entry, reconcile}
use rowd.Round.{PendingGet}
use rowd.Overlap.{
  Sides, GetPlan, GetCredits, plan_get_window, and_then, get_for, waits, acquire, release, cancel,
}
use rowd.Overlap.Plans.{Follows, plan_get_window-Follows}
use rowd.Overlap.Returns.{plan_get_window-returns}
use rowd.Overlap.Credits.{Reach, Counted, Reach-Counted, begins, grants, releases, cancels}

abbrev file : Text → Entry
file h = record { hash = h; size = 3 }

-- The phone has a new `b`, and `c` is the same on both.
abbrev sides : Sides
sides = record {
  pc = (codes "c", file (codes "1")) ∷ [];
  android = (codes "b", file (codes "2")) ∷ (codes "c", file (codes "1")) ∷ [];
  base = [];
  legacy = λ path. false;
  excluded = λ path. false;
}

abbrev current : PendingGet
current = record { path = codes "a"; entry = file (codes "3"); expected = none }

abbrev plan : GetPlan
plan = record {
  jobs = current ∷ get_for sides (codes "b") (file (codes "2")) ∷ [];
  consumed_count = 1;
}

planned : plan_get_window sides current (codes "b" ∷ codes "c" ∷ []) ≡ some plan
unfolding plan_get_window reconcile lookup text_eq and_then
planned = refl

plan_get_window-Follows_example : Follows sides (codes "b" ∷ codes "c" ∷ []) (current ∷ []) 0 plan
plan_get_window-Follows_example =
    plan_get_window-Follows sides current (codes "b" ∷ codes "c" ∷ []) plan planned

plan_get_window-returns_example :
    (p : GetPlan) × (plan_get_window sides current (codes "b" ∷ codes "c" ∷ []) ≡ some p)
plan_get_window-returns_example =
    plan_get_window-returns sides current (codes "b" ∷ codes "c" ∷ []) (λ path. refl) (omega arith)

abbrev credits : GetCredits
credits = record { files = 1; bytes = 5; peak_files = 2; peak_bytes = 8; cancelled = true }

held-Reach : Reach credits (5 ∷ [])
unfolding waits acquire release cancel
held-Reach = cancels (releases [] (5 ∷ []) 3 (grants 3 (grants 5 begins refl refl) refl refl))

Reach-Counted_example : Counted credits (5 ∷ [])
Reach-Counted_example = Reach-Counted held-Reach
