-- ===== src/Overlap/Returns.antt =====
-- When `plan_get_window` of crates/rowd-core/src/sync.rs plans a window.
use rowd.Base.{
  ℕ, ◌+◌, ◌≤◌, Text, lookup, Option, none, some, Bool, true, false, not, ◌||◌, ◌==◌, ltb, List, [],
  ◌∷◌, ◌++◌, length, ◌≡◌, ◌≢◌, refl, arith, if◌then◌else◌,
}
use rowd.Model.{Entry, hash_of}
use rowd.Model.Decision.{reconcile-to_pc_iff}
use rowd.Round.{PendingGet, max_in_flight_files, max_staged_bytes, saturating_add}
use rowd.Round.Loop.{is_to_pc}
use rowd.Overlap.{Sides, GetPlan, action_for, get_for, plan_more, plan_get_window, and_then}
use rowd.Overlap.Plans.{is_to_pc-eq}

abbrev Plans : Option GetPlan → Type 0
Plans o = (plan : GetPlan) × (o ≡ some plan)

if-Plans :
    (b : Bool) (x y : Option GetPlan)
    → (b ≡ true → Plans x)
    → (b ≡ false → Plans y)
    → Plans (if b then x else y)
if-Plans true x y hx hy = hx refl
if-Plans false x y hx hy = hy refl

module _ (sides : Sides) (migrated : (path : Text) → sides.legacy path ≡ false) where
  and_then-Plans :
      (o : Option Entry) (f : Entry → Option GetPlan)
      → hash_of o ≢ none
      → ((entry : Entry) → Plans (f entry))
      → Plans (and_then o f)
  unfolding and_then
  and_then-Plans none f n h = absurd (n refl)
  and_then-Plans (some entry) f n h = h entry

  plan_more-Plans :
      (work : List Text) (jobs : List PendingGet) (bytes consumed : ℕ)
      → Plans (plan_more sides work jobs bytes consumed)
  unfolding plan_more
  plan_more-Plans [] jobs bytes consumed = (_, refl)
  plan_more-Plans (path ∷ work) jobs bytes consumed =
      if-Plans (length jobs == max_in_flight_files) _ _ (λ _. (_, refl))
        λ _.
          if-Plans (sides.excluded path) _ _ (λ _. plan_more-Plans work jobs bytes (consumed + 1))
            λ _.
              if-Plans (sides.legacy path) _ _ (λ old. cc (old, migrated path))
                λ _.
                  if-Plans (not (is_to_pc (action_for sides path))) _ _ (λ _. (_, refl))
                    λ get.
                      and_then-Plans (lookup path sides.android) _
                        ((reconcile-to_pc_iff _ _ _).0 (is_to_pc-eq (action_for sides path) get)).0
                        λ entry.
                          if-Plans (ltb max_staged_bytes (saturating_add bytes entry.size)) _ _
                            (λ _. (_, refl))
                            λ _.
                              plan_more-Plans work (jobs ++ get_for sides path entry ∷ [])
                                (bytes + entry.size) (consumed + 1)

-- Where no path waits for the migration of the older base, a window is planned for every Get that
-- fits one.
pub plan_get_window-returns :
    (sides : Sides) (current : PendingGet) (work : List Text)
    → ((path : Text) → sides.legacy path ≡ false)
    → current.entry.size ≤ max_staged_bytes
    → (plan : GetPlan) × (plan_get_window sides current work ≡ some plan)
unfolding plan_get_window
plan_get_window-returns sides current work migrated small =
    if-Plans (ltb max_staged_bytes current.entry.size || sides.legacy current.path) _ _
      (λ refused. ground (arith, refused, migrated current.path, small))
      λ _. plan_more-Plans sides migrated work (current ∷ []) current.entry.size 0
