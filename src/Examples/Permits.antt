-- ===== src/Examples/Permits.antt =====
-- Two threads at a budget of two: crates/rowd-core/src/resources.rs.
use rowd.Base.{◌≤◌, ◌≡◌, false, List, [], ◌∷◌, refl, arith}
use rowd.Admission.{Waiting, Hall, Reach, arrives, begins, continues, waits, take_ticket, weight_of}
use rowd.Admission.Fair.{total, Reach-within_limit, waits-first, waits-progress}

abbrev first : Waiting
first = record { ticket = 0; weight = 1 }

abbrev second : Waiting
second = record { ticket = 1; weight = 2 }

-- A small file and a large one arrive.
abbrev both : Hall
both = record {
  budget = record { issued = 2; serving = 0; active = 0; limit = 2 };
  waiting = first ∷ second ∷ [];
  held = [];
}

both-Reach : Reach 2 both
unfolding take_ticket weight_of
both-Reach = continues (continues begins (arrives 100)) (arrives 9_000_000)

Reach-within_limit_example : (both.budget.active ≡ total both.held) × (total both.held ≤ 2)
Reach-within_limit_example = Reach-within_limit 2 both (omega arith) both-Reach

abbrev nobody : List Waiting
nobody = []

waits-first_example : nobody ≡ []
unfolding waits
waits-first_example =
    waits-first 2 both.budget nobody (second ∷ []) first [] (omega arith) both-Reach refl

waits-progress_example : waits 0 1 both.budget ≡ false
waits-progress_example = waits-progress 2 both.budget first (second ∷ []) (omega arith) both-Reach
