-- ===== src/Admission.antt =====
-- crates/rowd-core/src/resources.rs: tickets for a shared budget. A thread in `admit` has a ticket and
-- a weight; a permit that it has been given counts until it is dropped.
pub mod Fair
use rowd.Base.{
  ℕ, suc, ◌+◌, ◌-◌, ◌*◌, ◌≤◌, ◌<◌, Option, none, some, Bool, true, false, ◌||◌, not, ◌==◌, ltb,
  List, [], ◌∷◌, ◌++◌, if◌then◌else◌, ◌≡◌,
}

-- `State`, and the limit of `Budget`
pub record Budget : Type 0 where
  pub issued : ℕ
  pub serving : ℕ
  pub active : ℕ
  pub limit : ℕ

abbrev pub fresh : ℕ → Budget
fresh limit = record { issued = 0; serving = 0; active = 0; limit = limit }

-- The lines of `admit` before the loop.
unfoldable pub take_ticket : Budget → ℕ × Budget
take_ticket b = (b.issued, record b { issued = b.issued + 1 })

-- The condition under which a thread waits.
unfoldable pub waits : ℕ → ℕ → Budget → Bool
waits ticket weight b = not (ticket == b.serving) || ltb b.limit (b.active + weight)

-- The lines after the loop.
unfoldable pub enter : ℕ → Budget → Budget
enter weight b = record b { serving = b.serving + 1; active = b.active + weight }

-- `Permit::drop`
unfoldable pub release : ℕ → Budget → Budget
release weight b = record b { active = b.active - weight }

-- `acquire`: a large file takes the whole budget.
unfoldable pub weight_of : ℕ → Budget → ℕ
weight_of size b = if ltb (8 * 1024 * 1024) size then b.limit else 1

pub record Waiting : Type 0 where
  pub ticket : ℕ
  pub weight : ℕ

-- The threads: those that wait, in the order of their arrival, and the permits that are held.
pub record Hall : Type 0 where
  pub budget : Budget
  pub waiting : List Waiting
  pub held : List ℕ

-- A thread arrives with a file of `size` bytes, one that waits goes in, or a permit is dropped.
pub data Step : Hall → Hall → Type 0 where
  arrives :
      {b : Budget} {ws : List Waiting} {hs : List ℕ} (size : ℕ)
      → Step
          (record { budget = b; waiting = ws; held = hs })
          (record {
            budget = (take_ticket b).1;
            waiting = ws ++ record { ticket = (take_ticket b).0; weight = weight_of size b } ∷ [];
            held = hs;
          })
  goes_in :
      {b : Budget} (xs ys : List Waiting) {hs : List ℕ} (w : Waiting)
      → waits w.ticket w.weight b ≡ false
      → Step
          (record { budget = b; waiting = xs ++ (w ∷ ys); held = hs })
          (record { budget = enter w.weight b; waiting = xs ++ ys; held = w.weight ∷ hs })
  drops :
      {b : Budget} {ws : List Waiting} (xs ys : List ℕ) (h : ℕ)
      → Step
          (record { budget = b; waiting = ws; held = xs ++ (h ∷ ys) })
          (record { budget = release h b; waiting = ws; held = xs ++ ys })

pub data Reach (limit : ℕ) : Hall → Type 0 where
  begins : Reach limit (record { budget = fresh limit; waiting = []; held = [] })
  continues : {s t : Hall} → Reach limit s → Step s t → Reach limit t
