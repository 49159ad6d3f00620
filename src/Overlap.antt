-- ===== src/Overlap.antt =====
-- The overlapped windows of Gets in crates/rowd-core/src/sync.rs: what the next window will fetch, and
-- the credits of the workers that install what has arrived.
pub mod Plans
pub mod Returns
pub mod Credits
use rowd.Base.{
  ℕ, zero, suc, ◌+◌, ◌-◌, Text, Map, lookup, Option, none, some, Bool, true, false, not, ◌&&◌, ◌||◌,
  ◌==◌, leb, ltb, List, [], ◌∷◌, ◌++◌, length, if◌then◌else◌,
}
use rowd.Model.{Entry, Manifest, hash_of, reconcile}
use rowd.Model.Actions.{Action, to_pc}
use rowd.Round.{PendingGet, max_in_flight_files, max_staged_bytes, saturating_add}
use rowd.Round.Loop.{is_to_pc}

-- What `plan_get_window` reads: the manifests, the base, the paths of the older base and the rules.
pub record Sides : Type 0 where
  pub pc : Manifest
  pub android : Manifest
  pub base : Map Text
  pub legacy : Text → Bool
  pub excluded : Text → Bool

pub record GetPlan : Type 0 where
  pub jobs : List PendingGet
  pub consumed_count : ℕ

-- `?` on an option
unfoldable pub and_then {ℓ κ} : {A : Type ℓ} {B : Type κ} → Option A → (A → Option B) → Option B
and_then none f = none
and_then (some a) f = f a

module _ (sides : Sides) where
  abbrev pub action_for : Text → Action
  action_for path =
      reconcile (lookup path sides.base) (hash_of (lookup path sides.pc))
        (hash_of (lookup path sides.android))

  abbrev pub get_for : Text → Entry → PendingGet
  get_for path entry = record {
    path = path;
    entry = entry;
    expected = hash_of (lookup path sides.pc);
  }

  -- The loop; a missing entry of the phone is the `?`.
  unfoldable pub plan_more : List Text → List PendingGet → ℕ → ℕ → Option GetPlan
  plan_more [] jobs bytes consumed = some (record { jobs = jobs; consumed_count = consumed })
  plan_more (path ∷ work) jobs bytes consumed =
      let finished = some (record { jobs = jobs; consumed_count = consumed }) in
      let passed = plan_more work jobs bytes (consumed + 1) in
      let fetch : Entry → Option GetPlan = λ entry.
        let fetched =
          plan_more work (jobs ++ get_for path entry ∷ []) (bytes + entry.size) (consumed + 1) in
        if ltb max_staged_bytes (saturating_add bytes entry.size) then finished else fetched in
      if length jobs == max_in_flight_files
      then finished
      else if sides.excluded path
      then passed
      else if sides.legacy path
      then none
      else if not (is_to_pc (action_for path))
      then finished
      else and_then (lookup path sides.android) fetch

  unfoldable pub plan_get_window : PendingGet → List Text → Option GetPlan
  unfolding plan_more
  plan_get_window current work =
      let planned = plan_more work (current ∷ []) current.entry.size 0 in
      if ltb max_staged_bytes current.entry.size || sides.legacy current.path then none else planned

-- `GetCredits`
pub record GetCredits : Type 0 where
  pub files : ℕ
  pub bytes : ℕ
  pub peak_files : ℕ
  pub peak_bytes : ℕ
  pub cancelled : Bool

-- The condition under which `acquire` waits.
unfoldable pub waits : ℕ → GetCredits → Bool
waits bytes c =
    not c.cancelled
    && ((c.files == max_in_flight_files) || ltb max_staged_bytes (saturating_add c.bytes bytes))

abbrev pub max : ℕ → ℕ → ℕ
max a b = if leb a b then b else a

-- What `acquire` does once it does not wait: whether it grants, and the credits.
unfoldable pub acquire : ℕ → GetCredits → Bool × GetCredits
acquire bytes c = if c.cancelled then (false, c) else (
  true,
  record c {
    files = c.files + 1;
    bytes = c.bytes + bytes;
    peak_files = max c.peak_files (c.files + 1);
    peak_bytes = max c.peak_bytes (c.bytes + bytes);
  },
)

unfoldable pub release : ℕ → GetCredits → GetCredits
release bytes c = record c { files = c.files - 1; bytes = c.bytes - bytes }

unfoldable pub cancel : GetCredits → GetCredits
cancel c = record c { cancelled = true }
