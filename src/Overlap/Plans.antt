-- ===== src/Overlap/Plans.antt =====
-- `plan_get_window` of crates/rowd-core/src/sync.rs against the loop over the paths.
use rowd.Base.{
  ℕ, suc, ◌+◌, ◌≤◌, Text, lookup, Option, none, some, true, false, not, ◌||◌, ◌==◌, ltb, List, [],
  ◌∷◌, ◌++◌, length, length-append, append-nil, append_assoc, if-split, take, inl, inr, ◌≡◌, refl,
  sym, ap, ◌∙◌, arith,
}
use rowd.Model.{Entry}
use rowd.Model.Actions.{Action, to_pc}
use rowd.Round.{PendingGet, max_in_flight_files, max_staged_bytes, saturating_add}
use rowd.Round.Loop.{is_to_pc}
use rowd.Overlap.{Sides, GetPlan, action_for, get_for, plan_more, plan_get_window, and_then}

unfoldable pub total_bytes : List PendingGet → ℕ
total_bytes [] = 0
total_bytes (job ∷ jobs) = job.entry.size + total_bytes jobs

total_bytes-append :
    (xs ys : List PendingGet) → total_bytes (xs ++ ys) ≡ total_bytes xs + total_bytes ys
unfolding total_bytes
total_bytes-append [] ys = omega arith
total_bytes-append (x ∷ xs) ys = omega (arith, total_bytes-append xs ys)

room-left :
    (jobs : List PendingGet) (job : PendingGet)
    → length jobs ≤ max_in_flight_files
    → (length jobs == max_in_flight_files) ≡ false
    → length (jobs ++ job ∷ []) ≤ max_in_flight_files
room-left jobs job few free = ground (arith, few, free, length-append jobs (job ∷ []))

total_bytes-snoc :
    (jobs : List PendingGet) (job : PendingGet) (bytes : ℕ)
    → total_bytes jobs ≡ bytes
    → total_bytes (jobs ++ job ∷ []) ≡ bytes + job.entry.size
unfolding total_bytes
total_bytes-snoc jobs job bytes same = omega (arith, same, total_bytes-append jobs (job ∷ []))

fits :
    (bytes size : ℕ)
    → ltb max_staged_bytes (saturating_add bytes size) ≡ false
    → bytes + size ≤ max_staged_bytes
fits bytes size h = ground (arith, h)

pub is_to_pc-eq : (action : Action) → not (is_to_pc action) ≡ false → action ≡ to_pc
is_to_pc-eq to_pc h = refl
is_to_pc-eq Action.to_android h = cc
is_to_pc-eq Action.conflict h = cc
is_to_pc-eq Action.none h = cc

and_then-split {ℓ κ} :
    {A : Type ℓ} {B : Type κ} (o : Option A) (f : A → Option B) {b : B}
    → and_then o f ≡ some b
    → (a : A) × (o ≡ some a) × (f a ≡ some b)
unfolding and_then
and_then-split none f h = cc
and_then-split (some a) f h = (a, refl, h)

module _ (sides : Sides) where
  -- The Gets of some paths in turn: an ignored path is passed over, any other one has to be fetched.
  pub data Planned : List Text → List PendingGet → Type 0 where
    ends : Planned [] []
    passes :
        {path : Text} {paths : List Text} {jobs : List PendingGet}
        → sides.excluded path ≡ true
        → Planned paths jobs
        → Planned (path ∷ paths) jobs
    fetches :
        {path : Text} {paths : List Text} {jobs : List PendingGet} (entry : Entry)
        → sides.excluded path ≡ false
        → lookup path sides.android ≡ some entry
        → action_for sides path ≡ to_pc
        → Planned paths jobs
        → Planned (path ∷ paths) (get_for sides path entry ∷ jobs)

  -- A plan that takes `n` of the paths after `jobs`, and fits a window.
  pub record Follows (work : List Text) (jobs : List PendingGet) (consumed : ℕ) (plan : GetPlan)
      : Type 0 where
    pub more : List PendingGet
    pub n : ℕ
    pub jobs_are : plan.jobs ≡ jobs ++ more
    pub consumed_are : plan.consumed_count ≡ consumed + n
    pub within : n ≤ length work
    pub planned : Planned (take n work) more
    pub files : length plan.jobs ≤ max_in_flight_files
    pub bytes : total_bytes plan.jobs ≤ max_staged_bytes

  stop-Follows :
      (work : List Text) (jobs : List PendingGet) (consumed : ℕ) (plan : GetPlan)
      → length jobs ≤ max_in_flight_files
      → total_bytes jobs ≤ max_staged_bytes
      → some (record { jobs = jobs; consumed_count = consumed }) ≡ some plan
      → Follows work jobs consumed plan
  stop-Follows work jobs consumed plan few small h =
      let e : record { jobs = jobs; consumed_count = consumed } ≡ plan = cc h in
      let same : plan.jobs ≡ jobs = sym (ap (λ p. p.jobs) e) in
      record {
        more = [];
        n = 0;
        jobs_are = same ∙ sym (append-nil jobs);
        consumed_are = omega (arith, ap (λ p. p.consumed_count) e);
        within = omega arith;
        planned = ends;
        files = rw same few;
        bytes = rw same small;
      }

  passed-Follows :
      (path : Text) (work : List Text) (jobs : List PendingGet) (consumed : ℕ) (plan : GetPlan)
      → sides.excluded path ≡ true
      → Follows work jobs (consumed + 1) plan
      → Follows (path ∷ work) jobs consumed plan
  passed-Follows path work jobs consumed plan out f = record {
    more = f.more;
    n = suc f.n;
    jobs_are = f.jobs_are;
    consumed_are = omega (arith, f.consumed_are);
    within = omega (arith, f.within);
    planned = passes out f.planned;
    files = f.files;
    bytes = f.bytes;
  }

  fetched-Follows :
      (path : Text) (entry : Entry) (work : List Text) (jobs : List PendingGet) (consumed : ℕ)
      (plan : GetPlan)
      → sides.excluded path ≡ false
      → lookup path sides.android ≡ some entry
      → action_for sides path ≡ to_pc
      → Follows work (jobs ++ get_for sides path entry ∷ []) (consumed + 1) plan
      → Follows (path ∷ work) jobs consumed plan
  fetched-Follows path entry work jobs consumed plan allowed found wanted f = record {
    more = get_for sides path entry ∷ f.more;
    n = suc f.n;
    jobs_are = f.jobs_are ∙ append_assoc jobs (get_for sides path entry ∷ []) f.more;
    consumed_are = omega (arith, f.consumed_are);
    within = omega (arith, f.within);
    planned = fetches entry allowed found wanted f.planned;
    files = f.files;
    bytes = f.bytes;
  }

  plan_more-Follows :
      (work : List Text) (jobs : List PendingGet) (bytes consumed : ℕ) (plan : GetPlan)
      → length jobs ≤ max_in_flight_files
      → total_bytes jobs ≡ bytes
      → bytes ≤ max_staged_bytes
      → plan_more sides work jobs bytes consumed ≡ some plan
      → Follows work jobs consumed plan
  unfolding plan_more
  plan_more-Follows [] jobs bytes consumed plan few same small h =
      stop-Follows [] jobs consumed plan few (omega arith) h
  plan_more-Follows (path ∷ work) jobs bytes consumed plan few same small h =
      elim (if-split (length jobs == max_in_flight_files) _ _ h) [
        | inl full ↦ stop-Follows (path ∷ work) jobs consumed plan few (omega arith) full.1
        | inr room ↦ elim (if-split (sides.excluded path) _ _ room.1) [
          | inl out ↦
              passed-Follows path work jobs consumed plan out.0
                (plan_more-Follows work jobs bytes (consumed + 1) plan few same small out.1)
          | inr inside ↦ elim (if-split (sides.legacy path) _ _ inside.1) [
            | inl old ↦ cc (old.1)
            | inr present ↦ elim (if-split (not (is_to_pc (action_for sides path))) _ _ present.1) [
              | inl other ↦ stop-Follows (path ∷ work) jobs consumed plan few (omega arith) other.1
              | inr get ↦
                  let (entry, found, taken) = and_then-split (lookup path sides.android) _ get.1 in
                  elim (if-split (ltb max_staged_bytes (saturating_add bytes entry.size)) _ _
                    taken) [
                      | inl large ↦
                          stop-Follows (path ∷ work) jobs consumed plan few (omega arith) large.1
                      | inr fit ↦
                          let job = get_for sides path entry in
                          fetched-Follows path entry work jobs consumed plan inside.0 found
                            (is_to_pc-eq (action_for sides path) get.0)
                            (plan_more-Follows work (jobs ++ job ∷ []) (bytes + entry.size)
                              (consumed + 1) plan (room-left jobs job few room.0)
                              (total_bytes-snoc jobs job bytes same) (fits bytes entry.size fit.0)
                              fit.1)
                    ]
            ]
          ]
        ]
      ]

-- A planned window holds the current Get and, in their order, the Gets of the next paths of the loop
-- that are not ignored: each of them is a path whose manifests and base ask for the phone's version.
-- It has at most four files and eight MiB, and takes no more paths than there are.
pub plan_get_window-Follows :
    (sides : Sides) (current : PendingGet) (work : List Text) (plan : GetPlan)
    → plan_get_window sides current work ≡ some plan
    → Follows sides work (current ∷ []) 0 plan
unfolding plan_get_window total_bytes
plan_get_window-Follows sides current work plan h =
    elim (if-split (ltb max_staged_bytes current.entry.size || sides.legacy current.path) _ _ h) [
      | inl refused ↦ cc (refused.1)
      | inr planned ↦
          plan_more-Follows sides work (current ∷ []) current.entry.size 0 plan (omega arith)
            (omega arith) (ground (arith, planned.0)) planned.1
    ]
