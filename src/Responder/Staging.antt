-- ===== src/Responder/Staging.antt =====
-- What `respond_share` of crates/rowd-core/src/sync.rs holds in private files between two messages.
use rowd.Base.{
  ℕ, suc, ◌+◌, ◌≤◌, ◌<◌, Text, text_eq, some, true, false, ◌==◌, leb, List, [], ◌∷◌, ◌++◌, map,
  length, has, All, IsOnce, IsOnce-append, Result, ok, err, ensure-bind, ◌≡◌, refl, sym, ap, arith,
  subst, length-append, All-append, text_eq_iff, ==_iff,
}
use rowd.Model.{max_file}
use rowd.Responder.{
  IncomingPut, ReceivedStage, Responder, RespondError, body_too_large, truncated_body, wrong_body,
  initial,
}
use rowd.Responder.Checks.{receive_blob}
use rowd.Responder.Stages.{insert_stage, remove_stage, stages_path, keep_stage, drop_stage}
use rowd.Round.{max_in_flight_files, max_staged_bytes, saturating_add}
use rowd.Base.{take}
use rowd.Scan.{is_empty}

abbrev pub Stages : Type 0
Stages = List (ℕ × ReceivedStage)

abbrev pub stages_of : Stages → List ReceivedStage
stages_of m = map (λ (k, v). v) m

abbrev pub paths_of : Stages → List Text
paths_of m = map (λ (k, v). v.job.path) m

-- The keys count from `from` up to `to`.
abbrev pub Numbered : ℕ → Stages → ℕ → Type 0
Numbered from [] to = from ≡ to
Numbered from ((k, v) ∷ m) to = (k ≡ from) × Numbered (suc from) m to

abbrev pub sizes : Stages → ℕ
sizes [] = 0
sizes ((k, v) ∷ m) = v.job.entry.size + sizes m

module _ (blake3 : List ℕ → Text) where
  -- A body that came in full, with the digest of its entry.
  abbrev pub Verified : ReceivedStage → Type 0
  Verified v = (length v.staged ≡ v.job.entry.size) × (blake3 v.staged ≡ v.job.entry.hash)

  pub record Stored (m : Stages) (from to bytes : ℕ) : Type 0 where
    pub numbered : Numbered from m to
    pub total : bytes ≡ sizes m
    pub few : length m ≤ max_in_flight_files
    pub small : bytes ≤ max_staged_bytes
    pub apart : IsOnce (paths_of m)
    pub verified : All Verified (stages_of m)

  -- The private files of a responder are accounted for.
  abbrev pub IsSound : Responder → Type 0
  IsSound r = Stored r.incoming_stages r.install_sequence r.stage_sequence r.incoming_bytes

  pub initial-IsSound : IsSound initial
  initial-IsSound = record {
    numbered = refl;
    total = refl;
    few = omega arith;
    small = omega arith;
    apart = tt;
    verified = tt;
  }

  -- Without files the counts may start again.
  pub Stored-empty :
      (m : Stages) (from to bytes : ℕ)
      → Stored m from to bytes
      → is_empty m ≡ true
      → Stored m 0 0 bytes
  Stored-empty [] from to bytes h none_left = record {
    numbered = refl;
    total = h.total;
    few = h.few;
    small = h.small;
    apart = h.apart;
    verified = h.verified;
  }
  Stored-empty (x ∷ m) from to bytes h none_left = cc

  pub receive_blob-Verified :
      (job : IncomingPut) (body content : List ℕ)
      → receive_blob blake3 job.entry body ≡ ok content
      → Verified (record { job = job; staged = content })
  unfolding receive_blob
  receive_blob-Verified job body content h =
      let size = job.entry.size in
      let (_, sized) = ensure-bind (leb size max_file) body_too_large _ h in
      let (full, hashed) = ensure-bind (length (take size body) == size) truncated_body _ sized in
      let (same, is) =
        ensure-bind (text_eq (blake3 (take size body)) job.entry.hash) wrong_body _ hashed in
      let taken : take size body ≡ content = ap (or_content content) is in
      subst (λ c. Verified (record { job = job; staged = c })) taken
        ((==_iff _ _).0 full, (text_eq_iff _ _).0 same)
    where
      or_content : List ℕ → Result RespondError (List ℕ) → List ℕ
      or_content c (ok d) = d
      or_content c (err e) = c

Numbered-le : (from to : ℕ) (m : Stages) → Numbered from m to → from ≤ to
Numbered-le from to [] h = omega (arith, h)
Numbered-le from to ((k, v) ∷ m) h = omega (arith, Numbered-le (suc from) to m h.1)

insert_stage-last :
    (k from : ℕ) (v : ReceivedStage) (m : Stages)
    → Numbered from m k
    → insert_stage k v m ≡ m ++ ((k, v) ∷ [])
unfolding insert_stage
insert_stage-last k from v [] h = refl
insert_stage-last k from v ((j, w) ∷ m) h =
    ground (arith, h.0, Numbered-le (suc from) k m h.1, insert_stage-last k (suc from) v m h.1)

Numbered-append :
    (from to : ℕ) (m : Stages) (v : ReceivedStage)
    → Numbered from m to
    → Numbered from (m ++ ((to, v) ∷ [])) (suc to)
Numbered-append from to [] v h = (sym h, ap suc h)
Numbered-append from to ((k, w) ∷ m) v h = (h.0, Numbered-append (suc from) to m v h.1)

pub map-append :
    {A B : Type 0} (f : A → B) (xs ys : List A) → map f (xs ++ ys) ≡ map f xs ++ map f ys
map-append f [] ys = refl
map-append f (x ∷ xs) ys = ap (λ t. f x ∷ t) (map-append f xs ys)

sizes-append : (m n : Stages) → sizes (m ++ n) ≡ sizes m + sizes n
sizes-append [] n = omega arith
sizes-append ((k, v) ∷ m) n = omega (arith, sizes-append m n)

stages_path-has :
    (path : Text) (m : Stages) → stages_path path m ≡ false → has (paths_of m) path ≡ false
unfolding has
stages_path-has path [] h = refl
stages_path-has path ((k, v) ∷ m) h =
    ground (arith, text_eq_iff v.job.path path, text_eq_iff path v.job.path, stages_path-has path m)

within :
    (bytes size : ℕ)
    → saturating_add bytes size ≤ max_staged_bytes
    → bytes + size ≤ max_staged_bytes
within bytes size h = ground (arith, h)

module _ (blake3 : List ℕ → Text) where
  pub keep_stage-IsSound :
      (r : Responder) (scan_id : Text) (sequence : ℕ) (v : ReceivedStage)
      → IsSound blake3 r
      → sequence ≡ r.stage_sequence
      → length r.incoming_stages < max_in_flight_files
      → saturating_add r.incoming_bytes v.job.entry.size ≤ max_staged_bytes
      → stages_path v.job.path r.incoming_stages ≡ false
      → Verified blake3 v
      → IsSound blake3 (keep_stage r scan_id sequence v).responder
        × ((keep_stage r scan_id sequence v).responder.incoming_stages
            ≡ r.incoming_stages ++ ((sequence, v) ∷ []))
  unfolding keep_stage
  keep_stage-IsSound r scan_id sequence v sound here room fits new is_verified =
      let m = r.incoming_stages in
      let numbers : Numbered r.install_sequence m sequence = rw here sound.numbered in
      let last = insert_stage-last sequence r.install_sequence v m numbers in
      (
        rw last record {
          numbered = rw (sym here) (Numbered-append r.install_sequence sequence m v numbers);
          total = omega (arith, sizes-append m ((sequence, v) ∷ []), sound.total);
          few = omega (arith, length-append m ((sequence, v) ∷ []), room);
          small = within r.incoming_bytes v.job.entry.size fits;
          apart = rw (map-append (λ (k, w). w.job.path) m ((sequence, v) ∷ [])) (
              IsOnce-append (paths_of m) v.job.path sound.apart (stages_path-has v.job.path m new));
          verified = rw (map-append (λ (k, w). w) m ((sequence, v) ∷ [])) (
              All-append (Verified blake3) (stages_of m) (v ∷ []) sound.verified (is_verified, tt));
        },
        last,
      )

  remove_stage-first :
      (m : Stages) (from to : ℕ) (v : ReceivedStage) (rest : Stages)
      → Numbered from m to
      → remove_stage from m ≡ some (v, rest)
      → m ≡ (from, v) ∷ rest
  unfolding remove_stage
  remove_stage-first [] from to v rest h at = cc
  remove_stage-first ((k, w) ∷ m) from to v rest h at = ground (arith, h.0, at)

  -- What is installed next is the first of the files, and the rest are accounted for.
  pub drop_stage-IsSound :
      (r : Responder) (v : ReceivedStage) (rest : Stages)
      → IsSound blake3 r
      → remove_stage r.install_sequence r.incoming_stages ≡ some (v, rest)
      → IsSound blake3 (drop_stage r v rest).responder
        × (r.incoming_stages ≡ (r.install_sequence, v) ∷ rest)
        × (v.job.entry.size ≤ r.incoming_bytes)
        × Verified blake3 v
  unfolding drop_stage
  drop_stage-IsSound r v rest sound at =
      let from = r.install_sequence in
      let first =
        remove_stage-first r.incoming_stages from r.stage_sequence v rest sound.numbered at in
      let whole : Stored blake3 ((from, v) ∷ rest) from r.stage_sequence r.incoming_bytes =
        subst (λ m. Stored blake3 m from r.stage_sequence r.incoming_bytes) first sound in
      (
        record {
          numbered = whole.numbered.1;
          total = omega (arith, whole.total);
          few = omega (arith, whole.few);
          small = omega (arith, whole.small);
          apart = whole.apart.1;
          verified = whole.verified.1;
        },
        first,
        omega (arith, whole.total),
        whole.verified.0,
      )
