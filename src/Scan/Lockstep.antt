-- ===== src/Scan/Lockstep.antt =====
-- The phone's answers to the calls of a scan, `respond_share` of crates/rowd-core/src/sync.rs, as the PC's `ScanStream` of
-- crates/rowd-core/src/protocol.rs takes them.
use rowd.Base.{
  suc, Text, lookup, text_eq_refl, Option, none, some, true, false, not, ◌&&◌, ◌==◌, ==_iff, List,
  [], ◌∷◌, ◌++◌, length, has, Result, ok, err, ensure, ensure-bind, or_err, or_err-ok, ◌>>◌, ◌>>=◌,
  ◌≡◌, refl, sym, ap, ◌∙◌, subst,
}
use rowd.Model.{Manifest}
use rowd.Model.Manifests.{ManifestError, validate_manifest}
use rowd.Model.Namespaces.{NamespaceEntry, Namespace, only_files}
use rowd.Responder.{
  ResponderStream, Responder, Store, Turn, ends_with, deferred_report, Report, defer_round,
  RespondError, namespace_mismatch,
}
use rowd.Responder.Checks.{on_files, is_file_of, check_produced, take_cached}
use rowd.Responder.Gives.{
  Gives, pure-Gives, >>=-Gives, check-Gives, ensure-Gives, then-Gives, or_deferred-Gives, if-Gives,
}
use rowd.Responder.Scans
use rowd.Scan.{
  ScanMessage, ScanStream, Event, frame, Pulled, fits_chunk, check_hashes, absent_path,
  differs_or_duplicated, hash_chunk, hash_stream_end, accept_hash_chunk, accept_stream_end, pull,
  next_with_control, no_metrics, no_pipeline, hash_next, scan_deferred, ScanStreamMetrics,
}
use rowd.Wire.{StoreMetrics}

-- Both ends of a scan know the same names, ask for the same chunk and count the same paths.
pub record InStep (current : ResponderStream) (s : ScanStream) : Type 0 where
  pub scan_id : s.scan_id ≡ current.scan_id
  pub namespace : s.namespace ≡ current.namespace
  pub sequence : s.sequence ≡ current.sequence
  pub seen : s.seen ≡ current.seen
  pub open_still : s.ended ≡ false

-- What passes the phone's check passes the PC's.
abbrev or_seen : List Text → Result RespondError (List Text) → List Text
or_seen seen (ok after) = after
or_seen seen (err e) = seen

check_produced-check_hashes :
    (namespace : Namespace) (seen : List Text) (files : Manifest) (after : List Text)
    → check_produced namespace seen files ≡ ok after
    → check_hashes namespace seen files ≡ ok after
unfolding check_produced check_hashes
check_produced-check_hashes namespace seen [] after h = ap ok (ap (or_seen seen) h)
check_produced-check_hashes namespace seen ((path, e) ∷ files) after h =
    let (passes, others) =
      ensure-bind (is_file_of (lookup path namespace) e.size && not (has seen path))
        namespace_mismatch _ h in
    found (lookup path namespace) passes
      (check_produced-check_hashes namespace (seen ++ (path ∷ [])) files after others)
  where
    found :
        (o : Option NamespaceEntry)
        → (is_file_of o e.size && not (has seen path)) ≡ true
        → check_hashes namespace (seen ++ (path ∷ [])) files ≡ ok after
        → (or_err o absent_path >>= λ physical.
            ensure
              (not physical.directory && (physical.size == e.size) && not (has seen path))
              differs_or_duplicated
            >> check_hashes namespace (seen ++ (path ∷ [])) files)
          ≡ ok after
    found none passes later = cc
    found (some d) passes later =
        ap
          (λ c.
            ensure c differs_or_duplicated >> check_hashes namespace (seen ++ (path ∷ [])) files)
          passes
        ∙ later

on_files-ok : (r : Result ManifestError (Unit {0})) {u : Unit {0}} → on_files r ≡ ok u → r ≡ ok tt
on_files-ok (ok u) h = refl
on_files-ok (err e) h = cc

-- After the phone's answer: both are still in step, or the PC has seen the end.
abbrev pub Follows : Option ResponderStream → Pulled → Type 0
Follows none p = p.files ≡ none
Follows (some current) p = InStep current p.stream

-- The only frame of an answer is one that the PC's call takes.
abbrev pub Takes : (Text → Text) → ScanStream → Turn → List Event → Type 0
Takes lower s t rest =
    (message : ScanMessage) × (p : Pulled) × (t.sent ≡ message ∷ [])
    × (next_with_control lower s (frame message ∷ rest) ≡ ok p)
    × (p.unread ≡ rest)
    × Follows t.responder.stream p

abbrev IsTaken : (Text → Text) → ScanStream → Turn → Type 0
IsTaken lower s t = t.report ≡ none → (rest : List Event) → Takes lower s t rest

module _ (lower : Text → Text) (current : ResponderStream) (s : ScanStream)
    (step : InStep current s) (rest : List Event) where
  chunk-taken :
      (files : Manifest) (seen : List Text)
      → validate_manifest lower files ≡ ok tt
      → fits_chunk files ≡ true
      → check_produced current.namespace current.seen files ≡ ok seen
      → (p : Pulled) × (next_with_control lower s
            (frame (hash_chunk current.scan_id current.sequence files) ∷ rest)
          ≡ ok p)
        × (p.unread ≡ rest)
        × InStep (record current { seen = seen; sequence = suc current.sequence }) p.stream
  unfolding next_with_control pull accept_hash_chunk
  chunk-taken files seen valid fits checks =
      let hashes : check_hashes s.namespace s.seen files ≡ ok seen =
        rw (step.namespace, step.seen)
          (check_produced-check_hashes current.namespace current.seen files seen checks) in
      (
        record {
          files = some files;
          metrics = no_metrics;
          pipeline = no_pipeline;
          stream = record s { seen = seen; sequence = suc s.sequence };
          sent = hash_next s.scan_id s.sequence ∷ [];
          unread = rest;
        },
        rw
            (
              step.open_still,
              step.scan_id,
              step.sequence,
              text_eq_refl current.scan_id,
              (==_iff current.sequence current.sequence).1 refl,
              fits,
              valid,
              hashes,
            )
            refl,
        refl,
        record {
          scan_id = step.scan_id;
          namespace = step.namespace;
          sequence = ap suc step.sequence;
          seen = refl;
          open_still = step.open_still;
        },
      )

  end-taken :
      (metrics : StoreMetrics) (pipeline : ScanStreamMetrics)
      → (length current.seen == length (only_files current.namespace)) ≡ true
      → (p : Pulled) × (next_with_control lower s (
            frame (
              hash_stream_end current.scan_id current.sequence
                (length current.seen)
                metrics
                pipeline)
            ∷ rest)
          ≡ ok p)
        × (p.unread ≡ rest)
        × (p.files ≡ none)
  unfolding next_with_control pull accept_stream_end
  end-taken metrics pipeline whole = (
    record {
      files = none;
      metrics = metrics;
      pipeline = pipeline;
      stream = record s { ended = true };
      sent = hash_next s.scan_id s.sequence ∷ [];
      unread = rest;
    },
    rw
        (
          step.open_still,
          step.scan_id,
          step.sequence,
          step.namespace,
          step.seen,
          text_eq_refl current.scan_id,
          (==_iff current.sequence current.sequence).1 refl,
          (==_iff (length current.seen) (length current.seen)).1 refl,
          whole,
        )
        refl,
    refl,
    refl,
  )

module _ (lower : Text → Text) (digest : Namespace → Text) {S : Type 0} (store : Store S)
    (r : Responder) (s : ScanStream) where
  abbrev Taken : Turn → Type 0
  Taken = IsTaken lower s

  defer_round-Taken : Gives Taken (defer_round store r [])
  unfolding defer_round
  defer_round-Taken = then-Gives Taken _ _ (pure-Gives Taken _ put_off)
    where
      some-none : {report : Report} → some report ≡ none → ⊥
      some-none h = cc

      put_off : Taken (ends_with r (scan_deferred ∷ []) deferred_report)
      put_off none_yet rest = absurd (some-none none_yet)

  answer-Taken :
      (current : ResponderStream) (chunk : Option Manifest)
      → InStep current s
      → Gives Taken (Scans.answer lower digest store r current chunk)
  unfolding Scans.answer_end Scans.answer_chunk
  answer-Taken current none step = ensure-Gives Taken _ _ _ λ whole. >>=-Gives Taken _ _ λ now.
      then-Gives Taken _ _ (
        then-Gives Taken _ _ (
          then-Gives Taken _ _ (
            >>=-Gives Taken _ _ λ later. >>=-Gives Taken _ _ λ pipeline.
              pure-Gives Taken _ λ _ rest.
                let (p, takes, unread, ends) =
                  end-taken lower current s step rest _ pipeline whole in
                (_, p, refl, takes, unread, ends))))
  answer-Taken current (some files) step = check-Gives Taken _ _ λ _ valid.
      ensure-Gives Taken _ _ _ λ fits. check-Gives Taken _ _ λ seen checks.
        pure-Gives Taken _ λ _ rest.
          let (p, takes, unread, after) =
            chunk-taken lower current s step rest files seen (on_files-ok _ valid) fits checks in
          (_, p, refl, takes, unread, after)

  produce-Taken :
      (current : ResponderStream) (cached : Option Manifest)
      → InStep current s
      → Gives Taken (Scans.produce lower digest store r current cached)
  unfolding Scans.produce
  produce-Taken current (some files) step =
      answer-Taken (record current { cached = some (take_cached files).1 }) (take_cached files).0
        record {
          scan_id = step.scan_id;
          namespace = step.namespace;
          sequence = step.sequence;
          seen = step.seen;
          open_still = step.open_still;
        }
  produce-Taken current none step =
      or_deferred-Gives Taken _ _ _ (λ chunk. answer-Taken current chunk step) defer_round-Taken

  on_hash_next-Taken :
      (current : ResponderStream)
      → r.stream ≡ some current
      → InStep current s
      → Gives Taken (Scans.on_hash_next lower digest store r s.scan_id s.sequence)
  unfolding Scans.on_hash_next
  on_hash_next-Taken current at step = check-Gives Taken _ _ λ c found.
      let here : some current ≡ some c = sym at ∙ or_err-ok _ _ found in
      let same : current ≡ c = cc in
      then-Gives Taken _ _ (
        if-Gives Taken c.hash_deferred _ _ defer_round-Taken
          (produce-Taken c c.cached (subst (λ d. InStep d s) same step)))

-- Where the phone's stream and the PC's are in step and the phone answers the call that the PC makes, without putting the
-- round off: the one frame that it sends is taken by that call, with nothing read beyond it, and both are in step
-- again, or the PC has seen the end and the phone's stream is over.
pub on_hash_next_taken :
    (lower : Text → Text) (digest : Namespace → Text) (S : Type 0) (store : Store S)
    → (r : Responder) (s : ScanStream) (current : ResponderStream) (before after : S) (t : Turn)
    → (rest : List Event) → r.stream ≡ some current
    → InStep current s
    → Scans.on_hash_next lower digest store r s.scan_id s.sequence before ≡ (ok t, after)
    → t.report ≡ none
    → Takes lower s t rest
on_hash_next_taken lower digest S store r s current before after t rest at step answers goes_on =
    (on_hash_next-Taken lower digest store r s current at step).on_success before after t answers
      goes_on rest
