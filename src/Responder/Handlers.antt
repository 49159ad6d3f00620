-- ===== src/Responder/Handlers.antt =====
-- Each handler of crates/rowd-core/src/sync.rs keeps account of the private files.
use rowd.Base.{
  ℕ, Text, Option, none, some, true, ◌&&◌, ==_iff, &&-split, List, [], ensure, or_err-ok, ◌≡◌, refl,
  subst,
}
use rowd.Model.{Entry, Manifest}
use rowd.Model.Namespaces.{Namespace}
use rowd.Responder.{
  IncomingPut, ResponderStream, Responder, Store, Outside, Turn, Act, pure, check, ◌>>◌,
  unexpected_liveness, continues, defer_round,
}
use rowd.Responder.Gives.{
  Gives, pure-Gives, err-Gives, >>=-Gives, check-Gives, or_deferred-Gives, ensure-Gives, then-Gives,
  if-Gives,
}
use rowd.Responder.Scans
use rowd.Responder.Stages
use rowd.Responder.Stages.{stages_path, keep_stage, drop_stage, remove_stage}
use rowd.Responder.Steps
use rowd.Responder.Staging.{Stored-empty, IsSound, receive_blob-Verified}
use rowd.Wire.{StoreMetrics}
use rowd.Scan.{
  ScanMessage, scan_continue, audit_preempt, scan, ack_batch, hash_stream_begin, hash_stage_hint,
  hash_release, hash_next, stage_put, install_staged, get, legacy_hash, put, delta_scan, done,
  scan_alive, is_absent, is_empty,
}
use rowd.Responder.Keeps.{
  Keeps, continues-Keeps, deferred-Keeps, done-Keeps, keep_stage-Keeps, drop_stage-Keeps,
}

module _ (lower : Text → Text) (digest : Namespace → Text) (blake3 : List ℕ → Text) {S : Type 0}
    (store : Store S) (r : Responder) (sound : IsSound blake3 r) where
  abbrev Kept : Act S Turn → Type 0
  Kept m = Gives (Keeps blake3 r) m

  abbrev P : Turn → Type 0
  P = Keeps blake3 r

  same :
      (u : Responder) (sent : List ScanMessage)
      → IsSound blake3 u
      → u.incoming_stages ≡ r.incoming_stages
      → Kept (pure (continues u sent))
  same u sent h e = pure-Gives P (continues u sent) (continues-Keeps blake3 r u sent h e)

  defer_round-Keeps :
      (u : Responder) (sent : List ScanMessage)
      → IsSound blake3 u
      → u.incoming_stages ≡ r.incoming_stages
      → Kept (defer_round store u sent)
  unfolding defer_round
  defer_round-Keeps u sent h e = then-Gives P _ _ (pure-Gives P _ (deferred-Keeps blake3 r u _ h e))

  on_stage_hint-Keeps :
      (scan_id : Text) (paths : List Text)
      → Kept (Scans.on_stage_hint lower digest store r scan_id paths)
  unfolding Scans.on_stage_hint
  on_stage_hint-Keeps scan_id paths =
      >>=-Gives P _ _ λ current. then-Gives P _ _ (>>=-Gives P _ _ λ hints. same _ _ sound refl)

  on_release-Keeps :
      (scan_id : Text) (paths : List Text)
      → Kept (Scans.on_release lower digest store r scan_id paths)
  unfolding Scans.on_release
  on_release-Keeps scan_id paths =
      >>=-Gives P _ _ λ current. then-Gives P _ _ (then-Gives P _ _ (same _ _ sound refl))

  on_begin-Keeps :
      (scan_id binding : Text) → Kept (Scans.on_begin lower digest store r scan_id binding)
  unfolding Scans.on_begin
  on_begin-Keeps scan_id binding = >>=-Gives P _ _ λ current. then-Gives P _ _ (
      >>=-Gives P _ _ λ now.
        then-Gives P _ _
          (or_deferred-Gives P _ _ _ (λ _. same _ _ sound refl) (same _ _ sound refl)))

  pass_gate-Keeps :
      (u : Responder) (gate : ScanMessage) (go : Act S Turn)
      → IsSound blake3 u
      → u.incoming_stages ≡ r.incoming_stages
      → Kept go
      → Kept (Scans.pass_gate store u gate go)
  unfolding Scans.pass_gate
  pass_gate-Keeps u scan_continue go h e kept = kept
  pass_gate-Keeps u (audit_preempt shares) go h e kept =
      then-Gives P _ _ (defer_round-Keeps u _ h e)
  pass_gate-Keeps u _ go h e kept = err-Gives P _

  answer-Keeps :
      (current : ResponderStream) (chunk : Option Manifest)
      → Kept (Scans.answer lower digest store r current chunk)
  unfolding Scans.answer_end Scans.answer_chunk
  answer-Keeps current none = then-Gives P _ _ (
      >>=-Gives P _ _ λ now. then-Gives P _ _ (
        then-Gives P _ _ (
          then-Gives P _ _
            (>>=-Gives P _ _ λ later. >>=-Gives P _ _ λ pipeline. same _ _ sound refl))))
  answer-Keeps current (some files) =
      then-Gives P _ _ (then-Gives P _ _ (>>=-Gives P _ _ λ seen. same _ _ sound refl))

  produce-Keeps :
      (current : ResponderStream) (cached : Option Manifest)
      → Kept (Scans.produce lower digest store r current cached)
  unfolding Scans.produce
  produce-Keeps current (some files) = answer-Keeps _ _
  produce-Keeps current none =
      or_deferred-Gives P _ _ _ (λ chunk. answer-Keeps current chunk)
        (defer_round-Keeps r [] sound refl)

  on_hash_next-Keeps :
      (scan_id : Text) (sequence : ℕ)
      → Kept (Scans.on_hash_next lower digest store r scan_id sequence)
  unfolding Scans.on_hash_next
  on_hash_next-Keeps scan_id sequence = >>=-Gives P _ _ λ current. then-Gives P _ _ (
      if-Gives P current.hash_deferred _ _ (defer_round-Keeps r [] sound refl)
        (produce-Keeps current current.cached))

  on_preempt-Keeps : (shares : List Text) → Kept (Scans.on_preempt lower digest store r shares)
  unfolding Scans.on_preempt
  on_preempt-Keeps shares = then-Gives P _ _ (then-Gives P _ _ (defer_round-Keeps r [] sound refl))

  offer_namespace-Keeps :
      (u : Responder) (outside : Outside) (before : StoreMetrics) (binding : Text)
      (namespace : Namespace) (files : Option Manifest)
      → IsSound blake3 u
      → u.incoming_stages ≡ r.incoming_stages
      → Kept (Scans.offer_namespace lower digest store u outside before binding namespace files)
  unfolding Scans.offer_namespace
  offer_namespace-Keeps u outside before binding namespace files h e =
      then-Gives P _ _ (pass_gate-Keeps u outside.gate _ h e (same _ _ h e))

  rescanned-IsSound :
      (is_absent r.stream && is_empty r.incoming_stages) ≡ true
      → IsSound blake3 (Scans.rescanned lower digest store r)
  rescanned-IsSound idle =
      Stored-empty blake3 r.incoming_stages r.install_sequence r.stage_sequence r.incoming_bytes
        sound (&&-split _ _ idle).1

  streamed-Keeps :
      (u : Responder) (offer : Namespace → Option Manifest → Act S Turn) (names : Option Namespace)
      → IsSound blake3 u
      → u.incoming_stages ≡ r.incoming_stages
      → ((namespace : Namespace) (files : Option Manifest) → Kept (offer namespace files))
      → Kept (Scans.streamed lower digest store u offer names)
  streamed-Keeps u offer (some namespace) h e kept = kept namespace none
  streamed-Keeps u offer none h e kept =
      or_deferred-Gives P _ _ _ (λ files. kept _ _) (defer_round-Keeps u [] h e)

  on_scan-Keeps : (outside : Outside) → Kept (Scans.on_scan lower digest store r outside)
  unfolding Scans.on_scan Scans.scan_names
  on_scan-Keeps outside = ensure-Gives P _ _ _ λ idle. >>=-Gives P _ _ λ before.
      >>=-Gives P _ _ λ binding.
        let u = Scans.rescanned lower digest store r in
        let h = rescanned-IsSound idle in
        or_deferred-Gives P _ _ _
          (λ names. streamed-Keeps u _ names h refl λ namespace files.
            offer_namespace-Keeps u outside before binding namespace files h refl)
          (defer_round-Keeps u [] h refl)

  on_ack-Keeps : (entries : Manifest) → Kept (Steps.on_ack lower digest blake3 store r entries)
  unfolding Steps.on_ack
  on_ack-Keeps entries =
      then-Gives P _ _ (then-Gives P _ _ (then-Gives P _ _ (same _ _ sound refl)))

  answer_delta-Keeps :
      (before : StoreMetrics) (candidate : Option (List Text × Manifest))
      → Kept (Steps.answer_delta store r before candidate)
  unfolding Steps.answer_delta
  answer_delta-Keeps before none = same _ _ sound refl
  answer_delta-Keeps before (some (paths, files)) = >>=-Gives P _ _ λ later. same _ _ sound refl

  on_delta-Keeps :
      (outside : Outside) (base_token : Text) (paths : List Text)
      → Kept (Steps.on_delta store r outside base_token paths)
  unfolding Steps.on_delta
  on_delta-Keeps outside base_token paths = >>=-Gives P _ _ λ old. >>=-Gives P _ _ λ before.
      if-Gives P _ _ _
        (or_deferred-Gives P _ _ _
          (λ candidate.
            pass_gate-Keeps r outside.gate _ sound refl (answer_delta-Keeps before candidate))
          (defer_round-Keeps r [] sound refl))
        (pass_gate-Keeps r outside.gate _ sound refl (answer_delta-Keeps before none))

  on_legacy_hash-Keeps : (path : Text) (e : Entry) → Kept (Steps.on_legacy_hash store r path e)
  unfolding Steps.on_legacy_hash
  on_legacy_hash-Keeps path e = then-Gives P _ _ (
      then-Gives P _ _
        (then-Gives P _ _ (then-Gives P _ _ (>>=-Gives P _ _ λ hash. same _ _ sound refl))))

  on_get-Keeps : (path : Text) (e : Entry) → Kept (Steps.on_get store r path e)
  unfolding Steps.on_get Steps.refuse_get Steps.serve_get
  on_get-Keeps path e = then-Gives P _ _ (
      then-Gives P _ _ (
        then-Gives P _ _ (
          if-Gives P _ _ _ (then-Gives P _ _ (same _ _ sound refl)) (
            or_deferred-Gives P _ _ _ (λ content. same _ _ sound refl)
              (then-Gives P _ _ (same _ _ sound refl))))))

  on_put-Keeps : (job : IncomingPut) → Kept (Steps.on_put store r job)
  unfolding Steps.on_put
  on_put-Keeps job = then-Gives P _ _ (>>=-Gives P _ _ λ paths. same _ _ sound refl)

  on_done-Keeps :
      (transferred conflicts : ℕ) (base_token : Text)
      → Kept (Steps.on_done store r transferred conflicts base_token)
  unfolding Steps.on_done
  on_done-Keeps transferred conflicts base_token = ensure-Gives P _ _ _ λ idle. then-Gives P _ _ (
      then-Gives P _ _
        (then-Gives P _ _ (pure-Gives P _ (done-Keeps blake3 r _ sound (&&-split _ _ idle).1))))

  on_stage_put-Keeps :
      (outside : Outside) (scan_id : Text) (sequence : ℕ) (job : IncomingPut)
      → Kept (Stages.on_stage_put blake3 store r outside scan_id sequence job)
  unfolding Stages.on_stage_put
  on_stage_put-Keeps outside scan_id sequence job = >>=-Gives P _ _ λ current.
      ensure-Gives P _ _ _ λ aligned. >>=-Gives P _ _ λ binding. then-Gives P _ _ (
        then-Gives P _ _ (
          then-Gives P _ _ (
            then-Gives P _ _ (
              >>=-Gives P _ _ λ excluded. then-Gives P _ _ (
                ensure-Gives P _ _ _ λ room. ensure-Gives P _ _ _ λ new. then-Gives P _ _ (
                  check-Gives P _ _ λ body receives. >>=-Gives P _ _ λ again. then-Gives P _ _ (
                    pure-Gives P _ (
                      keep_stage-Keeps blake3 r scan_id sequence _ sound (&&-split _ _ aligned).1
                        room new
                        (receive_blob-Verified blake3 job outside.body body receives)))))))))

  on_install-Keeps :
      (scan_id : Text) (sequence : ℕ) → Kept (Stages.on_install blake3 store r scan_id sequence)
  unfolding Stages.on_install
  on_install-Keeps scan_id sequence = ensure-Gives P _ _ _ λ early.
      >>=-Gives P _ _ λ (completed_id, binding). then-Gives P _ _ (
        >>=-Gives P _ _ λ now. then-Gives P _ _ (
          check-Gives P _ _ λ (stage, rest) removed. then-Gives P _ _ (
            pure-Gives P _ (
              drop_stage-Keeps blake3 r stage rest sound (
                subst (λ k. remove_stage k r.incoming_stages ≡ some (stage, rest))
                  ((==_iff _ _).0 (&&-split _ _ early).1) (or_err-ok _ _ removed))))))

  alive-Keeps :
      Kept (check (ensure (is_absent r.stream) unexpected_liveness) >> pure (continues r []))
  alive-Keeps = then-Gives P _ _ (same _ _ sound refl)

  dispatch-Keeps :
      (outside : Outside) (message : ScanMessage)
      → Kept (Steps.dispatch lower digest blake3 store r outside message)
  unfolding Steps.dispatch
  dispatch-Keeps outside (ack_batch entries) = on_ack-Keeps entries
  dispatch-Keeps outside scan = on_scan-Keeps outside
  dispatch-Keeps outside (hash_stage_hint scan_id paths) = on_stage_hint-Keeps scan_id paths
  dispatch-Keeps outside (hash_release scan_id paths) = on_release-Keeps scan_id paths
  dispatch-Keeps outside (hash_stream_begin scan_id binding) = on_begin-Keeps scan_id binding
  dispatch-Keeps outside (stage_put scan_id sequence path e expected) =
      on_stage_put-Keeps outside scan_id sequence _
  dispatch-Keeps outside (install_staged scan_id sequence) = on_install-Keeps scan_id sequence
  dispatch-Keeps outside (hash_next scan_id sequence) = on_hash_next-Keeps scan_id sequence
  dispatch-Keeps outside (audit_preempt shares) = on_preempt-Keeps shares
  dispatch-Keeps outside (delta_scan base_token paths) = on_delta-Keeps outside base_token paths
  dispatch-Keeps outside scan_alive = alive-Keeps
  dispatch-Keeps outside (legacy_hash path e) = on_legacy_hash-Keeps path e
  dispatch-Keeps outside (get path e) = on_get-Keeps path e
  dispatch-Keeps outside (put path e expected) = on_put-Keeps _
  dispatch-Keeps outside (done transferred conflicts base_token) =
      on_done-Keeps transferred conflicts base_token
  dispatch-Keeps outside _ = err-Gives P _

  pub handle-Keeps :
      (outside : Outside) (message : ScanMessage)
      → Kept (Steps.handle lower digest blake3 store r outside message)
  unfolding Steps.handle
  handle-Keeps outside message = then-Gives P _ _ (dispatch-Keeps outside message)
