-- ===== src/Responder/Keeps.antt =====
-- What a message of `respond_share` in crates/rowd-core/src/sync.rs keeps of the private files.
use rowd.Base.{
  ℕ, Text, none, some, true, false, not, ◌&&◌, ◌==◌, ==_iff, leb, ltb, leb→le, ltb→lt, &&-split,
  List, [], ◌∷◌, ◌++◌, length, All, ◌≡◌, refl, sym, ap, ◌∙◌, arith, append-nil,
}
use rowd.Responder.{ReceivedStage, Responder, Report, Turn, continues, ends_with, deferred_report}
use rowd.Responder.Stages.{stages_path, keep_stage, drop_stage, remove_stage}
use rowd.Round.{max_in_flight_files, max_staged_bytes, saturating_add}
use rowd.Responder.Staging.{
  Stages, stages_of, map-append, IsSound, Verified, keep_stage-IsSound, drop_stage-IsSound,
}
use rowd.Scan.{ScanMessage, is_empty}

-- One message: the files stay accounted for; what was held and what is staged is what is installed and what is held, in
-- that order; a round that ends otherwise than put off holds nothing.
pub record Keeps (blake3 : List ℕ → Text) (r : Responder) (t : Turn) : Type 0 where
  pub sound : IsSound blake3 t.responder
  pub in_order :
      stages_of r.incoming_stages ++ t.staged ≡ t.installed ++ stages_of t.responder.incoming_stages
  pub verified : All (Verified blake3) t.installed
  pub emptied :
      (report : Report)
      → t.report ≡ some report
      → report.round_deferred ≡ false
      → t.responder.incoming_stages ≡ []

module _ (blake3 : List ℕ → Text) where
  pub continues-Keeps :
      (r u : Responder) (sent : List ScanMessage)
      → IsSound blake3 u
      → u.incoming_stages ≡ r.incoming_stages
      → Keeps blake3 r (continues u sent)
  continues-Keeps r u sent sound same = record {
    sound = sound;
    in_order = append-nil (stages_of r.incoming_stages) ∙ ap stages_of (sym same);
    verified = tt;
    emptied = λ report h. absurd (no-report report h);
  }
    where
      no-report : (report : Report) → none ≡ some report → ⊥
      no-report report h = cc

  pub deferred-Keeps :
      (r u : Responder) (sent : List ScanMessage)
      → IsSound blake3 u
      → u.incoming_stages ≡ r.incoming_stages
      → Keeps blake3 r (ends_with u sent deferred_report)
  deferred-Keeps r u sent sound same = record {
    sound = sound;
    in_order = append-nil (stages_of r.incoming_stages) ∙ ap stages_of (sym same);
    verified = tt;
    emptied = λ report is whole. absurd (not_put_off report is whole);
  }
    where
      not_put_off :
          (report : Report) → some deferred_report ≡ some report → report.round_deferred ≡ false → ⊥
      not_put_off report is whole = cc

  nothing-left : (m : Stages) → is_empty m ≡ true → m ≡ []
  nothing-left [] h = refl
  nothing-left (x ∷ m) h = cc

  pub done-Keeps :
      (r : Responder) (report : Report)
      → IsSound blake3 r
      → is_empty r.incoming_stages ≡ true
      → Keeps blake3 r (ends_with r [] report)
  done-Keeps r report sound idle = record {
    sound = sound;
    in_order = append-nil (stages_of r.incoming_stages);
    verified = tt;
    emptied = λ report is whole. nothing-left r.incoming_stages idle;
  }

  pub keep_stage-Keeps :
      (r : Responder) (scan_id : Text) (sequence : ℕ) (v : ReceivedStage)
      → IsSound blake3 r
      → (sequence == r.stage_sequence) ≡ true
      → (ltb (length r.incoming_stages) max_in_flight_files
          && leb v.job.entry.size max_staged_bytes
          && leb (saturating_add r.incoming_bytes v.job.entry.size) max_staged_bytes)
        ≡ true
      → not (stages_path v.job.path r.incoming_stages) ≡ true
      → Verified blake3 v
      → Keeps blake3 r (keep_stage r scan_id sequence v)
  unfolding keep_stage
  keep_stage-Keeps r scan_id sequence v sound here fits new is_verified =
      let (room, small) = &&-split _ _ fits in
      let (after, last) =
        keep_stage-IsSound blake3 r scan_id sequence v sound ((==_iff _ _).0 here)
          (ltb→lt _ _ (&&-split _ _ room).0) (leb→le _ _ small) (ground (arith, new)) is_verified in
      record {
        sound = after;
        in_order =
            sym (map-append (λ (k, w). w) r.incoming_stages ((sequence, v) ∷ []))
            ∙ ap stages_of (sym last);
        verified = tt;
        emptied = λ report h. absurd (no_report report h);
      }
    where
      no_report : (report : Report) → none ≡ some report → ⊥
      no_report report h = cc

  pub drop_stage-Keeps :
      (r : Responder) (v : ReceivedStage) (rest : Stages)
      → IsSound blake3 r
      → remove_stage r.install_sequence r.incoming_stages ≡ some (v, rest)
      → Keeps blake3 r (drop_stage r v rest)
  unfolding drop_stage
  drop_stage-Keeps r v rest sound at =
      let (after, first, _, is_verified) = drop_stage-IsSound blake3 r v rest sound at in
      record {
        sound = after;
        in_order = append-nil (stages_of r.incoming_stages) ∙ ap stages_of first;
        verified = (is_verified, tt);
        emptied = λ report h. absurd (no_report report h);
      }
    where
      no_report : (report : Report) → none ≡ some report → ⊥
      no_report report h = cc
