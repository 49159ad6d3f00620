-- ===== src/Responder/Order.antt =====
-- The order in which `respond_share` of crates/rowd-core/src/sync.rs installs what it staged.
use rowd.Base.{
  Text, Option, none, some, List, [], ◌∷◌, ◌++◌, All, All-append, ok, false, ◌≡◌, refl, sym, ap,
  ◌∙◌, append_assoc, ℕ,
}
use rowd.Model.Namespaces.{Namespace}
use rowd.Responder.{ReceivedStage, Responder, Store, Outside, Report, Turn, Act, initial}
use rowd.Responder.Gives.{Gives, pure-Gives, err-Gives, bind-Gives}
use rowd.Responder.Handlers.{handle-Keeps}
use rowd.Responder.Keeps.{Keeps}
use rowd.Responder.Staging.{stages_of, IsSound, Verified, initial-IsSound}
use rowd.Responder.Steps.{Ended, joins, ends_or, handle, respond}
use rowd.Scan.{ScanMessage}

module _ (lower : Text → Text) (digest : Namespace → Text) (blake3 : List ℕ → Text) {S : Type 0}
    (store : Store S) where
  -- The states between the messages of a round.
  pub data Reach : Responder → Type 0 where
    began : Reach initial
    answered :
        {r : Responder}
        → Reach r
        → (outside : Outside) (message : ScanMessage) (before after : S) (t : Turn)
        → handle lower digest blake3 store r outside message before ≡ (ok t, after)
        → Reach t.responder

  -- What is installed is verified, and is what was held and staged, in that order; nothing is left over unless the round is
  -- put off.
  abbrev pub Installs : List ReceivedStage → Ended → Type 0
  Installs held e =
      All (Verified blake3) e.installed
      × (left : List ReceivedStage) × (held ++ e.staged ≡ e.installed ++ left)
      × (e.report.round_deferred ≡ false → left ≡ [])

  joins-Installs :
      (r : Responder) (t : Turn) (e : Ended)
      → Keeps blake3 r t
      → Installs (stages_of t.responder.incoming_stages) e
      → Installs (stages_of r.incoming_stages) (joins t e)
  joins-Installs r t e keeps (verified, left, order, none_left) = (
    All-append _ t.installed e.installed keeps.verified verified,
    left,
    sym (append_assoc (stages_of r.incoming_stages) t.staged e.staged)
        ∙ ap (λ l. l ++ e.staged) keeps.in_order
        ∙ append_assoc t.installed (stages_of t.responder.incoming_stages) e.staged
        ∙ ap (λ l. t.installed ++ l) order
        ∙ sym (append_assoc t.installed e.installed left),
    none_left,
  )

  ends_or-Gives :
      (r : Responder) (t : Turn) (report : Option Report) (rest : Act S Ended)
      → t.report ≡ report
      → Keeps blake3 r t
      → Gives (Installs (stages_of t.responder.incoming_stages)) rest
      → Gives
          (Installs (stages_of r.incoming_stages))
          (ends_or lower digest blake3 store t report rest)
  ends_or-Gives r t none rest is keeps later =
      bind-Gives _ _ rest _ later λ e installs. pure-Gives _ _ (joins-Installs r t e keeps installs)
  ends_or-Gives r t (some report) rest is keeps later = pure-Gives _ _ (
    keeps.verified,
    stages_of t.responder.incoming_stages,
    keeps.in_order,
    λ whole. ap stages_of (keeps.emptied report is whole),
  )

  respond-Gives :
      (r : Responder) (messages : List (ScanMessage × Outside))
      → IsSound blake3 r
      → Gives
          (Installs (stages_of r.incoming_stages))
          (respond lower digest blake3 store r messages)
  unfolding respond
  respond-Gives r [] sound = err-Gives _ _
  respond-Gives r ((message, outside) ∷ messages) sound =
      bind-Gives (Keeps blake3 r) _ _ _
        (handle-Keeps lower digest blake3 store r sound outside message)
        λ t keeps.
          ends_or-Gives r t t.report _ refl keeps (respond-Gives t.responder messages keeps.sound)

-- However the messages of a round come, between any two of them: the private files are numbered from the next one to be
-- installed to the next one to be staged, their paths differ, there are at most four, their sizes add up to what is
-- counted and to at most eight MiB, and each came in full with the digest of its entry.
pub Reach-IsSound :
    (lower : Text → Text) (digest : Namespace → Text) (blake3 : List ℕ → Text) (S : Type 0)
    → (store : Store S) (r : Responder) → Reach lower digest blake3 store r
    → IsSound blake3 r
Reach-IsSound lower digest blake3 S store _ began = initial-IsSound blake3
Reach-IsSound lower digest blake3 S store _
      (answered {r} reached outside message before after t h) =
    let sound = Reach-IsSound lower digest blake3 S store r reached in
    ((handle-Keeps lower digest blake3 store r sound outside message).on_success before after t
      h).sound

-- Whatever messages make up a round that ends with a report: each file that was installed from its private copy came in
-- full with the digest of its entry, they were installed in the order in which they were staged, none twice and none left
-- out, and if the round was not put off then all that were staged are installed.
pub respond-installs :
    (lower : Text → Text) (digest : Namespace → Text) (blake3 : List ℕ → Text) (S : Type 0)
    → (store : Store S) (messages : List (ScanMessage × Outside)) (before after : S) (e : Ended)
    → respond lower digest blake3 store initial messages before ≡ (ok e, after)
    → All (Verified blake3) e.installed
      × (left : List ReceivedStage) × (e.staged ≡ e.installed ++ left)
      × (e.report.round_deferred ≡ false → left ≡ [])
respond-installs lower digest blake3 S store messages before after e h =
    (respond-Gives lower digest blake3 store initial messages (initial-IsSound blake3)).on_success
      before after e h
