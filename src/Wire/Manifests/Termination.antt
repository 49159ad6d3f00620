-- ===== src/Wire/Manifests/Termination.antt =====
-- The loop of `receive_manifest_with_metrics` in crates/rowd-core/src/protocol.rs.
use rowd.Base.{
  ℕ, zero, suc, ◌+◌, ◌≤◌, ◌<◌, Text, lookup, insert, Option, none, some, Bool, true, false, ◌&&◌,
  not, ◌==◌, leb, ltb, List, [], ◌∷◌, length, Result, ok, err, ensure, or_err, if-split, ◌≡◌, ◌≢◌,
  refl, sym, ap, ◌∙◌, arith, Option-cases, inl, inr,
}
use rowd.Model.Manifests.{ManifestError}
use rowd.Model.{Entry, Manifest}
use rowd.Round.{manifest_chunk_files}
use rowd.Wire.{
  unexpected_eof, scoped, share_error, error_message, manifest_begin, manifest_chunk, manifest_end,
  scan_deferred, invalid_chunk, Json, WireError, out_of_fuel, Message, check_peer_error, unscope,
  read_exact, receive, receive_for,
}
use rowd.Wire.Manifests.{
  begin_count, chunk_files, end_metrics, add_chunk, accept_chunk, receive_chunks, receive_manifest,
  checked, on_manifest, within,
}
use rowd.Wire.Manifests.Fuelled.{
  starves, starved, Fuelled, Fuelled-pure, Fuelled-lift, Fuelled-if, Fuelled-bind,
  Fuelled-lift-bind,
}

starved-ensure : (b : Bool) (e : WireError) → starves e ≡ false → starved (ensure b e) ≡ false
starved-ensure true e n = refl
starved-ensure false e n = n

starved-or_err {ℓ} :
    {A : Type ℓ} (o : Option A) (e : WireError) → starves e ≡ false → starved (or_err o e) ≡ false
starved-or_err none e n = n
starved-or_err (some a) e n = refl

read_exact-Fuelled : (n : ℕ) → Fuelled (read_exact unexpected_eof n)
unfolding read_exact
read_exact-Fuelled n = record { at = λ s. ground arith }

starved-check_peer_error : (m : Message) → starved (check_peer_error m) ≡ false
unfolding check_peer_error
starved-check_peer_error (share_error e) = refl
starved-check_peer_error (error_message t) = refl
starved-check_peer_error _ = refl

starved-unscope : (share : Text) (m : Message) → starved (unscope share m) ≡ false
unfolding unscope
starved-unscope share (scoped id n) = ground (arith, starved-check_peer_error n)
starved-unscope share _ = refl

starved-begin_count : (m : Message) → starved (begin_count m) ≡ false
unfolding begin_count
starved-begin_count (manifest_begin n) = refl
starved-begin_count scan_deferred = refl
starved-begin_count _ = refl

starved-chunk_files : (m : Message) → starved (chunk_files m) ≡ false
unfolding chunk_files
starved-chunk_files (manifest_chunk files) = refl
starved-chunk_files _ = refl

starved-end_metrics : (m : Message) → starved (end_metrics m) ≡ false
unfolding end_metrics
starved-end_metrics (manifest_end n) = refl
starved-end_metrics _ = refl

starved-on_manifest : (r : Result ManifestError (Unit {0})) → starved (on_manifest r) ≡ false
starved-on_manifest (ok u) = refl
starved-on_manifest (err e) = refl

starved-checked : (lower : Text → Text) (files : Manifest) → starved (checked lower files) ≡ false
unfolding checked
starved-checked lower files = starved-on_manifest _

starved-add_chunk : (files chunk : Manifest) → starved (add_chunk files chunk) ≡ false
unfolding add_chunk
starved-add_chunk files [] = refl
starved-add_chunk files ((path, entry) ∷ chunk) =
    ground (arith, starved-add_chunk (insert path entry files) chunk)

-- A chunk that is accepted adds a file at least.
length-insert :
    (k : Text) (e : Entry) (m : Manifest)
    → lookup k m ≡ none
    → length (insert k e m) ≡ suc (length m)
unfolding lookup insert
length-insert k e [] h = refl
length-insert k e ((j, d) ∷ m) h = ground (arith, h, length-insert k e m)

duplicate :
    (path : Text) (entry d : Entry) (files chunk : Manifest) {more : Manifest}
    → lookup path files ≡ some d
    → add_chunk files ((path, entry) ∷ chunk) ≢ ok more
unfolding add_chunk
duplicate path entry d files chunk there h = ground (arith, rw there at h)

length-add_chunk :
    (files chunk more : Manifest)
    → add_chunk files chunk ≡ ok more
    → length more ≡ length files + length chunk
unfolding add_chunk
length-add_chunk files [] more h = ground (arith, h)
length-add_chunk files ((path, entry) ∷ chunk) more h = elim (Option-cases (lookup path files)) [
  | inl fresh ↦ omega (
    arith,
    length-insert path entry files fresh,
    length-add_chunk (insert path entry files) chunk more (rw fresh at h),
  )
  | inr (e, there) ↦ absurd (duplicate path entry e files chunk there h)
]

within-ok :
    (count : ℕ) (r : Result WireError Manifest) (more : Manifest)
    → within count r ≡ ok more
    → r ≡ ok more
within-ok count (ok files) more h = ground (arith, h)
within-ok count (err e) more h = h

starved-within :
    (count : ℕ) (r : Result WireError Manifest)
    → starved r ≡ false
    → starved (within count r) ≡ false
starved-within count (ok files) n = ground arith
starved-within count (err e) n = n

accept_chunk-longer :
    (count : ℕ) (files chunk more : Manifest)
    → accept_chunk count files chunk ≡ ok more
    → length files < length more
unfolding accept_chunk
accept_chunk-longer count files chunk more h =
    elim (if-split (not (length chunk == 0) && leb (length chunk) manifest_chunk_files)
      (within count (add_chunk files chunk)) (err invalid_chunk) h) [
        | inl (full, inside) ↦ ground (
          arith,
          full,
          length-add_chunk files chunk more (within-ok count (add_chunk files chunk) more inside),
        )
        | inr (_, bad) ↦ cc
      ]

starved-accept_chunk :
    (count : ℕ) (files chunk : Manifest) → starved (accept_chunk count files chunk) ≡ false
unfolding accept_chunk
starved-accept_chunk count files chunk =
    ground (arith, starved-within count (add_chunk files chunk) (starved-add_chunk files chunk))

module _ (json : Json) (share : Text) where
  receive-Fuelled : Fuelled (receive json)
  unfolding receive
  receive-Fuelled = Fuelled-bind _ _ (read_exact-Fuelled 4) λ len _ _ _.
      Fuelled-lift-bind _ _ (starved-ensure _ _ refl) λ _ _.
        Fuelled-bind _ _ (read_exact-Fuelled _) λ bytes _ _ _.
          Fuelled-lift-bind _ _ (starved-or_err _ _ refl)
            λ m _. Fuelled-lift _ (starved-check_peer_error m)

  receive_for-Fuelled : Fuelled (receive_for json share)
  unfolding receive_for
  receive_for-Fuelled =
      Fuelled-bind _ _ receive-Fuelled λ m _ _ _. Fuelled-lift _ (starved-unscope share m)

  -- Each turn adds a file, and there are `count` of them at most.
  receive_chunks-Fuelled :
      (fuel count : ℕ) (files : Manifest)
      → count ≤ length files + fuel
      → Fuelled (receive_chunks json share fuel count files)
  unfolding receive_chunks
  receive_chunks-Fuelled zero count files enough = rw (full) (Fuelled-pure files)
    where
      full : ltb (length files) count ≡ false
      full = ground (arith, enough)
  receive_chunks-Fuelled (suc fuel) count files enough =
      Fuelled-if _ _ _
        (Fuelled-bind _ _ receive_for-Fuelled λ message _ _ _.
          Fuelled-lift-bind _ _ (starved-chunk_files message) λ chunk _.
            Fuelled-lift-bind _ _ (starved-accept_chunk count files chunk) λ more e.
              receive_chunks-Fuelled fuel count more
                (omega (arith, enough, accept_chunk-longer count files chunk more e)))
        (Fuelled-pure files)

  receive_manifest-Fuelled : (lower : Text → Text) → Fuelled (receive_manifest json share lower)
  unfolding receive_manifest
  receive_manifest-Fuelled lower = Fuelled-bind _ _ receive_for-Fuelled λ first _ _ _.
      Fuelled-lift-bind _ _ (starved-begin_count first) λ count _.
        Fuelled-lift-bind _ _ (starved-ensure _ _ refl) λ _ _.
          Fuelled-bind _ _ (receive_chunks-Fuelled count count [] (omega arith)) λ files _ _ _.
            Fuelled-bind _ _ receive_for-Fuelled λ last _ _ _.
              Fuelled-lift-bind _ _ (starved-end_metrics last) λ metrics _.
                Fuelled-lift-bind _ _ (starved-checked lower files) λ _ _. Fuelled-pure _

-- Whatever bytes arrive, the chunks that a manifest is read in are as many as its count at most, which is the fuel given.
pub receive_manifest-returns :
    (json : Json) (share : Text) (lower : Text → Text) (s : List ℕ)
    → receive_manifest json share lower s ≢ err out_of_fuel
receive_manifest-returns json share lower s h =
    let k : true ≡ false = sym (ap starved h) ∙ (receive_manifest-Fuelled json share lower).at s in
    cc
