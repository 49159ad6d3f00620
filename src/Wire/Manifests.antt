-- ===== src/Wire/Manifests.antt =====
-- A manifest in chunks: `send_manifest_with_metrics` and `receive_manifest_with_metrics` of
-- crates/rowd-core/src/protocol.rs. The count of received bytes, which is for tracing, is left out.
pub mod RoundTrip
pub mod Fuelled
pub mod Termination
pub mod Truncation
use rowd.Base.{
  ℕ, zero, suc, ◌-◌, Text, Map, lookup, insert, Option, none, some, Bool, true, false, not, ◌&&◌,
  ◌==◌, leb, ltb, List, [], ◌∷◌, length, Result, ok, err, ensure, if◌then◌else◌, ◌≡◌, refl,
}
use rowd.Model.{Entry, Manifest, max_files}
use rowd.Model.Manifests.{ManifestError, validate_manifest}
use rowd.Round.{manifest_chunk_files}
use rowd.Wire.{
  Message, manifest_begin, manifest_chunk, manifest_end, scan_deferred, StoreMetrics, Json, Writer,
  Reader, sent, ◌and_then◌, send_for, receive_for, WireError, out_of_fuel, scan_was_deferred,
  expected_begin, expected_chunk, expected_end, too_many_files, invalid_chunk, duplicate_path,
  exceeds_count, invalid, ◌>>=◌, ◌>>◌, lift, pure,
}

abbrev is_some {ℓ} : {A : Type ℓ} → Option A → Bool
is_some none = false
is_some (some a) = true

abbrev pub on_manifest : Result ManifestError (Unit {0}) → Result WireError (Unit {0})
on_manifest (ok u) = ok tt
on_manifest (err e) = err (invalid e)

unfoldable pub checked : (Text → Text) → Manifest → Result WireError (Unit {0})
checked lower files = on_manifest (validate_manifest lower files)

abbrev pub then_write : Result WireError (Unit {0}) → Writer → Writer
then_write (ok u) w = w
then_write (err e) w = (err e, [])

module _ (json : Json) (share : Text) where
  unfoldable pub send_rest : Manifest → Writer
  send_rest [] = sent
  send_rest ((path, entry) ∷ chunk) = send_for json share (manifest_chunk ((path, entry) ∷ chunk))

  -- The loop: `chunk` is what was collected since the last chunk was sent.
  unfoldable pub send_chunks : Manifest → Manifest → Writer
  unfolding send_rest ◌and_then◌
  send_chunks chunk [] = send_rest chunk
  send_chunks chunk ((path, entry) ∷ files) =
      let more = insert path entry chunk in
      let next = send_chunks [] files in
      let later = send_chunks more files in
      if length more == manifest_chunk_files
      then send_for json share (manifest_chunk more) and_then next
      else later

  unfoldable pub send_manifest : (Text → Text) → Manifest → StoreMetrics → Writer
  unfolding send_chunks checked
  send_manifest lower files metrics = then_write (checked lower files) (
      send_for json share (manifest_begin (length files))
      and_then (send_chunks [] files and_then send_for json share (manifest_end metrics)))

unfoldable pub begin_count : Message → Result WireError ℕ
begin_count (manifest_begin count) = ok count
begin_count scan_deferred = err scan_was_deferred
begin_count _ = err expected_begin

unfoldable pub chunk_files : Message → Result WireError Manifest
chunk_files (manifest_chunk files) = ok files
chunk_files _ = err expected_chunk

unfoldable pub end_metrics : Message → Result WireError StoreMetrics
end_metrics (manifest_end metrics) = ok metrics
end_metrics _ = err expected_end

-- `for (path, entry) in chunk`
unfoldable pub add_chunk : Manifest → Manifest → Result WireError Manifest
add_chunk files [] = ok files
add_chunk files ((path, entry) ∷ chunk) =
    let rest = add_chunk (insert path entry files) chunk in
    if is_some (lookup path files) then err duplicate_path else rest

abbrev pub within : ℕ → Result WireError Manifest → Result WireError Manifest
within count (ok files) = if leb (length files) count then ok files else err exceeds_count
within count (err e) = err e

unfoldable pub accept_chunk : ℕ → Manifest → Manifest → Result WireError Manifest
unfolding add_chunk
accept_chunk count files chunk =
    if not (length chunk == 0) && leb (length chunk) manifest_chunk_files
    then within count (add_chunk files chunk)
    else err invalid_chunk

module _ (json : Json) (share : Text) where
  -- `while files.len() < count`; the fuel is for the chunks.
  unfoldable pub receive_chunks : ℕ → ℕ → Manifest → Reader Manifest
  unfolding accept_chunk chunk_files
  receive_chunks zero count files =
      if ltb (length files) count then lift (err out_of_fuel) else pure files
  receive_chunks (suc fuel) count files =
      let more : Manifest → Reader Manifest = λ longer. receive_chunks fuel count longer in
      if ltb (length files) count
      then (do
        message ← receive_for json share
        chunk ← lift (chunk_files message)
        longer ← lift (accept_chunk count files chunk)
        more longer)
      else pure files

  unfoldable pub receive_manifest : (Text → Text) → Reader (Manifest × StoreMetrics)
  unfolding receive_chunks begin_count end_metrics checked
  receive_manifest lower = do
    first ← receive_for json share
    count ← lift (begin_count first)
    lift (ensure (leb count max_files) too_many_files)
    files ← receive_chunks count count []
    last ← receive_for json share
    metrics ← lift (end_metrics last)
    lift (checked lower files)
    pure (files, metrics)
