-- ===== src/Responder/Checks.antt =====
-- What `respond_share` of crates/rowd-core/src/sync.rs checks and computes without its store.
use rowd.Base.{
  ℕ, suc, ◌-◌, Text, lookup, text_eq, Option, none, some, Bool, false, not, ◌&&◌, ◌==◌, leb, List,
  [], ◌∷◌, ◌++◌, length, take, drop, has, Result, ok, err, ensure, ◌>>◌, if◌then◌else◌,
}
use rowd.Model.{Entry, Manifest, max_file}
use rowd.Model.Manifests.{ManifestError}
use rowd.Model.Namespaces.{NamespaceEntry, Namespace}
use rowd.Paths.{PathError, validate_hash}
use rowd.Responder.{
  RespondError, bad_path, bad_files, invalid_hint, namespace_mismatch, body_too_large,
  truncated_body, wrong_body,
}
use rowd.Scan.{
  ScanMessage, scan_stream_begin, namespace_chunk, namespace_end, scan_stream_chunk_files,
}
use rowd.Wire.{StoreMetrics}

abbrev pub on_path : Result PathError (Unit {0}) → Result RespondError (Unit {0})
on_path (ok u) = ok tt
on_path (err e) = err (bad_path e)

abbrev pub on_files : Result ManifestError (Unit {0}) → Result RespondError (Unit {0})
on_files (ok u) = ok tt
on_files (err e) = err (bad_files e)

-- `for id in shares { validate_hash(&id)? }`
unfoldable pub validate_ids : List Text → Result RespondError (Unit {0})
validate_ids [] = ok tt
validate_ids (id ∷ ids) = on_path (validate_hash id) >> validate_ids ids

-- The frames for what is left of the namespace after `chunk`, and the sequence at the end.
unfoldable pub namespace_chunks : Text → ℕ → Namespace → Namespace → List ScanMessage × ℕ
namespace_chunks scan_id sequence [] [] = ([], sequence)
namespace_chunks scan_id sequence (x ∷ chunk) [] =
    (namespace_chunk scan_id sequence (x ∷ chunk) ∷ [], suc sequence)
namespace_chunks scan_id sequence chunk (x ∷ rest) =
    let grown = chunk ++ (x ∷ []) in
    let is_full = length grown == scan_stream_chunk_files in
    let (frames, last) =
      namespace_chunks scan_id (if is_full then suc sequence else sequence)
        (if is_full then [] else grown) rest in
    (if is_full then namespace_chunk scan_id sequence grown ∷ frames else frames, last)

unfoldable pub send_namespace :
    (digest : Namespace → Text) → Text → Text → Namespace → List ScanMessage
unfolding namespace_chunks
send_namespace digest scan_id binding namespace =
    let (frames, last) = namespace_chunks scan_id 0 [] namespace in
    scan_stream_begin scan_id binding
    ∷ (frames ++ (namespace_end scan_id last (length namespace) (digest namespace) ∷ []))

abbrev pub is_file : Option NamespaceEntry → Bool
is_file none = false
is_file (some entry) = not entry.directory

abbrev pub is_file_of : Option NamespaceEntry → ℕ → Bool
is_file_of none size = false
is_file_of (some entry) size = not entry.directory && (entry.size == size)

unfoldable pub add_hints : Namespace → List Text → List Text → Result RespondError (List Text)
add_hints namespace hints [] = ok hints
add_hints namespace hints (path ∷ paths) =
    ensure (is_file (lookup path namespace) && not (has hints path)) invalid_hint
    >> add_hints namespace (hints ++ (path ∷ [])) paths

-- The next files of a manifest that was scanned at once, and those that remain.
unfoldable pub take_cached : Manifest → Option Manifest × Manifest
take_cached [] = (none, [])
take_cached (x ∷ files) =
    (some (take scan_stream_chunk_files (x ∷ files)), drop scan_stream_chunk_files (x ∷ files))

unfoldable pub check_produced : Namespace → List Text → Manifest → Result RespondError (List Text)
check_produced namespace seen [] = ok seen
check_produced namespace seen ((path, entry) ∷ files) =
    ensure (is_file_of (lookup path namespace) entry.size && not (has seen path)) namespace_mismatch
    >> check_produced namespace (seen ++ (path ∷ [])) files

-- `saturating_sub` of each count of what the scan did
unfoldable pub scan_metrics : StoreMetrics → StoreMetrics → StoreMetrics
scan_metrics before later = record {
  files_enumerated = later.files_enumerated - before.files_enumerated;
  files_hashed = later.files_hashed - before.files_hashed;
  bytes_hashed = later.bytes_hashed - before.bytes_hashed;
  staging_copies = 0;
  full_scans = 1;
}

-- The body of a file, as many bytes as its entry says, with that digest (`from_digest`). `blake3` is not of this
-- repository.
unfoldable pub receive_blob :
    (blake3 : List ℕ → Text) → Entry → List ℕ → Result RespondError (List ℕ)
receive_blob blake3 entry body = do
  ensure (leb entry.size max_file) body_too_large
  ensure (length (take entry.size body) == entry.size) truncated_body
  ensure (text_eq (blake3 (take entry.size body)) entry.hash) wrong_body
  ok (take entry.size body)
