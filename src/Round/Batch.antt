-- ===== src/Round/Batch.antt =====
-- What the phone checks of a batch of files before it receives each of them: the reading thread of
-- `receive_put_batch` in crates/rowd-core/src/sync.rs.
use rowd.Base.{ℕ, ◌+◌, ◌||◌, ◌==◌, leb, ltb, List, [], ◌∷◌, Result, ok, err, ensure, ◌>>◌}
use rowd.Model.{max_file}
use rowd.Paths.{PathError, validate_path, validate_hash}
use rowd.Round.{
  Halt, PendingPut, max_in_flight_files, max_staged_bytes, saturating_add, bad_path,
  too_many_staged_files, too_many_staged_bytes, file_too_large,
}

abbrev pub on_path {ℓ} : {A : Type ℓ} → Result PathError (Unit {0}) → Result Halt A → Result Halt A
on_path (ok u) r = r
on_path (err e) r = err (bad_path e)

unfoldable pub check_put : ℕ → ℕ → PendingPut → Result Halt (Unit {0})
check_put count bytes job = do
  on_path (validate_path job.path) (on_path (validate_hash job.entry.hash) (ok tt))
  ensure (leb job.entry.size max_file) file_too_large
  ensure (ltb count max_in_flight_files) too_many_staged_files
  ensure (count == 0 || leb (saturating_add bytes job.entry.size) max_staged_bytes)
      too_many_staged_bytes

-- The files received, and how the reading ended.
abbrev pub receive :
    Result Halt (Unit {0})
    → PendingPut
    → List PendingPut × Result Halt (Unit {0})
    → List PendingPut × Result Halt (Unit {0})
receive (ok u) job (jobs, r) = (job ∷ jobs, r)
receive (err e) job rest = ([], err e)

unfoldable pub read_batch : ℕ → ℕ → List PendingPut → List PendingPut × Result Halt (Unit {0})
unfolding check_put
read_batch count bytes [] = ([], ok tt)
read_batch count bytes (job ∷ jobs) =
    receive (check_put count bytes job) job
      (read_batch (count + 1) (saturating_add bytes job.entry.size) jobs)
