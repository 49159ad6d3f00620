-- ===== src/Round.antt =====
-- The state of one synchronisation round of crates/rowd-core/src/sync.rs, as `coordinate_candidate`
-- sees it: the committed base and the marks of `State`, the files of both devices, and the windows
-- of transfers that are sent and not yet confirmed.
pub mod Exec
pub mod Turns
pub mod Decide
pub mod Batch
pub mod Transfer
pub mod Loop
pub mod Edits
pub mod Windows
pub mod Merge
use rowd.Base.{ℕ, ◌*◌, ◌+◌, ◌-◌, ◌^◌, Text, Map, Option, List, [], leb, if◌then◌else◌}
use rowd.Model.{Entry, Manifest}
use rowd.Paths.{PathError}

abbrev pub max_in_flight_files : ℕ
max_in_flight_files = 4

abbrev pub max_staged_bytes : ℕ
max_staged_bytes = 8 * 1024 * 1024

abbrev pub manifest_chunk_files : ℕ
manifest_chunk_files = 1024

-- `u64::saturating_add`
abbrev pub saturating_add : ℕ → ℕ → ℕ
saturating_add a b = if leb (a + b) (2 ^ 64 - 1) then a + b else 2 ^ 64 - 1

-- `expected` is the hash that the PC advertised the phone to hold when the `Put` was sent.
pub record PendingPut : Type 0 where
  pub path : Text
  pub entry : Entry
  pub expected : Option Text

pub record PendingGet : Type 0 where
  pub path : Text
  pub entry : Entry
  pub expected : Option Text

pub record Round : Type 0 where
  pub base : Map Text
  pub conflicts : Map (Unit {0})
  pub local : Manifest
  pub peer : Manifest
  pub pending_puts : List PendingPut
  pub put_bytes : ℕ
  pub pending_gets : List PendingGet
  pub get_bytes : ℕ
  pub ack_batch : Manifest
  pub ack_messages : ℕ
  pub transferred : ℕ
  pub conflict_count : ℕ

-- Why a round stops: `round_deferred` of the report, or the error that it returns. `unwrapped_none`
-- is the panic of an `unwrap`.
pub data Halt : Type 0 where
  deferred unexpected_blob stale_source stale_target ignored_path unwrapped_none : Halt
  too_many_staged_files too_many_staged_bytes file_too_large : Halt
  bad_path : PathError → Halt

-- How a round begins: the committed base, the marks, and the files of the PC and of the phone.
unfoldable pub begin : Map Text → Map (Unit {0}) → Manifest → Manifest → Round
begin base conflicts local peer = record {
  base = base;
  conflicts = conflicts;
  local = local;
  peer = peer;
  pending_puts = [];
  put_bytes = 0;
  pending_gets = [];
  get_bytes = 0;
  ack_batch = [];
  ack_messages = 0;
  transferred = 0;
  conflict_count = 0;
}
