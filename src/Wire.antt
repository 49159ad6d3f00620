-- ===== src/Wire.antt =====
-- The control messages of crates/rowd-core/src/protocol.rs, and how they stand in a stream of bytes.
pub mod Frames
pub mod Locality
pub mod Manifests
use rowd.Base.{
  ℕ, ◌+◌, ◌*◌, ◌/◌, ◌%◌, ◌^◌, Text, text_eq, Option, none, some, Bool, List, [], ◌∷◌, ◌++◌, length,
  take, drop, leb, Result, ok, err, ensure, if◌then◌else◌, ◌≡◌, or_err, Map,
}
use rowd.Base.Readers
unfoldable pub use rowd.Base.Readers.{read_on, ◌>>=◌, ◌>>◌, pure, with_rest, lift, read_exact}
use rowd.Model.{Manifest}
use rowd.Model.Manifests.{ManifestError}

abbrev pub max_frame : ℕ
max_frame = 16 * 1024 * 1024

abbrev pub protocol_version : ℕ
protocol_version = 17

pub record StoreMetrics : Type 0 where
  pub files_enumerated : ℕ
  pub files_hashed : ℕ
  pub bytes_hashed : ℕ
  pub staging_copies : ℕ
  pub full_scans : ℕ

pub record ShareError : Type 0 where
  pub side : Text
  pub share_id : Option Text
  pub operation : Text
  pub relative_path : Option Text
  pub kind : Text
  pub message : Text
  pub stream_reusable : Bool

-- The messages that the modelled exchanges read; `another` stands for each of the rest, by its JSON.
pub data Message : Type 0 where
  scoped : (share_id : Text) → Message → Message
  hello : (version : ℕ) → (pair_id device_id : Text) → Message
  challenge : (nonce : Text) → Message
  proof : (mac : Text) → Message
  ready scan_alive scan_deferred : Message
  manifest_begin : (count : ℕ) → Message
  manifest_chunk : (files : Manifest) → Message
  manifest_end : (metrics : StoreMetrics) → Message
  share_error : ShareError → Message
  error_message : Text → Message
  another : Text → Message

-- Why a message is not sent or not accepted.
pub data WireError : Type 0 where
  frame_too_large unexpected_eof malformed out_of_fuel : WireError
  missing_share wrong_share scan_was_deferred : WireError
  expected_begin expected_chunk expected_end too_many_files invalid_chunk duplicate_path
        exceeds_count :
      WireError
  invalid : ManifestError → WireError
  from_share : ShareError → WireError
  from_peer : Text → WireError

-- `serde_json::to_vec` and `from_slice`: what is written is read back.
pub record Json : Type 0 where
  pub to_vec : Message → List ℕ
  pub from_slice : List ℕ → Option Message
  pub reads : (m : Message) → from_slice (to_vec m) ≡ some m

-- What was written, and how the writing ended.
abbrev pub Writer : Type 0
Writer = Result WireError (Unit {0}) × List ℕ

abbrev pub sent : Writer
sent = (ok tt, [])

infixr 6 ◌and_then◌
unfoldable pub ◌and_then◌ : Writer → Writer → Writer
(ok u, bs) and_then (r, cs) = (r, bs ++ cs)
(err e, bs) and_then rest = (err e, bs)

abbrev pub Reader {ℓ} : Type ℓ → Type ℓ
Reader A = Readers.Reader WireError A

-- `u32::to_be_bytes` and `from_be_bytes`
unfoldable pub be_bytes : ℕ → List ℕ
be_bytes n = n / 2 ^ 24 % 256 ∷ n / 2 ^ 16 % 256 ∷ n / 2 ^ 8 % 256 ∷ n % 256 ∷ []

unfoldable pub from_be_bytes : List ℕ → ℕ
from_be_bytes (a ∷ b ∷ c ∷ d ∷ []) = ((a * 256 + b) * 256 + c) * 256 + d
from_be_bytes _ = 0

unfoldable pub check_peer_error : Message → Result WireError Message
check_peer_error (error_message text) = err (from_peer text)
check_peer_error (share_error e) = err (from_share e)
check_peer_error m = ok m

unfoldable pub unscope : Text → Message → Result WireError Message
unfolding check_peer_error
unscope share (scoped share_id m) =
    if text_eq share_id share then check_peer_error m else err wrong_share
unscope share _ = err missing_share

module _ (json : Json) where
  unfoldable pub send : Message → Writer
  unfolding be_bytes
  send m =
      let bytes = json.to_vec m in
      if leb (length bytes) max_frame
      then (ok tt, be_bytes (length bytes % 2 ^ 32) ++ bytes)
      else (err frame_too_large, [])

  unfoldable pub receive : Reader Message
  unfolding read_exact from_be_bytes check_peer_error
  receive = do
    len ← read_exact unexpected_eof 4
    lift (ensure (leb (from_be_bytes len) max_frame) frame_too_large)
    data_bytes ← read_exact unexpected_eof (from_be_bytes len)
    message ← lift (or_err (json.from_slice data_bytes) malformed)
    lift (check_peer_error message)

  unfoldable pub send_for : Text → Message → Writer
  unfolding send
  send_for share m = send (scoped share m)

  unfoldable pub receive_for : Text → Reader Message
  unfolding receive unscope
  receive_for share = do message ← receive; lift (unscope share message)
