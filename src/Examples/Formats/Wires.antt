-- ===== src/Examples/Formats/Wires.antt =====
-- Manifests of crates/rowd-core/src/protocol.rs on a stream of bytes.
use rowd.Base.{
  ℕ, Text, codes, List, [], ◌∷◌, ◌++◌, take, drop, ok, err, ◌≡◌, ◌≢◌, refl, text_eq, text_lt,
  lookup, insert,
}
use rowd.Model.{Manifest}
use rowd.Model.Manifests.{validate_manifest}
use rowd.Model.Manifests.Collisions.{validate_manifest-apart}
use rowd.Paths.{validate_path, validate_hash, slash}
use rowd.Wire.{StoreMetrics, ◌and_then◌, out_of_fuel, send_for}
use rowd.Wire.Manifests.{send_manifest, receive_manifest}
use rowd.Wire.Manifests.RoundTrip.{receive_manifest-send_manifest}
use rowd.Wire.Manifests.Termination.{receive_manifest-returns}
use rowd.Wire.Manifests.Truncation.{receive_manifest-truncated}
use rowd.Examples.Rounds.{file}
use rowd.Examples.Formats.{codec}

abbrev files : Manifest
files = (codes "a", file b'2') ∷ (codes "b/c", file b'1') ∷ []

abbrev metrics : StoreMetrics
metrics = record {
  files_enumerated = 2;
  files_hashed = 1;
  bytes_hashed = 10;
  staging_copies = 0;
  full_scans = 1;
}

abbrev lower : Text → Text
lower t = t

abbrev bytes : List ℕ
bytes = (send_manifest codec (codes "s") lower files metrics).1

sending : (send_manifest codec (codes "s") lower files metrics).0 ≡ ok tt
unfolding codec send_manifest validate_manifest validate_path validate_hash ◌and_then◌ send_for
    lookup insert text_lt
sending = refl

receive_manifest-send_manifest_example :
    receive_manifest codec (codes "s") lower (bytes ++ codes "next")
    ≡ ok ((files, metrics), codes "next")
unfolding text_lt
receive_manifest-send_manifest_example =
    receive_manifest-send_manifest codec (codes "s") lower files metrics (codes "next")
      ((refl, tt), (tt, tt)) sending

receive_manifest-returns_example :
    receive_manifest codec (codes "s") lower (codes "noise") ≢ err out_of_fuel
receive_manifest-returns_example = receive_manifest-returns codec (codes "s") lower (codes "noise")

abbrev next_byte : List ℕ → ℕ
next_byte [] = 0
next_byte (c ∷ cs) = c

-- The connection is lost inside the chunk of files.
abbrev arrived : List ℕ
arrived = take 40 bytes

whole : bytes ≡ arrived ++ next_byte (drop 40 bytes) ∷ drop 41 bytes
unfolding codec send_manifest validate_manifest validate_path validate_hash ◌and_then◌ send_for
    lookup insert text_lt
whole = refl

receive_manifest-truncated_example :
    receive_manifest codec (codes "s") lower arrived ≢ ok ((files, metrics), [])
unfolding text_lt
receive_manifest-truncated_example =
    receive_manifest-truncated codec (codes "s") lower files metrics arrived
      (next_byte (drop 40 bytes)) (drop 41 bytes) ((refl, tt), (tt, tt)) sending whole
      ((files, metrics), [])

valid : validate_manifest lower files ≡ ok tt
unfolding validate_manifest validate_path validate_hash lookup
valid = refl

validate_manifest-apart_example :
    (lower (codes "b/c") ≡ lower (codes "a") → codes "b/c" ≡ codes "a")
    × ((t : Text) → codes "a" ≢ codes "b/c" ++ slash ∷ t)
unfolding lookup text_eq
validate_manifest-apart_example =
    validate_manifest-apart lower files (codes "b/c") (codes "a") (file b'1') (file b'2') valid refl
      refl
