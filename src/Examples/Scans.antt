-- ===== src/Examples/Scans.antt =====
-- A scan of crates/rowd-core/src/protocol.rs over two files and a directory, in two chunks of hashes.
use rowd.Base.{
  Text, codes, none, some, true, false, List, [], ◌∷◌, ◌++◌, map, length, ok, ◌≡◌, refl, lookup,
  insert, text_eq, text_lt, has, All,
}
use rowd.Examples.Rounds.{hash, file}
use rowd.Model.{Manifest}
use rowd.Model.Manifests.{validate_manifest}
use rowd.Model.Namespaces.{
  NamespaceEntry, Namespace, ends, only_files, validate_namespace, validate_cross_namespace,
}
use rowd.Model.Namespaces.Apart.{validate_cross_namespace-apart}
use rowd.Paths.{validate_path, validate_hash, utf8_len}
use rowd.Scan.{
  ScanStream, Event, frame, blocked, scan_alive, scan_stream_begin, namespace_chunk, namespace_end,
  hash_next, hash_chunk, hash_stream_end, Pulled, no_metrics, no_pipeline, receive_namespace,
  next_with_control,
}
use rowd.Responder.Checks.{send_namespace}
use rowd.Scan.Sender.{receive_namespace-send_namespace}
use rowd.Scan.Complete.{AllCame, Pulls, begun, pulled, next_with_control_complete}

abbrev pub lower : Text → Text
lower t = t

abbrev pub digest : Namespace → Text
digest n = length n ∷ []

abbrev pub plain : NamespaceEntry
plain = record { size = 10; modified = 7; directory = false }

abbrev pub folder : NamespaceEntry
folder = record { size = 0; modified = 7; directory = true }

abbrev pub names : Namespace
names = (codes "a", plain) ∷ (codes "d", folder) ∷ (codes "d/c", plain) ∷ []

abbrev opening : List Event
opening =
    frame scan_alive
    ∷ frame (scan_stream_begin (hash b'5') (codes "root"))
    ∷ frame (namespace_chunk (hash b'5') 0 ((codes "a", plain) ∷ (codes "d", folder) ∷ []))
    ∷ frame scan_alive
    ∷ frame (namespace_chunk (hash b'5') 1 ((codes "d/c", plain) ∷ []))
    ∷ frame (namespace_end (hash b'5') 2 3 (3 ∷ []))
    ∷ []

abbrev opened : ScanStream
opened = record {
  scan_id = hash b'5';
  binding = codes "root";
  namespace = names;
  sequence = 0;
  seen = [];
  ended = false;
}

opens : receive_namespace lower digest opening ≡ ok (opened, [])
unfolding receive_namespace lookup insert text_lt text_eq validate_path validate_hash ends
    validate_namespace
opens = refl

abbrev first_files : Manifest
first_files = (codes "a", file b'1') ∷ []

abbrev other_files : Manifest
other_files = (codes "d/c", file b'2') ∷ []

abbrev first_pull : Pulled
first_pull = record {
  files = some first_files;
  metrics = no_metrics;
  pipeline = no_pipeline;
  stream = record opened { seen = codes "a" ∷ []; sequence = 1 };
  sent = hash_next (hash b'5') 0 ∷ [];
  unread = [];
}

abbrev other_pull : Pulled
other_pull = record {
  files = some other_files;
  metrics = no_metrics;
  pipeline = no_pipeline;
  stream = record opened { seen = codes "a" ∷ codes "d/c" ∷ []; sequence = 2 };
  sent = hash_next (hash b'5') 1 ∷ [];
  unread = [];
}

abbrev last_pull : Pulled
last_pull = record {
  files = none;
  metrics = no_metrics;
  pipeline = no_pipeline;
  stream = record opened { seen = codes "a" ∷ codes "d/c" ∷ []; sequence = 2; ended = true };
  sent = hash_next (hash b'5') 2 ∷ [];
  unread = [];
}

pulls : Pulls lower opened (first_files ++ other_files) other_pull.stream
unfolding next_with_control lookup insert text_lt text_eq has validate_path validate_hash
    validate_manifest
pulls =
    pulled
      (pulled begun
        (blocked none ∷ frame scan_alive ∷ frame (hash_chunk (hash b'5') 0 first_files) ∷ [])
        first_pull first_files refl refl)
      (frame (hash_chunk (hash b'5') 1 other_files) ∷ []) other_pull other_files refl refl

ends_whole :
    next_with_control lower other_pull.stream
      (frame (hash_stream_end (hash b'5') 2 2 no_metrics no_pipeline) ∷ [])
    ≡ ok last_pull
unfolding next_with_control text_eq only_files
ends_whole = refl

next_with_control_complete_example : AllCame opened (first_files ++ other_files)
next_with_control_complete_example =
    next_with_control_complete lower digest opening opened [] _ (first_files ++ other_files)
      other_pull.stream last_pull opens pulls ends_whole refl

abbrev phone_names : Namespace
phone_names = (codes "d/b", plain) ∷ []

together : validate_cross_namespace lower names phone_names ≡ ok tt
unfolding validate_cross_namespace lookup insert text_lt text_eq validate_path ends
together = refl

validate_cross_namespace-apart_example :
    All
      (λ (m, k).
        All (λ (n, l). lower m ≡ lower n → (m ≡ n) × (k ≡ l)) (ends (codes "d/b") plain.directory))
      (ends (codes "d/c") plain.directory)
unfolding lookup text_eq
validate_cross_namespace-apart_example =
    validate_cross_namespace-apart lower names phone_names (codes "d/c") (codes "d/b") plain plain
      together refl refl

names_valid : validate_namespace lower names ≡ ok tt
unfolding validate_namespace lookup insert text_lt text_eq validate_path ends only_files
names_valid = refl

receive_namespace-send_namespace_example :
    receive_namespace lower digest (
      map frame (send_namespace digest (hash b'5') (codes "root") names) ++ (frame scan_alive ∷ []))
    ≡ ok (opened, frame scan_alive ∷ [])
unfolding text_lt validate_hash utf8_len
receive_namespace-send_namespace_example =
    receive_namespace-send_namespace lower digest (hash b'5') (codes "root") names
      (frame scan_alive ∷ []) refl refl ((refl, (refl, tt)), ((refl, tt), (tt, tt))) names_valid
