-- ===== src/Scan/Sender.antt =====
-- A namespace that the phone sends, `respond_share` of crates/rowd-core/src/sync.rs, and that the PC receives,
-- `ScanStream::receive_namespace` of crates/rowd-core/src/protocol.rs.
use rowd.Base.{
  ℕ, suc, ◌*◌, ◌≤◌, ◌<◌, Text, ==_iff, not, ensure-bind, leb→le, text_eq_refl, Bool, true, false,
  ◌==◌, leb, List, [], ◌∷◌, ◌++◌, map, length, length-append, append_assoc, append-nil, ok, ◌>>=◌,
  Ascending, Ascending-Below, Ascending-left, lookup-above, insert-above, if◌then◌else◌, ◌≡◌, refl,
  sym, ap, ◌∙◌, subst, arith,
}
use rowd.Model.{max_files}
use rowd.Model.Namespaces.{NamespaceEntry, Namespace, only_files, validate_namespace}
use rowd.Model.Manifests.{too_many_files, too_many_entries}
use rowd.Paths.{validate_hash, utf8_len}
use rowd.Responder.Checks.{namespace_chunks, send_namespace}
use rowd.Scan.{
  ScanStream, ScanMessage, Event, frame, namespace_chunk, namespace_end, scan_stream_chunk_files,
  is_empty, fits_chunk, add_entries, accept_namespace_chunk, accept_namespace_end, receive_entries,
  receive_namespace, open_stream, receive_begin,
}

abbrev frames : List ScanMessage → List Event
frames messages = map frame messages

-- The stream of a scan after so many chunks.
abbrev pub stream_of : Text → Text → Namespace → ℕ → ScanStream
stream_of scan_id binding namespace sequence = record {
  scan_id = scan_id;
  binding = binding;
  namespace = namespace;
  sequence = sequence;
  seen = [];
  ended = false;
}

add_entries-Ascending :
    (namespace entries : Namespace)
    → Ascending (namespace ++ entries)
    → add_entries namespace entries ≡ ok (namespace ++ entries)
unfolding add_entries
add_entries-Ascending namespace [] h = ap ok (sym (append-nil namespace))
add_entries-Ascending namespace ((path, entry) ∷ entries) h =
    let below = Ascending-Below namespace entries path entry h in
    rw (lookup-above path namespace below, insert-above path entry namespace below)
      (add_entries-Ascending (namespace ++ ((path, entry) ∷ [])) entries
          (rw (append_assoc namespace ((path, entry) ∷ []) entries) h)
        ∙ ap ok (append_assoc namespace ((path, entry) ∷ []) entries))

abbrev Fits : Namespace → Type 0
Fits namespace = Ascending namespace × (length namespace ≤ max_files * 2)

accept-Fits :
    (scan_id binding : Text) (done chunk : Namespace) (n : ℕ)
    → fits_chunk chunk ≡ true
    → Fits (done ++ chunk)
    → accept_namespace_chunk (stream_of scan_id binding done n) scan_id n chunk
      ≡ ok (stream_of scan_id binding (done ++ chunk) (suc n))
unfolding accept_namespace_chunk
accept-Fits scan_id binding done chunk n fits (ascending, small) =
    rw (text_eq_refl scan_id, fits, add_entries-Ascending done chunk ascending)
      (ground (arith, small))

-- Where a chunk is full, and where it may grow further.
module _ (lower : Text → Text) (digest : Namespace → Text) (scan_id binding : Text) where
  abbrev Arrives : Namespace → Namespace → Namespace → ℕ → Type 0
  Arrives done chunk rest n =
      (tail : List Event)
      → let (messages, last) = namespace_chunks scan_id n chunk rest in
        receive_entries lower digest (stream_of scan_id binding done n) (frames messages ++ tail)
        ≡ receive_entries lower digest (stream_of scan_id binding (done ++ (chunk ++ rest)) last)
            tail

  chunk_arrives :
      (done chunk : Namespace) (n : ℕ) (events : List Event)
      → fits_chunk chunk ≡ true
      → Fits (done ++ chunk)
      → receive_entries lower digest
          (stream_of scan_id binding done n)
          (frame (namespace_chunk scan_id n chunk) ∷ events)
        ≡ receive_entries lower digest (stream_of scan_id binding (done ++ chunk) (suc n)) events
  unfolding receive_entries
  chunk_arrives done chunk n events fits fine =
      ap (λ r. r >>= λ next. receive_entries lower digest next events)
        (accept-Fits scan_id binding done chunk n fits fine)

  -- One name more: the chunk is sent when it is full, and grows otherwise.
  grows :
      (done chunk rest : Namespace) (x : Text × NamespaceEntry) (n : ℕ) (tail : List Event)
      (b : Bool)
      → (length (chunk ++ (x ∷ [])) == scan_stream_chunk_files) ≡ b
      → length chunk < scan_stream_chunk_files
      → Fits (done ++ (chunk ++ (x ∷ [])))
      → Arrives (done ++ (chunk ++ (x ∷ []))) [] rest (suc n)
      → (length (chunk ++ (x ∷ [])) < scan_stream_chunk_files
          → Arrives done (chunk ++ (x ∷ [])) rest n)
      → let grown = chunk ++ (x ∷ []) in
        let (messages, last) =
          namespace_chunks scan_id (if b then suc n else n) (if b then [] else grown) rest in
        receive_entries lower digest
          (stream_of scan_id binding done n)
          (frames (if b then namespace_chunk scan_id n grown ∷ messages else messages) ++ tail)
        ≡ receive_entries lower digest
            (stream_of scan_id binding (done ++ (chunk ++ (x ∷ rest))) last)
            tail
  grows done chunk rest x n tail true is room fine full more =
      chunk_arrives done (chunk ++ (x ∷ [])) n _ (fits-grown is) fine
      ∙ full tail
      ∙ ap
          (λ d.
            receive_entries lower digest
              (stream_of scan_id binding d (namespace_chunks scan_id (suc n) [] rest).1) tail)
          (append_assoc done (chunk ++ (x ∷ [])) rest
            ∙ ap (λ t. done ++ t) (append_assoc chunk (x ∷ []) rest))
    where
      nonempty : (c : Namespace) → not (is_empty (c ++ (x ∷ []))) ≡ true
      nonempty [] = refl
      nonempty (y ∷ c) = refl

      fits-grown :
          (length (chunk ++ (x ∷ [])) == scan_stream_chunk_files) ≡ true
          → fits_chunk (chunk ++ (x ∷ [])) ≡ true
      fits-grown is = ground (arith, nonempty chunk, is)
  grows done chunk rest x n tail false is room fine full more =
      more (ground (arith, length-append chunk (x ∷ []), is, room)) tail
      ∙ ap
          (λ t.
            receive_entries lower digest
              (stream_of scan_id binding (done ++ t)
                (namespace_chunks scan_id n (chunk ++ (x ∷ [])) rest).1)
              tail)
          (append_assoc chunk (x ∷ []) rest)

  Fits-grown :
      (done chunk rest : Namespace) (x : Text × NamespaceEntry)
      → Fits (done ++ (chunk ++ (x ∷ rest)))
      → Fits (done ++ (chunk ++ (x ∷ [])) ++ rest)
  Fits-grown done chunk rest x fine =
      subst Fits
        (sym (
          append_assoc done (chunk ++ (x ∷ [])) rest
          ∙ ap (λ t. done ++ t) (append_assoc chunk (x ∷ []) rest)))
        fine

  Fits-left : (m n : Namespace) → Fits (m ++ n) → Fits m
  Fits-left m n (ascending, small) =
      (Ascending-left m n ascending, omega (arith, length-append m n, small))

  chunks_arrive :
      (done chunk rest : Namespace) (n : ℕ)
      → length chunk < scan_stream_chunk_files
      → Fits (done ++ (chunk ++ rest))
      → Arrives done chunk rest n
  unfolding namespace_chunks
  chunks_arrive done [] [] n room fine tail =
      ap (λ d. receive_entries lower digest (stream_of scan_id binding d n) tail)
        (sym (append-nil done))
  chunks_arrive done (x ∷ chunk) [] n room fine tail = rw (append-nil (x ∷ chunk)) (
      chunk_arrives done (x ∷ chunk) n tail (ground arith)
        (subst (λ c. Fits (done ++ c)) (append-nil (x ∷ chunk)) fine))
  chunks_arrive done chunk (x ∷ rest) n room fine tail =
      let grown = chunk ++ (x ∷ []) in
      let fine_grown = Fits-grown done chunk rest x fine in
      grows done chunk rest x n tail (length grown == scan_stream_chunk_files) refl room
        (Fits-left (done ++ grown) rest fine_grown)
        (chunks_arrive (done ++ grown) [] rest (suc n) (omega arith) fine_grown)
        λ more.
          chunks_arrive done grown rest n more
            (subst (λ t. Fits (done ++ t)) (sym (append_assoc chunk (x ∷ []) rest)) fine)

  end_arrives :
      (namespace : Namespace) (n : ℕ) (tail : List Event)
      → validate_namespace lower namespace ≡ ok tt
      → receive_entries lower digest
          (stream_of scan_id binding namespace n)
          (frame (namespace_end scan_id n (length namespace) (digest namespace)) ∷ tail)
        ≡ ok (stream_of scan_id binding namespace 0, tail)
  unfolding receive_entries accept_namespace_end
  end_arrives namespace n tail valid =
      rw
        (
          text_eq_refl scan_id,
          text_eq_refl (digest namespace),
          valid,
          (==_iff n n).1 refl,
          (==_iff (length namespace) (length namespace)).1 refl,
        )
        refl

frames-append :
    (a b : List ScanMessage) (tail : List Event)
    → frames (a ++ b) ++ tail ≡ frames a ++ (frames b ++ tail)
frames-append [] b tail = refl
frames-append (m ∷ a) b tail = ap (λ t. frame m ∷ t) (frames-append a b tail)

valid-small :
    (lower : Text → Text) (namespace : Namespace)
    → validate_namespace lower namespace ≡ ok tt
    → length namespace ≤ max_files * 2
unfolding validate_namespace
valid-small lower namespace h =
    let (_, sized) =
      ensure-bind (leb (length (only_files namespace)) max_files) too_many_files _ h in
    let (small, _) =
      ensure-bind (leb (length namespace) (max_files * 2)) too_many_entries _ sized in
    leb→le _ _ small

-- A namespace whose names ascend and that is valid arrives as it was sent, in whatever number of chunks that takes, and
-- nothing after it is read; the scan is then at its start.
pub receive_namespace-send_namespace :
    (lower : Text → Text) (digest : Namespace → Text) (scan_id binding : Text)
    → (namespace : Namespace) (tail : List Event) → validate_hash scan_id ≡ ok tt
    → leb (utf8_len binding) 65536 ≡ true
    → Ascending namespace
    → validate_namespace lower namespace ≡ ok tt
    → receive_namespace lower digest
        (frames (send_namespace digest scan_id binding namespace) ++ tail)
      ≡ ok (stream_of scan_id binding namespace 0, tail)
unfolding receive_namespace send_namespace receive_begin open_stream
receive_namespace-send_namespace lower digest scan_id binding namespace tail id fits ascending
      valid =
    let (messages, last) = namespace_chunks scan_id 0 [] namespace in
    let end = namespace_end scan_id last (length namespace) (digest namespace) in
    rw (id, fits)
      (ap (receive_entries lower digest (stream_of scan_id binding [] 0))
          (frames-append messages (end ∷ []) tail)
        ∙ chunks_arrive lower digest scan_id binding [] [] namespace 0 (omega arith)
            (ascending, valid-small lower namespace valid) (frame end ∷ tail)
        ∙ end_arrives lower digest scan_id binding namespace last tail valid)
