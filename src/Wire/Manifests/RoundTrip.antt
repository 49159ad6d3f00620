-- ===== src/Wire/Manifests/RoundTrip.antt =====
-- A manifest of crates/rowd-core/src/protocol.rs that is sent and received.
use rowd.Base.{
  ℕ, zero, suc, ◌≤◌, ◌<◌, Text, insert, true, false, ◌==◌, leb, ltb, List, [], ◌∷◌, ◌++◌, length,
  length-append, append_assoc, append-nil, Result, ok, err, ensure, ensure-bind, if◌then◌else◌, ◌≡◌,
  ◌≢◌, refl, sym, ap, ◌∙◌, arith, subst, Ascending, Ascending-Below, Ascending-left,
  Ascending-right, if-split, lookup-above, insert-above, inl, inr,
}
use rowd.Model.{Entry, Manifest, max_files}
use rowd.Model.Manifests.{ManifestError, validate_manifest}
use rowd.Round.{manifest_chunk_files}
use rowd.Wire.{
  manifest_begin, manifest_chunk, manifest_end, StoreMetrics, Json, Writer, ◌and_then◌, send_for,
  WireError, pure, too_many_files, check_peer_error,
}
use rowd.Base.Readers.{step, step-lift}
use rowd.Wire.Frames.{receive_for-send_for}
use rowd.Wire.Manifests.{
  checked, on_manifest, then_write, send_rest, send_chunks, send_manifest, begin_count, chunk_files,
  end_metrics, add_chunk, accept_chunk, receive_chunks, receive_manifest,
}

pub and_then-ok :
    (a b : Writer)
    → (a and_then b).0 ≡ ok tt
    → (a.0 ≡ ok tt) × (b.0 ≡ ok tt) × ((a and_then b).1 ≡ a.1 ++ b.1)
unfolding ◌and_then◌
and_then-ok (ok u, bs) b h = (refl, h, refl)
and_then-ok (err e, bs) b h = cc

then_write-ok :
    (r : Result WireError (Unit {0})) (w : Writer)
    → (then_write r w).0 ≡ ok tt
    → (r ≡ ok tt) × (w.0 ≡ ok tt) × ((then_write r w).1 ≡ w.1)
then_write-ok (ok u) w h = (refl, h, refl)
then_write-ok (err e) w h = cc

add_chunk-Ascending :
    (files chunk : Manifest)
    → Ascending (files ++ chunk)
    → add_chunk files chunk ≡ ok (files ++ chunk)
unfolding add_chunk
add_chunk-Ascending files [] h = ap ok (sym (append-nil files))
add_chunk-Ascending files ((path, entry) ∷ chunk) h =
    let below = Ascending-Below files chunk path entry h in
    rw (lookup-above path files below, insert-above path entry files below)
      (add_chunk-Ascending (files ++ (path, entry) ∷ []) chunk
          (rw (append_assoc files ((path, entry) ∷ []) chunk) h)
        ∙ ap ok (append_assoc files ((path, entry) ∷ []) chunk))

accept_chunk-Ascending :
    (count : ℕ) (files chunk : Manifest)
    → chunk ≢ []
    → length chunk ≤ manifest_chunk_files
    → length (files ++ chunk) ≤ count
    → Ascending (files ++ chunk)
    → accept_chunk count files chunk ≡ ok (files ++ chunk)
unfolding accept_chunk
accept_chunk-Ascending count files [] n fits within h = absurd (n refl)
accept_chunk-Ascending count files (x ∷ chunk) n fits within h =
    rw (add_chunk-Ascending files (x ∷ chunk) h) (ground arith)

appended : (chunk : Manifest) (x : Text × Entry) → chunk ++ x ∷ [] ≢ []
appended [] x e = cc
appended (y ∷ chunk) x e = cc

longer : (files chunk : Manifest) → chunk ≢ [] → length files < length (files ++ chunk)
longer files [] n = absurd (n refl)
longer files (x ∷ chunk) n = omega (arith, length-append files (x ∷ chunk))

checked-valid : (r : Result ManifestError (Unit {0})) → on_manifest r ≡ ok tt → r ≡ ok tt
checked-valid (ok u) h = refl
checked-valid (err e) h = cc

checked-size :
    (lower : Text → Text) (files : Manifest)
    → checked lower files ≡ ok tt
    → leb (length files) max_files ≡ true
unfolding checked validate_manifest
checked-size lower files h = (ensure-bind _ _ _ (checked-valid (validate_manifest lower files) h)).0

module _ (json : Json) (share : Text) where
  receive-chunk :
      (fuel count : ℕ) (files chunk : Manifest) (s : List ℕ)
      → chunk ≢ []
      → length chunk ≤ manifest_chunk_files
      → length (files ++ chunk) ≤ count
      → Ascending (files ++ chunk)
      → (send_for json share (manifest_chunk chunk)).0 ≡ ok tt
      → receive_chunks json share
          (suc fuel)
          count
          files
          ((send_for json share (manifest_chunk chunk)).1 ++ s)
        ≡ receive_chunks json share fuel count (files ++ chunk) s
  unfolding receive_chunks chunk_files check_peer_error
  receive-chunk fuel count files chunk s n fits within h passed = rw (short) (
      step _ _ _ (receive_for-send_for json share (manifest_chunk chunk) s refl passed)
      ∙ step-lift _ _ _ refl
      ∙ step-lift _ _ _ (accept_chunk-Ascending count files chunk n fits within h))
    where
      short : ltb (length files) count ≡ true
      short = ground (arith, longer files chunk n)

  receive_chunks-full :
      (fuel count : ℕ) (files : Manifest) (s : List ℕ)
      → length files ≡ count
      → receive_chunks json share fuel count files s ≡ ok (files, s)
  unfolding receive_chunks pure
  receive_chunks-full zero count files s e = ground (arith, e)
  receive_chunks-full (suc fuel) count files s e = rw (full) refl
    where
      full : ltb (length files) count ≡ false
      full = ground (arith, e)

  receive-send_rest :
      (fuel count : ℕ) (files chunk : Manifest) (s : List ℕ)
      → length chunk < manifest_chunk_files
      → length (files ++ chunk) ≡ count
      → length chunk ≤ fuel
      → Ascending (files ++ chunk)
      → (send_rest json share chunk).0 ≡ ok tt
      → receive_chunks json share fuel count files ((send_rest json share chunk).1 ++ s)
        ≡ ok (files ++ chunk, s)
  unfolding send_rest
  receive-send_rest fuel count files [] s fits e enough h passed =
      rw (append-nil files)
        (receive_chunks-full fuel count files s (ap length (sym (append-nil files)) ∙ e))
  receive-send_rest zero count files (x ∷ chunk) s fits e enough h passed =
      absurd (omega (arith, enough))
  receive-send_rest (suc fuel) count files ((path, entry) ∷ chunk) s fits e enough h passed =
      receive-chunk fuel count files ((path, entry) ∷ chunk) s (λ same. cc) (omega (arith, fits))
        (omega (arith, e)) h passed
      ∙ receive_chunks-full fuel count (files ++ (path, entry) ∷ chunk) s e

  -- What `rest` adds to a chunk of fewer files than fit.
  abbrev Received : Manifest → Type 0
  Received rest =
      (fuel count : ℕ) (files chunk : Manifest) (s : List ℕ)
      → length chunk < manifest_chunk_files
      → length (files ++ (chunk ++ rest)) ≡ count
      → length (chunk ++ rest) ≤ fuel
      → Ascending (files ++ (chunk ++ rest))
      → (send_chunks json share chunk rest).0 ≡ ok tt
      → receive_chunks json share fuel count files ((send_chunks json share chunk rest).1 ++ s)
        ≡ ok (files ++ (chunk ++ rest), s)

  receive-full :
      (rest : Manifest) (fuel count : ℕ) (files more : Manifest) (s : List ℕ)
      → Received rest
      → more ≢ []
      → length more ≤ manifest_chunk_files
      → length (files ++ (more ++ rest)) ≡ count
      → length (more ++ rest) ≤ fuel
      → Ascending (files ++ (more ++ rest))
      → (send_for json share (manifest_chunk more) and_then send_chunks json share [] rest).0
        ≡ ok tt
      → receive_chunks json share fuel count files (
          (send_for json share (manifest_chunk more) and_then send_chunks json share [] rest).1
          ++ s)
        ≡ ok (files ++ (more ++ rest), s)
  receive-full rest zero count files more s ih n full e enough h passed =
      absurd (omega (arith, longer [] more n, length-append more rest, enough))
  receive-full rest (suc fuel) count files more s ih n full e enough h passed =
      let (first, others, bytes) = and_then-ok _ _ passed in
      let assoc = append_assoc files more rest in
      let all = subst Ascending (sym assoc) h in
      rw
        (
          bytes,
          append_assoc (send_for json share (manifest_chunk more)).1
              (send_chunks json share [] rest).1 s,
        )
        (receive-chunk fuel count files more _ n full
            (omega (arith, e, ap length assoc, length-append (files ++ more) rest))
            (Ascending-left (files ++ more) rest all) first
          ∙ ih fuel count (files ++ more) [] s (omega arith) (ap length assoc ∙ e)
              (omega (arith, enough, length-append more rest, longer [] more n)) all others
          ∙ ap (λ m. ok (m, s)) assoc)

  receive-more :
      (rest : Manifest) (fuel count : ℕ) (files more : Manifest) (s : List ℕ)
      → Received rest
      → more ≢ []
      → length more ≤ manifest_chunk_files
      → length (files ++ (more ++ rest)) ≡ count
      → length (more ++ rest) ≤ fuel
      → Ascending (files ++ (more ++ rest))
      → (next : Writer)
      → (if length more == manifest_chunk_files
          then send_for json share (manifest_chunk more) and_then send_chunks json share [] rest
          else send_chunks json share more rest)
        ≡ next
      → next.0 ≡ ok tt
      → receive_chunks json share fuel count files (next.1 ++ s) ≡ ok (files ++ (more ++ rest), s)
  receive-more rest fuel count files more s ih n room e enough h next at passed =
      elim (if-split (length more == manifest_chunk_files) _ _ at) [
        | inl (full, is) ↦
            subst Ends is
              (receive-full rest fuel count files more s ih n room e enough h (rw is passed))
        | inr (short, is) ↦
            subst Ends is
              (ih fuel count files more s (ground (arith, short, room)) e enough h (rw is passed))
      ]
    where
      Ends : Writer → Type 0
      Ends w =
          receive_chunks json share fuel count files (w.1 ++ s) ≡ ok (files ++ (more ++ rest), s)

  -- A chunk that is full goes out at once, and the next one begins empty.
  receive-send_chunks : (rest : Manifest) → Received rest
  unfolding send_chunks
  receive-send_chunks [] fuel count files chunk s fits e enough h passed =
      let same = append-nil chunk in
      rw same (
        receive-send_rest fuel count files chunk s fits (rw same at e) (rw same at enough)
          (rw same at h) passed)
  receive-send_chunks ((path, entry) ∷ rest) fuel count files chunk s fits e enough h passed =
      let below =
        Ascending-Below chunk rest path entry
          (Ascending-right files (chunk ++ (path, entry) ∷ rest) h) in
      let more : Manifest = chunk ++ (path, entry) ∷ [] in
      let at : insert path entry chunk ≡ more = insert-above path entry chunk below in
      let assoc : more ++ rest ≡ chunk ++ (path, entry) ∷ rest =
        append_assoc chunk ((path, entry) ∷ []) rest in
      receive-more rest fuel count files more s (receive-send_chunks rest)
        (appended chunk (path, entry))
        (omega (arith, fits, length-append chunk ((path, entry) ∷ [])))
        (ap (λ m. length (files ++ m)) assoc ∙ e) (subst (λ m. length m ≤ fuel) (sym assoc) enough)
        (subst (λ m. Ascending (files ++ m)) (sym assoc) h) _ (rw at refl) passed
      ∙ ap (λ m. ok (files ++ m, s)) assoc

  -- What was sent is received, whatever follows it.
  pub receive_manifest-send_manifest :
      (lower : Text → Text) (files : Manifest) (metrics : StoreMetrics) (s : List ℕ)
      → Ascending files
      → (send_manifest json share lower files metrics).0 ≡ ok tt
      → receive_manifest json share lower ((send_manifest json share lower files metrics).1 ++ s)
        ≡ ok ((files, metrics), s)
  unfolding receive_manifest send_manifest begin_count end_metrics check_peer_error pure
  receive_manifest-send_manifest lower files metrics s h passed =
      let begin_w = send_for json share (manifest_begin (length files)) in
      let chunks_w = send_chunks json share [] files in
      let end_w = send_for json share (manifest_end metrics) in
      let (valid, whole, bytes) =
        then_write-ok (checked lower files) (begin_w and_then (chunks_w and_then end_w)) passed in
      let (first, after, begun) = and_then-ok begin_w (chunks_w and_then end_w) whole in
      let (chunks, last, ended) = and_then-ok chunks_w end_w after in
      let one = begin_w.1 in
      let two = chunks_w.1 in
      let three = end_w.1 in
      let assoc : (one ++ (two ++ three)) ++ s ≡ one ++ (two ++ (three ++ s)) =
        append_assoc one (two ++ three) s ∙ ap (λ bs. one ++ bs) (append_assoc two three s) in
      rw (bytes, begun, ended, assoc)
        (step _ _ _ (
            receive_for-send_for json share (manifest_begin (length files)) (two ++ (three ++ s))
              refl first)
          ∙ step-lift _ _ _ refl
          ∙ step-lift _ _ _ (ap (λ b. ensure b too_many_files) (checked-size lower files valid))
          ∙ step _ _ _ (
              receive-send_chunks files (length files) (length files) [] [] (three ++ s)
                (omega arith) refl (omega arith) h chunks)
          ∙ step _ _ _ (receive_for-send_for json share (manifest_end metrics) s refl last)
          ∙ step-lift _ _ _ refl
          ∙ step-lift _ _ _ valid)
