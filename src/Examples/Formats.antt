-- ===== src/Examples/Formats.antt =====
-- A codec for the messages of crates/rowd-core/src/protocol.rs in place of their JSON: a tag and the fields.
pub mod Wires
use rowd.Base.{
  ℕ, zero, suc, Text, Bool, true, false, Option, none, some, List, [], ◌∷◌, length, ◌==◌,
  if◌then◌else◌, ◌≡◌, refl, ap, ◌∙◌,
}
use rowd.Model.{Entry, Manifest}
use rowd.Wire.{
  Message, scoped, hello, challenge, proof, ready, scan_alive, scan_deferred, manifest_begin,
  manifest_chunk, manifest_end, share_error, error_message, another, ShareError, StoreMetrics, Json,
}

-- What `put` writes before a rest, `get` takes off it.
record Format (A : Type 0) : Type 0 where
  put : A → List ℕ → List ℕ
  get : List ℕ → Option (A × List ℕ)
  law : (a : A) (rest : List ℕ) → get (put a rest) ≡ some (a, rest)

module _ {A B : Type 0} where
  abbrev and_then : Option (A × List ℕ) → (A → List ℕ → Option (B × List ℕ)) → Option (B × List ℕ)
  and_then none f = none
  and_then (some (a, s)) f = f a s

  abbrev converted : (A → B) → Option (A × List ℕ) → Option (B × List ℕ)
  converted f none = none
  converted f (some (a, s)) = some (f a, s)

module _ {A B : Type 0} where
  abbrev through : (f : A → B) (g : B → A) → ((b : B) → f (g b) ≡ b) → Format A → Format B
  through f g back format = record {
    put = λ b rest. format.put (g b) rest;
    get = λ s. converted f (format.get s);
    law = λ b rest. ap (converted f) (format.law (g b) rest) ∙ ap (λ c. some (c, rest)) (back b);
  }

  abbrev pair : Format A → Format B → Format (A × B)
  pair first second = record {
    put = λ (a, b) rest. first.put a (second.put b rest);
    get = λ s. elim (first.get s) [
      | none ↦ none
      | some (a, t) ↦ converted (λ b. (a, b)) (second.get t)
    ];
    law = λ (a, b) rest. rw (first.law a (second.put b rest), second.law b rest) refl;
  }

abbrev number : Format ℕ
number = record {
  put = λ n rest. n ∷ rest;
  get = λ s. elim s [ [] ↦ none | n ∷ rest ↦ some (n, rest) ];
  law = λ n rest. refl;
}

module _ {A : Type 0} (format : Format A) where
  abbrev put_all : List A → List ℕ → List ℕ
  put_all [] rest = rest
  put_all (x ∷ xs) rest = format.put x (put_all xs rest)

  abbrev get_all : ℕ → List ℕ → Option (List A × List ℕ)
  get_all zero s = some ([], s)
  get_all (suc n) s = and_then (format.get s) λ x t. converted (λ xs. x ∷ xs) (get_all n t)

  get_all-put_all :
      (xs : List A) (rest : List ℕ) → get_all (length xs) (put_all xs rest) ≡ some (xs, rest)
  get_all-put_all [] rest = refl
  get_all-put_all (x ∷ xs) rest = rw (format.law x (put_all xs rest), get_all-put_all xs rest) refl

  abbrev get_list : List ℕ → Option (List A × List ℕ)
  get_list [] = none
  get_list (n ∷ s) = get_all n s

  abbrev list : Format (List A)
  list = record {
    put = λ xs rest. length xs ∷ put_all xs rest;
    get = get_list;
    law = get_all-put_all;
  }

  abbrev get_option : List ℕ → Option (Option A × List ℕ)
  get_option (zero ∷ s) = some (none, s)
  get_option (suc n ∷ s) = converted some (format.get s)
  get_option [] = none

  abbrev put_option : Option A → List ℕ → List ℕ
  put_option none rest = 0 ∷ rest
  put_option (some a) rest = 1 ∷ format.put a rest

  option-law : (o : Option A) (rest : List ℕ) → get_option (put_option o rest) ≡ some (o, rest)
  option-law none rest = refl
  option-law (some a) rest = rw (format.law a rest) refl

  abbrev option : Format (Option A)
  option = record { put = put_option; get = get_option; law = option-law }

abbrev text : Format Text
text = list number

abbrev files_format : Format Manifest
files_format = list (
    pair text (
      through (λ (h, n). record { hash = h; size = n }) (λ e. (e.hash, e.size)) (λ e. refl)
        (pair text number)))

abbrev metrics_format : Format StoreMetrics
metrics_format =
    through
      (λ (a, (b, (c, (d, e)))). record {
        files_enumerated = a;
        files_hashed = b;
        bytes_hashed = c;
        staging_copies = d;
        full_scans = e;
      })
      (λ m.
        (m.files_enumerated, (m.files_hashed, (m.bytes_hashed, (m.staging_copies, m.full_scans)))))
      (λ m. refl) (pair number (pair number (pair number (pair number number))))

abbrev flag : Bool → ℕ
flag true = 1
flag false = 0

abbrev is_set : ℕ → Bool
is_set zero = false
is_set (suc n) = true

flag-back : (b : Bool) → is_set (flag b) ≡ b
flag-back true = refl
flag-back false = refl

abbrev error_format : Format ShareError
error_format =
    through
      (λ (a, (b, (c, (d, (e, (f, g)))))). record {
        side = a;
        share_id = b;
        operation = c;
        relative_path = d;
        kind = e;
        message = f;
        stream_reusable = g;
      })
      (λ s. (
        s.side,
        (s.share_id, (s.operation, (s.relative_path, (s.kind, (s.message, s.stream_reusable))))),
      ))
      (λ s. refl)
      (pair text (
        pair (option text) (
          pair text
            (pair (option text) (pair text (pair text (through is_set flag flag-back number)))))))

abbrev depth : Message → ℕ
depth (scoped id m) = suc (depth m)
depth _ = 1

abbrev put_message : Message → List ℕ → List ℕ
put_message (scoped id m) rest = 0 ∷ text.put id (put_message m rest)
put_message (hello v p d) rest = 1 ∷ v ∷ text.put p (text.put d rest)
put_message (challenge t) rest = 2 ∷ text.put t rest
put_message (proof t) rest = 3 ∷ text.put t rest
put_message ready rest = 4 ∷ rest
put_message scan_alive rest = 5 ∷ rest
put_message scan_deferred rest = 6 ∷ rest
put_message (manifest_begin n) rest = 7 ∷ n ∷ rest
put_message (manifest_chunk files) rest = 8 ∷ files_format.put files rest
put_message (manifest_end m) rest = 9 ∷ metrics_format.put m rest
put_message (share_error e) rest = 10 ∷ error_format.put e rest
put_message (error_message t) rest = 11 ∷ text.put t rest
put_message (another t) rest = 12 ∷ text.put t rest

abbrev get_plain : ℕ → List ℕ → Option (Message × List ℕ)
get_plain tag s =
    if tag == 1
    then converted (λ (v, (p, d)). hello v p d) ((pair number (pair text text)).get s)
    else if tag == 2
    then converted challenge (text.get s)
    else if tag == 3
    then converted proof (text.get s)
    else if tag == 4
    then some (ready, s)
    else if tag == 5
    then some (scan_alive, s)
    else if tag == 6
    then some (scan_deferred, s)
    else if tag == 7
    then converted manifest_begin (number.get s)
    else if tag == 8
    then converted manifest_chunk (files_format.get s)
    else if tag == 9
    then converted manifest_end (metrics_format.get s)
    else if tag == 10
    then converted share_error (error_format.get s)
    else if tag == 11
    then converted error_message (text.get s)
    else if tag == 12
    then converted another (text.get s)
    else none

abbrev get_message : ℕ → List ℕ → Option (Message × List ℕ)
get_message zero s = none
get_message (suc n) [] = none
get_message (suc n) (zero ∷ s) =
    and_then (text.get s) λ id t. converted (scoped id) (get_message n t)
get_message (suc n) (suc tag ∷ s) = get_plain (suc tag) s

message-law :
    (m : Message) (rest : List ℕ) → get_message (depth m) (put_message m rest) ≡ some (m, rest)
message-law (scoped id m) rest = rw (text.law id (put_message m rest), message-law m rest) refl
message-law (hello v p d) rest =
    ap (converted (λ (v, (p, d)). hello v p d))
      ((pair number (pair text text)).law (v, (p, d)) rest)
message-law (challenge t) rest = ap (converted challenge) (text.law t rest)
message-law (proof t) rest = ap (converted proof) (text.law t rest)
message-law ready rest = refl
message-law scan_alive rest = refl
message-law scan_deferred rest = refl
message-law (manifest_begin n) rest = refl
message-law (manifest_chunk files) rest =
    ap (converted manifest_chunk) (files_format.law files rest)
message-law (manifest_end m) rest = ap (converted manifest_end) (metrics_format.law m rest)
message-law (share_error e) rest = ap (converted share_error) (error_format.law e rest)
message-law (error_message t) rest = ap (converted error_message) (text.law t rest)
message-law (another t) rest = ap (converted another) (text.law t rest)

abbrev first_of : Option (Message × List ℕ) → Option Message
first_of none = none
first_of (some (m, s)) = some m

abbrev decode : List ℕ → Option Message
decode [] = none
decode (n ∷ s) = first_of (get_message n s)

abbrev codec : Json
codec = record {
  to_vec = λ m. depth m ∷ put_message m [];
  from_slice = decode;
  reads = λ m. ap first_of (message-law m []);
}
