-- ===== src/Auth/Binding.antt =====
-- What a proof of crates/rowd-core/src/protocol.rs is bound to.
use rowd.Base.{
  or_err-ok, ℕ, Text, Option, none, some, true, Bool-cases, inl, inr, ◌⊎◌, ◌==◌, List, [], ◌∷◌,
  ◌++◌, length, drop, text_eq, text_eq_iff, Result, ok, err, ensure-bind, or_err, >>=-eq-ok, ◌≡◌,
  ◌≢◌, subst, text_eq→≢, refl, ap, sym, ◌∙◌, arith, all,
}
use rowd.Paths.{validate_hash, is_hex, utf8_len}
use rowd.Wire.{proof}
use rowd.Invitation.{Codecs}
use rowd.Invitation.RoundTrip.{Laws}
use rowd.Auth.{
  AuthError, bad_hex, invalid_secret, authentication_failed, on_hash, domain, identity, auth_input,
  auth_mac, server_check,
}

on_hash-Hash :
    (hash : Text) {u : Unit {0}}
    → on_hash (validate_hash hash) ≡ ok u
    → (utf8_len hash ≡ 64) × (all is_hex hash ≡ true)
unfolding validate_hash
on_hash-Hash hash h = ground (arith, h)

abbrev bytes_of : Result AuthError (List ℕ) → List ℕ
bytes_of (ok bs) = bs
bytes_of (err e) = []

abbrev or_empty : Option (List ℕ) → List ℕ
or_empty none = []
or_empty (some bs) = bs

append-injective :
    (xs ys us vs : List ℕ) → length xs ≡ length us → xs ++ ys ≡ us ++ vs → (xs ≡ us) × (ys ≡ vs)
append-injective [] ys [] vs l e = (refl, e)
append-injective [] ys (u ∷ us) vs l e = absurd (omega (arith, l))
append-injective (x ∷ xs) ys [] vs l e = absurd (omega (arith, l))
append-injective (x ∷ xs) ys (u ∷ us) vs l e =
    let (same, rest) = append-injective xs ys us vs (omega (arith, l)) (ap (drop 1) e) in
    (rw same (ap (λ c. c ∷ us) (ap first e)), rest)
  where
    first : List ℕ → ℕ
    first [] = 0
    first (c ∷ cs) = c

module _ (by : Codecs) (hmac : List ℕ → List ℕ → List ℕ) (laws : Laws by) where
  -- The bytes of an identity, and back.
  identity-Identity :
      (value : Text) (bs : List ℕ)
      → identity by hmac value ≡ ok bs
      → (length bs ≡ 32) × (by.hex_encode bs ≡ value)
  unfolding identity
  identity-Identity value bs h =
      let (_, hash, h1) = >>=-eq-ok (on_hash (validate_hash value)) _ h in
      let (long, hex) = on_hash-Hash value hash in
      let decoded = or_err-ok (by.hex_decode value) bad_hex h1 in
      (omega (arith, laws.two_digits value bs decoded, long), laws.lower_case value bs decoded hex)

  record Input (nonce pair_id device_id : Text) (input : List ℕ) : Type 0 where
    nonce_bytes : List ℕ
    pair_bytes : List ℕ
    device_bytes : List ℕ
    of_nonce : (length nonce_bytes ≡ 32) × (by.hex_encode nonce_bytes ≡ nonce)
    of_pair : (length pair_bytes ≡ 32) × (by.hex_encode pair_bytes ≡ pair_id)
    of_device : (length device_bytes ≡ 32) × (by.hex_encode device_bytes ≡ device_id)
    whole : domain ++ (nonce_bytes ++ (pair_bytes ++ device_bytes)) ≡ input

  auth_input-Input :
      (nonce pair_id device_id : Text) (input : List ℕ)
      → auth_input by hmac nonce pair_id device_id ≡ ok input
      → Input nonce pair_id device_id input
  unfolding auth_input
  auth_input-Input nonce pair_id device_id input h =
      let (nonce_bytes, is_nonce, h1) = >>=-eq-ok (identity by hmac nonce) _ h in
      let (pair_bytes, is_pair, h2) = >>=-eq-ok (identity by hmac pair_id) _ h1 in
      let (device_bytes, is_device, h3) = >>=-eq-ok (identity by hmac device_id) _ h2 in
      record {
        nonce_bytes = nonce_bytes;
        pair_bytes = pair_bytes;
        device_bytes = device_bytes;
        of_nonce = identity-Identity nonce nonce_bytes is_nonce;
        of_pair = identity-Identity pair_id pair_bytes is_pair;
        of_device = identity-Identity device_id device_bytes is_device;
        whole = ap bytes_of h3;
      }

  -- The parts have fixed lengths, so the input has one reading.
  Input-injective :
      (nonce pair_id device_id nonce' pair_id' device_id' : Text) (input : List ℕ)
      → Input nonce pair_id device_id input
      → Input nonce' pair_id' device_id' input
      → (nonce ≡ nonce') × (pair_id ≡ pair_id') × (device_id ≡ device_id')
  Input-injective nonce pair_id device_id nonce' pair_id' device_id' input i j =
      let (_, after) = append-injective domain _ domain _ refl (i.whole ∙ sym j.whole) in
      let (nonces, pairs) =
        append-injective i.nonce_bytes _ j.nonce_bytes _ (i.of_nonce.0 ∙ sym j.of_nonce.0) after in
      let (same_pair, same_device) =
        append-injective i.pair_bytes _ j.pair_bytes _ (i.of_pair.0 ∙ sym j.of_pair.0) pairs in
      (
        sym i.of_nonce.1 ∙ ap by.hex_encode nonces ∙ j.of_nonce.1,
        sym i.of_pair.1 ∙ ap by.hex_encode same_pair ∙ j.of_pair.1,
        sym i.of_device.1 ∙ ap by.hex_encode same_device ∙ j.of_device.1,
      )

  -- A proof that was accepted.
  record Accepted (secret nonce pair_id device_id mac : Text) : Type 0 where
    key : List ℕ
    input : List ℕ
    is_key : by.hex_decode secret ≡ some key
    is_input : Input nonce pair_id device_id input
    is_mac : by.hex_decode mac ≡ some (hmac key input)

  server_check-Accepted :
      (pair_id secret nonce device_id mac d : Text)
      → server_check by hmac pair_id secret nonce device_id (proof mac) ≡ ok d
      → Accepted secret nonce pair_id device_id mac
  unfolding server_check auth_mac
  server_check-Accepted pair_id secret nonce device_id mac d h =
      let (expected, computed, h1) =
        >>=-eq-ok (auth_mac by hmac secret nonce pair_id device_id) _ h in
      let (given, decoded, h2) = >>=-eq-ok (or_err (by.hex_decode mac) bad_hex) _ h1 in
      let (same, _) = ensure-bind (text_eq expected given) authentication_failed _ h2 in
      let (key, is_key, h3) = >>=-eq-ok (or_err (by.hex_decode secret) bad_hex) _ computed in
      let (_, h4) = ensure-bind (length key == 32) invalid_secret _ h3 in
      let (input, is_input, h5) = >>=-eq-ok (auth_input by hmac nonce pair_id device_id) _ h4 in
      record {
        key = key;
        input = input;
        is_key = or_err-ok _ bad_hex is_key;
        is_input = auth_input-Input nonce pair_id device_id input is_input;
        is_mac =
            or_err-ok _ bad_hex decoded
            ∙ ap some (sym ((text_eq_iff expected given).0 same) ∙ sym (ap bytes_of h5));
      }

-- Two inputs of which the MAC under one key is the same.
abbrev pub Collision : (List ℕ → List ℕ → List ℕ) → Type 0
Collision hmac = (key : List ℕ) × (x : List ℕ) × (y : List ℕ) × (x ≢ y) × (hmac key x ≡ hmac key y)

-- One proof that is accepted for two connections under one secret was made for the same nonce, pair and device, or two
-- different inputs of the MAC have the same MAC.
pub server_check-bound :
    (by : Codecs) (hmac : List ℕ → List ℕ → List ℕ) (secret mac : Text)
    (nonce pair_id device_id nonce' pair_id' device_id' d d' : Text)
    → Laws by
    → server_check by hmac pair_id secret nonce device_id (proof mac) ≡ ok d
    → server_check by hmac pair_id' secret nonce' device_id' (proof mac) ≡ ok d'
    → ((nonce ≡ nonce') × (pair_id ≡ pair_id') × (device_id ≡ device_id')) ⊎ Collision hmac
server_check-bound by hmac secret mac nonce pair_id device_id nonce' pair_id' device_id' d d' laws h
      h' =
    let one = server_check-Accepted by hmac laws pair_id secret nonce device_id mac d h in
    let two = server_check-Accepted by hmac laws pair_id' secret nonce' device_id' mac d' h' in
    let keys : one.key ≡ two.key = ap or_empty (sym one.is_key ∙ two.is_key) in
    let macs : hmac one.key one.input ≡ hmac two.key two.input =
      ap or_empty (sym one.is_mac ∙ two.is_mac) in
    elim (Bool-cases (text_eq one.input two.input)) [
      | inl same ↦ inl (
          Input-injective by hmac laws nonce pair_id device_id nonce' pair_id' device_id' two.input
            (subst (Input by hmac laws nonce pair_id device_id)
              ((text_eq_iff one.input two.input).0 same) one.is_input)
            two.is_input)
      | inr apart ↦ inr (
        one.key,
        one.input,
        two.input,
        text_eq→≢ one.input two.input apart,
        macs ∙ ap (λ k. hmac k two.input) (sym keys),
      )
    ]
