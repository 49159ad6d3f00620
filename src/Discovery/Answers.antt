-- ===== src/Discovery/Answers.antt =====
-- Which answers a phone accepts, and that it accepts its PC's: crates/rowd-core/src/discovery.rs.
use rowd.Base.{
  ℕ, ◌<◌, true, false, not, ◌&&◌, &&-split, ◌==◌, ==_iff, List, [], ◌∷◌, ◌++◌, length, take, drop,
  length-append, append-nil, text_eq_iff, text_eq_refl, All, Result, ok, ensure-bind, ◌≡◌, ◌↔◌,
  refl, sym, ap, ◌∙◌, arith,
}
use rowd.Discovery.{
  magic, version, discover, announce, response_len, header_len, request_len, SocketAddr, is_ipv4,
  DiscoveryError, invalid_response, response_mismatch, invalid_endpoint, bytes_eq, slice, is_packet,
  discover_packet, announce_packet, endpoint,
}
use rowd.Invitation.{be_bytes_16, from_be_bytes_16}
use rowd.Discovery.Slices.{
  take-exact, drop-exact, drop-drop, cut, length-drop, two_bytes, port_back, not-zero, All-drop,
  port_small,
}

-- The answer of the PC with that fingerprint and port to the phone with that nonce.
abbrev pub announcement : List ℕ → List ℕ → ℕ → List ℕ
announcement nonce fingerprint port =
    magic ++ (version ∷ announce ∷ (nonce ++ (fingerprint ++ be_bytes_16 port)))

module _ (nonce fingerprint : List ℕ) (port : ℕ) (nonce_len : length nonce ≡ 32)
    (fingerprint_len : length fingerprint ≡ 32) where
  abbrev answer : List ℕ
  answer = announcement nonce fingerprint port

  after_nonce : drop 38 answer ≡ fingerprint ++ be_bytes_16 port
  after_nonce = drop-exact 32 nonce (fingerprint ++ be_bytes_16 port) nonce_len

  answer-nonce : slice 6 32 answer ≡ nonce
  answer-nonce = take-exact 32 nonce (fingerprint ++ be_bytes_16 port) nonce_len

  answer-fingerprint : slice 38 32 answer ≡ fingerprint
  answer-fingerprint =
      ap (λ t. take 32 t) after_nonce ∙ take-exact 32 fingerprint (be_bytes_16 port) fingerprint_len

  answer-port : drop 70 answer ≡ be_bytes_16 port
  answer-port =
      sym (drop-drop 32 38 answer)
      ∙ ap (λ t. drop 32 t) after_nonce
      ∙ drop-exact 32 fingerprint (be_bytes_16 port) fingerprint_len

  answer-length : length answer ≡ 72
  unfolding be_bytes_16
  answer-length = omega (
    arith,
    length-append nonce (fingerprint ++ be_bytes_16 port),
    length-append fingerprint (be_bytes_16 port),
    nonce_len,
    fingerprint_len,
  )

  endpoint-answer :
      (source : SocketAddr)
      → 0 < port
      → port < 65536
      → is_ipv4 source.ip ≡ true
      → endpoint answer nonce fingerprint source ≡ ok (record { ip = source.ip; port = port })
  unfolding endpoint
  endpoint-answer source positive small four =
      let nonzero : (port == 0) ≡ false = ground (arith, positive) in
      rw
        (
          answer-length,
          answer-nonce,
          answer-fingerprint,
          answer-port,
          port_back port small,
          text_eq_refl nonce,
          text_eq_refl fingerprint,
          four,
          text_eq_refl magic,
          text_eq_refl (version ∷ announce ∷ []),
          nonzero,
        )
        refl

is_packet-parts :
    (len kind : ℕ) (packet : List ℕ)
    → is_packet len kind packet ≡ true
    → (length packet ≡ len) × (slice 0 4 packet ≡ magic) × (slice 4 2 packet ≡ version ∷ kind ∷ [])
is_packet-parts len kind packet h =
    let (sized, kinds) =
      &&-split ((length packet == len) && bytes_eq (slice 0 4 packet) magic)
        (bytes_eq (slice 4 2 packet) (version ∷ kind ∷ [])) h in
    let (whole, is_magic) =
      &&-split (length packet == len) (bytes_eq (slice 0 4 packet) magic) sized in
    ((==_iff _ _).0 whole, (text_eq_iff _ _).0 is_magic, (text_eq_iff _ _).0 kinds)

-- What was accepted, part by part.
endpoint-parts :
    (packet nonce fingerprint : List ℕ) (source address : SocketAddr)
    → All (λ b. b < 256) packet
    → endpoint packet nonce fingerprint source ≡ ok address
    → (port : ℕ) × (0 < port)
      × (port < 65536)
      × (is_ipv4 source.ip ≡ true)
      × (packet ≡ announcement nonce fingerprint port)
      × (address ≡ record { ip = source.ip; port = port })
unfolding endpoint
endpoint-parts packet nonce fingerprint source address bytes h =
    let (whole, same) = ensure-bind (is_packet response_len announce packet) invalid_response _ h in
    let (ours, valid) =
      ensure-bind
        (bytes_eq (slice header_len 32 packet) nonce && bytes_eq (slice 38 32 packet) fingerprint)
        response_mismatch _ same in
    let port = from_be_bytes_16 (drop request_len packet) in
    let (usable, is) =
      ensure-bind (not (port == 0) && is_ipv4 source.ip) invalid_endpoint _ valid in
    let (len, is_magic, kinds) = is_packet-parts response_len announce packet whole in
    let (is_nonce, is_fingerprint) =
      &&-split (bytes_eq (slice header_len 32 packet) nonce)
        (bytes_eq (slice 38 32 packet) fingerprint) ours in
    let (nonzero, four) = &&-split (not (port == 0)) (is_ipv4 source.ip) usable in
    let ends = All-drop request_len packet bytes in
    let spelled = two_bytes (drop request_len packet) (length-drop request_len packet 2 len) ends in
    let here : record { ip = source.ip; port = port } ≡ address = cc in
    (
      port,
      not-zero port nonzero,
      port_small (drop request_len packet) ends,
      four,
      cut packet
          ∙ ap
              (λ t.
                t
                ++ (slice 4 2 packet
                    ++ (slice 6 32 packet ++ (slice 38 32 packet ++ drop 70 packet))))
              is_magic
          ∙ ap (λ t. magic ++ (t ++ (slice 6 32 packet ++ (slice 38 32 packet ++ drop 70 packet))))
              kinds
          ∙ ap (λ t. magic ++ (version ∷ announce ∷ (t ++ (slice 38 32 packet ++ drop 70 packet))))
              ((text_eq_iff _ _).0 is_nonce)
          ∙ ap (λ t. magic ++ (version ∷ announce ∷ (nonce ++ (t ++ drop 70 packet))))
              ((text_eq_iff _ _).0 is_fingerprint)
          ∙ ap (λ t. magic ++ (version ∷ announce ∷ (nonce ++ (fingerprint ++ t)))) (sym spelled),
      sym here,
    )

-- What the PC with that fingerprint answers to a phone's request.
announce_packet-discover_packet :
    (nonce fingerprint : List ℕ) (port : ℕ)
    → length nonce ≡ 32
    → length fingerprint ≡ 32
    → 0 < port
    → announce_packet (discover_packet nonce fingerprint) fingerprint port
      ≡ ok (announcement nonce fingerprint port)
unfolding announce_packet discover_packet
announce_packet-discover_packet nonce fingerprint port nonce_len fingerprint_len positive =
    let nonzero : (port == 0) ≡ false = ground (arith, positive) in
    let len : length (magic ++ (version ∷ discover ∷ (nonce ++ fingerprint))) ≡ 70 =
      omega (arith, length-append nonce fingerprint, nonce_len, fingerprint_len) in
    let last : take 32 (drop 32 (nonce ++ fingerprint)) ≡ fingerprint =
      ap (λ t. take 32 t) (drop-exact 32 nonce fingerprint nonce_len)
      ∙ ap (λ t. take 32 t) (sym (append-nil fingerprint))
      ∙ take-exact 32 fingerprint [] fingerprint_len in
    rw
      (
        len,
        last,
        take-exact 32 nonce fingerprint nonce_len,
        text_eq_refl fingerprint,
        text_eq_refl magic,
        text_eq_refl (version ∷ discover ∷ []),
        nonzero,
      )
      refl

-- A packet is accepted exactly when it is what the PC with this fingerprint announces on a port that is not zero to the
-- request with this nonce, and comes from an IPv4 address; what is then called is that address with that port.
pub endpoint-accepts_iff :
    (packet nonce fingerprint : List ℕ) (source address : SocketAddr)
    → length nonce ≡ 32
    → length fingerprint ≡ 32
    → All (λ b. b < 256) packet
    → (endpoint packet nonce fingerprint source ≡ ok address) ↔ (
        (port : ℕ) × (0 < port)
        × (port < 65536)
        × (is_ipv4 source.ip ≡ true)
        × (announce_packet (discover_packet nonce fingerprint) fingerprint port ≡ ok packet)
        × (address ≡ record { ip = source.ip; port = port }))
endpoint-accepts_iff packet nonce fingerprint source address nonce_len fingerprint_len bytes = (
  λ h.
      let (port, positive, small, four, is_answer, here) =
        endpoint-parts packet nonce fingerprint source address bytes h in
      (port, positive, small, four, announced port positive ∙ ap ok (sym is_answer), here),
  λ (port, positive, small, four, is_announced, here).
      let same : announcement nonce fingerprint port ≡ packet =
        ok-injective (sym (announced port positive) ∙ is_announced) in
      ap (λ q. endpoint q nonce fingerprint source) (sym same)
      ∙ endpoint-answer nonce fingerprint port nonce_len fingerprint_len source positive small four
      ∙ ap ok (sym here),
)
  where
    announced :
        (port : ℕ)
        → 0 < port
        → announce_packet (discover_packet nonce fingerprint) fingerprint port
          ≡ ok (announcement nonce fingerprint port)
    announced port =
        announce_packet-discover_packet nonce fingerprint port nonce_len fingerprint_len

    ok-injective :
        {xs ys : List ℕ} → ◌≡◌ {A = Result DiscoveryError (List ℕ)} (ok xs) (ok ys) → xs ≡ ys
    ok-injective h = cc
