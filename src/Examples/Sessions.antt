-- ===== src/Examples/Sessions.antt =====
-- A session of crates/rowd-core/src/managed.rs over four Shares, of which one is switched off and one failed before.
use rowd.Base.{Text, codes, none, Bool, true, false, List, [], ◌∷◌, All, ok, ◌≡◌, refl, text_eq}
use rowd.Config.{ShareDefinition, bidirectional}
use rowd.Ignore.{validate}
use rowd.Model.Conflicts.{starts_with}
use rowd.Paths.{validate_hash, is_hex, utf8_width}
use rowd.Shares.{
  contains, in_focus, validate_shares, share_queue, retain_unskipped, take_share, take_all,
}
use rowd.Shares.Queue.{Once, take_all-share_queue}
use rowd.Examples.Rounds.{hash}

abbrev share : Text → Bool → ShareDefinition
share id enabled = record {
  share_id = id;
  name = codes "docs";
  mode = bidirectional;
  enabled = enabled;
  binding_revision = 0;
  ignore_rules = codes "*.tmp";
  request_id = none;
  remap_policy = none;
}

abbrev shares : List ShareDefinition
shares =
    share (hash b'a') true
    ∷ share (hash b'b') false
    ∷ share (hash b'c') true
    ∷ share (hash b'd') true
    ∷ []

abbrev available : List Text
available = hash b'd' ∷ hash b'c' ∷ hash b'b' ∷ hash b'a' ∷ []

abbrev failed : List Text
failed = hash b'd' ∷ []

abbrev chosen : List Text
chosen = hash b'c' ∷ hash b'a' ∷ []

accepted : validate_shares shares ≡ ok tt
unfolding validate_shares validate_hash is_hex utf8_width validate text_eq starts_with
accepted = refl

selected : take_all (retain_unskipped failed (share_queue shares available none)) chosen ≡ ok []
unfolding take_all retain_unskipped share_queue take_share text_eq
selected = refl

take_all-share_queue_example :
    Once chosen
    × All
        (λ id.
          (contains available id ≡ true) × (in_focus none id ≡ true) × (contains failed id ≡ false))
        chosen
take_all-share_queue_example =
    take_all-share_queue shares available none failed chosen [] accepted selected
