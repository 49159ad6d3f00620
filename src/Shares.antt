-- ===== src/Shares.antt =====
-- The Shares of one session: `validate_shares`, `share_queue`, `take_share` and the Shares that failed before, of crates/rowd-core/src/managed.rs.
pub mod Queue
use rowd.Base.{
  ℕ, Text, text_eq, Option, none, some, Bool, true, false, not, ◌&&◌, leb, List, [], ◌∷◌, length,
  any, Result, ok, err, ensure, ◌>>=◌, ◌>>◌, if◌then◌else◌,
}
use rowd.Config.{ShareDefinition}
use rowd.Ignore.{IgnoreError, validate}
use rowd.Paths.{PathError, validate_hash}

pub data ShareFault : Type 0 where
  too_many_shares duplicate_identity unexpected_selection : ShareFault
  bad_hash : PathError → ShareFault
  bad_rules : IgnoreError → ShareFault

abbrev pub on_hash : Result PathError (Unit {0}) → Result ShareFault (Unit {0})
on_hash (ok u) = ok tt
on_hash (err e) = err (bad_hash e)

abbrev pub on_rules : Result IgnoreError (Unit {0}) → Result ShareFault (Unit {0})
on_rules (ok u) = ok tt
on_rules (err e) = err (bad_rules e)

-- `contains`
abbrev pub contains : List Text → Text → Bool
contains ids id = any (text_eq id) ids

unfoldable pub validate_each : List Text → List ShareDefinition → Result ShareFault (Unit {0})
validate_each ids [] = ok tt
validate_each ids (s ∷ shares) =
    on_hash (validate_hash s.share_id)
    >> (ensure (not (contains ids s.share_id)) duplicate_identity
        >> (on_rules (validate s.ignore_rules) >> validate_each (s.share_id ∷ ids) shares))

unfoldable pub validate_shares : List ShareDefinition → Result ShareFault (Unit {0})
unfolding validate_each
validate_shares shares = ensure (leb (length shares) 256) too_many_shares >> validate_each [] shares

-- `focus.is_none_or(..)`
abbrev pub in_focus : Option (List Text) → Text → Bool
in_focus none id = true
in_focus (some ids) id = contains ids id

abbrev pub eligible : List Text → Option (List Text) → ShareDefinition → Bool
eligible available focus s = s.enabled && contains available s.share_id && in_focus focus s.share_id

unfoldable pub share_queue : List ShareDefinition → List Text → Option (List Text) → List Text
share_queue [] available focus = []
share_queue (s ∷ shares) available focus =
    let rest = share_queue shares available focus in
    if eligible available focus s then s.share_id ∷ rest else rest

-- `retain(|id| !skipped.contains(id))`
unfoldable pub retain_unskipped : List Text → List Text → List Text
retain_unskipped skipped [] = []
retain_unskipped skipped (id ∷ queue) =
    let rest = retain_unskipped skipped queue in if contains skipped id then rest else id ∷ rest

abbrev pub kept : Text → Result ShareFault (List Text) → Result ShareFault (List Text)
kept candidate (ok more) = ok (candidate ∷ more)
kept candidate (err e) = err e

-- `position` and `remove`: the first that is equal.
unfoldable pub take_share : List Text → Text → Result ShareFault (List Text)
take_share [] id = err unexpected_selection
take_share (candidate ∷ queue) id =
    let rest = take_share queue id in if text_eq candidate id then ok queue else kept candidate rest

-- The Shares that the coordinator selects or skips, one after the other.
unfoldable pub take_all : List Text → List Text → Result ShareFault (List Text)
unfolding take_share
take_all queue [] = ok queue
take_all queue (id ∷ ids) = take_share queue id >>= λ rest. take_all rest ids
