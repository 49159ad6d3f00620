-- ===== src/Model.antt =====
-- crates/rowd-core/src/model.rs: what a manifest holds, and the three-way decision for one path.
pub mod Actions
pub mod Decision
pub mod Conflicts
pub mod Manifests
pub mod Namespaces
use rowd.Base.{
  ℕ, ◌*◌, Text, Map, Option, none, some, Bool, true, false, ◌&&◌, ◌==◌, ◌≡◌, ◌↔◌, if◌then◌else◌,
  text_eq, text_eq_iff, arith,
}
use Actions.{Action, to_pc, to_android, conflict}

pub record Entry : Type 0 where
  pub hash : Text
  pub size : ℕ

abbrev pub Manifest : Type 0
Manifest = Map Entry

abbrev pub max_file : ℕ
max_file = 8 * 1024 * 1024 * 1024

abbrev pub max_files : ℕ
max_files = 100_000

-- `==` on entries
unfoldable pub entry_eq : Entry → Entry → Bool
entry_eq d e = text_eq d.hash e.hash && (d.size == e.size)

-- `==` on `Option<&str>`
unfoldable pub opt_eq : Option Text → Option Text → Bool
opt_eq none none = true
opt_eq none (some t) = false
opt_eq (some s) none = false
opt_eq (some s) (some t) = text_eq s t

-- `map(|e| e.hash.as_str())`
abbrev pub hash_of : Option Entry → Option Text
hash_of none = none
hash_of (some e) = some e.hash

unfoldable pub reconcile : Option Text → Option Text → Option Text → Action
reconcile base none none = Action.none
reconcile base (some a) none = to_android
reconcile base none (some b) = to_pc
reconcile base (some a) (some b) =
    if text_eq a b
    then Action.none
    else if opt_eq (some a) base
    then to_pc
    else if opt_eq (some b) base
    then to_android
    else conflict

pub entry_eq_iff : (d e : Entry) → (entry_eq d e ≡ true) ↔ (d ≡ e)
unfolding entry_eq
entry_eq_iff d e =
    (ground (arith, text_eq_iff d.hash e.hash), ground (arith, text_eq_iff d.hash e.hash))

pub opt_eq_iff : (s t : Option Text) → (opt_eq s t ≡ true) ↔ (s ≡ t)
unfolding opt_eq
opt_eq_iff none none = ground arith
opt_eq_iff none (some t) = ground arith
opt_eq_iff (some s) none = ground arith
opt_eq_iff (some s) (some t) = ground (arith, text_eq_iff s t)
