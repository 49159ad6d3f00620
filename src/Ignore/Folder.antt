-- ===== src/Ignore/Folder.antt =====
-- Conflict copies and `Ignore::matches` of crates/rowd-core/src/ignore.rs.
use rowd.Base.{arith, Text, List, Bool, false, ◌≡◌}
use rowd.Model.Conflicts.{conflict_path, conflict_path-starts_with}
use rowd.Ignore.{matches}

-- No rule of the user hides a copy that a conflict made, whatever its path, its hash and the rules.
matches-conflict_path :
    (digest : Text → Text) (rules : List Text) (path hash : Text) (directory : Bool)
    → matches rules (conflict_path digest path hash) directory ≡ false
unfolding matches
matches-conflict_path digest rules path hash directory =
    ground (arith, conflict_path-starts_with digest path hash)
