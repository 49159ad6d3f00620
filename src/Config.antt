-- ===== src/Config.antt =====
-- The modes and remap policies of a Share: crates/rowd-core/src/config.rs.
use rowd.Base.{ℕ, Text, Option, Bool}

pub data SyncMode : Type 0 where
  bidirectional to_android to_pc : SyncMode

pub data RemapPolicy : Type 0 where
  pc android compare : RemapPolicy

pub record ShareDefinition : Type 0 where
  pub share_id : Text
  pub name : Text
  pub mode : SyncMode
  pub enabled : Bool
  pub binding_revision : ℕ
  pub ignore_rules : Text
  pub request_id : Option Text
  pub remap_policy : Option RemapPolicy
