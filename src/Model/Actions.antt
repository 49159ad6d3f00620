-- ===== src/Model/Actions.antt =====
-- What a round does with one path: `Action` of crates/rowd-core/src/model.rs.

pub data Action : Type 0 where
  none to_pc to_android conflict : Action

pub Action-discrete : Discrete Action
Action-discrete = hlevel

-- The same decision seen from the other device.
abbrev pub mirror : Action → Action
mirror none = none
mirror to_pc = to_android
mirror to_android = to_pc
mirror conflict = conflict
