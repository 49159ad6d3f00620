-- ===== src/Wake.antt =====
-- `IdleWake` of crates/rowd-android/src/idle.rs: a set of reasons and a pair of sockets that wake one
-- waiter. The calls of several threads are cut into their atomic steps.
pub mod Delivery
use rowd.Base.{
  ℕ, ◌+◌, ◌-◌, Option, none, some, Bool, true, false, not, ◌&&◌, ◌||◌, ltb, List, [], ◌∷◌,
  if◌then◌else◌,
}

-- The bits of `reasons`.
pub record Reasons : Type 0 where
  pub local : Bool
  pub network : Bool
  pub cancel : Bool

abbrev pub no_reasons : Reasons
no_reasons = record { local = false; network = false; cancel = false }

abbrev pub union : Reasons → Reasons → Reasons
union r q = record {
  local = r.local || q.local;
  network = r.network || q.network;
  cancel = r.cancel || q.cancel;
}

abbrev pub is_empty : Reasons → Bool
is_empty r = not r.local && not r.network && not r.cancel

-- `queued` bytes can be read, `writers` threads are about to write one, and the waiter has emptied the
-- socket but not yet taken the reasons when `drained`.
pub record IdleWake : Type 0 where
  pub reasons : Reasons
  pub queued : ℕ
  pub writers : ℕ
  pub drained : Bool

abbrev pub start : IdleWake
start = record { reasons = no_reasons; queued = 0; writers = 0; drained = false }

-- The first step of `signal`: `fetch_or`, and the early return.
unfoldable pub signal : Reasons → IdleWake → IdleWake
signal r s =
    if is_empty s.reasons
    then record s { reasons = union s.reasons r; writers = s.writers + 1 }
    else record s { reasons = union s.reasons r }

-- The write of `signal`: a byte, or `WouldBlock` when the socket is full.
unfoldable pub write : Bool → IdleWake → IdleWake
write full s =
    if ltb 0 s.writers
    then (if full && ltb 0 s.queued
        then record s { writers = s.writers - 1 }
        else record s { writers = s.writers - 1; queued = s.queued + 1 })
    else s

unfoldable pub reset_cancel : IdleWake → IdleWake
reset_cancel s = record s { reasons = record s.reasons { cancel = false } }

-- The loop of `take`, at the read that finds the socket empty.
unfoldable pub drain : IdleWake → IdleWake
drain s = record s { queued = 0; drained = true }

-- The `swap` of `take`.
unfoldable pub take_reasons : IdleWake → Option Reasons × IdleWake
take_reasons s =
    if s.drained
    then (some s.reasons, record s { reasons = no_reasons; drained = false })
    else (none, s)

pub data Event : Type 0 where
  signals : Reasons → Event
  writes : Bool → Event
  resets drains takes : Event

unfoldable pub happen : Event → IdleWake → Option Reasons × IdleWake
unfolding signal write reset_cancel drain take_reasons
happen (signals r) s = (none, signal r s)
happen (writes full) s = (none, write full s)
happen resets s = (none, reset_cancel s)
happen drains s = (none, drain s)
happen takes s = take_reasons s

abbrev pub add : Option Reasons → List Reasons → List Reasons
add none rs = rs
add (some r) rs = r ∷ rs

-- What the waiter has taken, and the state at the end.
unfoldable pub run : List Event → IdleWake → List Reasons × IdleWake
unfolding happen
run [] s = ([], s)
run (e ∷ es) s =
    let (taken, after) = happen e s in let (rest, end) = run es after in (add taken rest, end)
