-- ===== src/Wake/Delivery.antt =====
-- Signals and takes of crates/rowd-android/src/idle.rs under any order of their steps.
use rowd.Base.{◌≤◌, Bool, true, false, List, [], ◌∷◌, any, ◌⊎◌, inr, ◌≡◌, arith}
use rowd.Wake.{
  Reasons, IdleWake, Event, is_empty, start, signal, write, reset_cancel, drain, happen, run,
  signals, writes, resets, drains, takes,
}

-- A reason has its byte in the socket or on the way there, or the waiter is about to take it.
abbrev Awake : IdleWake → Type 0
Awake s = is_empty s.reasons ≡ false → (1 ≤ s.queued) ⊎ ((1 ≤ s.writers) ⊎ (s.drained ≡ true))

happen-Awake : (e : Event) (s : IdleWake) → Awake s → Awake (happen e s).1
unfolding happen
happen-Awake (signals r) s h = ground arith
happen-Awake (writes full) s h = ground arith
happen-Awake resets s h = ground arith
happen-Awake drains s h = ground arith
happen-Awake takes s h = ground arith

run-Awake : (es : List Event) (s : IdleWake) → Awake s → Awake (run es s).1
unfolding run
run-Awake [] s h = h
run-Awake (e ∷ es) s h = run-Awake es (happen e s).1 (happen-Awake e s h)

-- However the steps of signals, resets and takes come between each other: when a reason is set, no
-- thread is inside `signal` and the waiter is not inside `take`, the socket can be read, so that the
-- poll of the waiter returns.
pub run-readable :
    (es : List Event)
    → is_empty (run es start).1.reasons ≡ false
    → (run es start).1.writers ≡ 0
    → (run es start).1.drained ≡ false
    → 1 ≤ (run es start).1.queued
run-readable es set idle outside = ground (arith, run-Awake es start (λ h. cc h) set)

abbrev pub local_taken : List Reasons → Bool
local_taken rs = any (λ r. r.local) rs

run-local :
    (es : List Event) (s : IdleWake)
    → s.reasons.local ≡ true
    → (local_taken (run es s).0 ≡ true) ⊎ ((run es s).1.reasons.local ≡ true)
unfolding run happen
run-local [] s h = inr h
run-local (signals r ∷ es) s h = run-local es (signal r s) (ground (arith, h))
run-local (writes full ∷ es) s h = run-local es (write full s) (ground (arith, h))
run-local (resets ∷ es) s h = run-local es (reset_cancel s) h
run-local (drains ∷ es) s h = run-local es (drain s) h
run-local (takes ∷ es) s h = ground (arith, h, run-local es s h)

-- A local change that is signalled, in any state, has been taken by the waiter or is still set after
-- whatever further steps.
pub signal-delivered :
    (es : List Event) (r : Reasons) (s : IdleWake)
    → r.local ≡ true
    → (local_taken (run (signals r ∷ es) s).0 ≡ true)
      ⊎ ((run (signals r ∷ es) s).1.reasons.local ≡ true)
unfolding run happen
signal-delivered es r s h = run-local es (signal r s) (ground (arith, h))
