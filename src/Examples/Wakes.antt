-- ===== src/Examples/Wakes.antt =====
-- A signal and a take whose steps cross: crates/rowd-android/src/idle.rs.
use rowd.Base.{◌≤◌, true, false, List, [], ◌∷◌, ◌≡◌, ◌⊎◌, refl}
use rowd.Wake.{Reasons, Event, start, run, signals, writes, drains, takes}
use rowd.Wake.Delivery.{run-readable, local_taken, signal-delivered}

abbrev changed : Reasons
changed = record { local = true; network = false; cancel = false }

-- The waiter takes the reason before its byte is written, and a second change follows.
abbrev crossed : List Event
crossed =
    drains
    ∷ signals changed
    ∷ takes
    ∷ writes false
    ∷ drains
    ∷ takes
    ∷ signals changed
    ∷ writes false
    ∷ []

run-readable_example : 1 ≤ (run crossed start).1.queued
unfolding run
run-readable_example = run-readable crossed refl refl refl

signal-delivered_example :
    (local_taken (run (signals changed ∷ drains ∷ takes ∷ []) start).0 ≡ true)
    ⊎ ((run (signals changed ∷ drains ∷ takes ∷ []) start).1.reasons.local ≡ true)
signal-delivered_example = signal-delivered (drains ∷ takes ∷ []) changed start refl
