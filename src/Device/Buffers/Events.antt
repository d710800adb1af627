-- ===== src/Device/Buffers/Events.antt =====
-- The critical sections of `ep_access_mutex` in src/lib/usbip_device.c as events: the device's threads
-- and the server thread interleave in any order. `control_fetched` is two such sections in a row, of
-- which only the server thread is between.
use usbip_server.Prelude.{
  ℕ, suc, ◌+◌, ◌%◌, ◌<◌, ◌≡◌, Bool, true, false, List, [], ◌∷◌, arith, u32_mod,
}
use usbip_server.Device.Buffers.{
  DeviceState, clear_event, reset_buffers, stop, must_wait, transmit_store, fetch_ep_data,
  fetch_control_reply, begin_request,
}

-- What one thread does under the mutex. `stored` is the end of a call of `usbip_device_transmit` with
-- the generation at which the call began.
pub data Event : Type 0 where
  stored : ℕ → List ℕ → ℕ → Event
  fetched : ℕ → ℕ → Event
  control_fetched : ℕ → Event
  control_begun : Event
  event_cleared : Event
  was_reset : Event
  was_stopped : Event

unfoldable pub apply : Event → DeviceState → DeviceState
unfolding transmit_store fetch_ep_data fetch_control_reply begin_request clear_event reset_buffers
    stop
apply (stored ep bytes generation) s = (transmit_store ep bytes generation s).1
apply (fetched ep n) s = (fetch_ep_data ep n s).1
apply (control_fetched n) s = (fetch_control_reply n s).2
apply control_begun s = begin_request s
apply event_cleared s = clear_event s
apply was_reset s = reset_buffers s
apply was_stopped s = stop s

unfoldable pub apply_all : List Event → DeviceState → DeviceState
unfolding apply
apply_all [] s = s
apply_all (e ∷ es) s = apply_all es (apply e s)

-- How many of the events are resets.
abbrev pub resets : List Event → ℕ
resets [] = 0
resets (was_reset ∷ es) = suc (resets es)
resets (_ ∷ es) = resets es

resets-cons : (e : Event) (es : List Event) → resets (e ∷ es) ≡ resets (e ∷ []) + resets es
resets-cons was_reset es = omega arith
resets-cons _ es = omega arith

generation-apply :
    (e : Event) (s : DeviceState)
    → s.reset_generation < u32_mod
    → (apply e s).reset_generation ≡ (s.reset_generation + resets (e ∷ [])) % u32_mod
unfolding apply
generation-apply (stored ep bytes generation) s h = ground arith
generation-apply e s h = ground arith

generation-apply_all :
    (es : List Event) (s : DeviceState)
    → s.reset_generation < u32_mod
    → (apply_all es s).reset_generation ≡ (s.reset_generation + resets es) % u32_mod
unfolding apply_all
generation-apply_all [] s h = omega arith
generation-apply_all (e ∷ es) s h = omega (
  arith,
  resets-cons e es,
  generation-apply e s h,
  generation-apply_all es (apply e s) (omega (arith, generation-apply e s h)),
)

-- Data that was handed over before a reset is never stored after it, in whatever order the threads run:
-- a call that began before one to 2 ^ 32 - 1 resets stores nothing and reports that. The counter of
-- resets is a 32 bit word.
pub stale_transmit :
    (ep : ℕ) (bytes : List ℕ) (es : List Event) (s : DeviceState)
    → s.reset_generation < u32_mod
    → 0 < resets es
    → resets es < u32_mod
    → let t = apply_all es s in transmit_store ep bytes s.reset_generation t ≡ (false, t)
unfolding transmit_store
stale_transmit ep bytes es s h lo hi = ground (arith, generation-apply_all es s h)

-- No wake-up is lost: whatever lets a waiting call of `usbip_device_transmit` go on is broadcast.
pub must_wait-broadcast :
    (may_wait : Bool) (ep : ℕ) (e : Event) (s : DeviceState)
    → must_wait may_wait ep s ≡ true
    → must_wait may_wait ep (apply e s) ≡ false
    → (apply e s).broadcasts ≡ s.broadcasts + 1
unfolding must_wait apply
must_wait-broadcast may_wait ep (stored ep' bytes generation) s h k = ground arith
must_wait-broadcast may_wait ep e s h k = ground arith
