-- ===== src/Protocol/Complete/Settled/Waits.antt =====
-- When a pending transfer needs nothing before the next pass of `complete_pending_urbs` of
-- src/lib/usbip_protocol.c, and the steps that keep that.
use usbip_server.Prelude.{
  some, ℕ, zero, suc, ◌-◌, ◌≤◌, ◌<◌, ◌≡◌, ◌⊎◌, inl, inr, refl, sym, ap, true, false, List, [], ◌∷◌,
  arith, is_empty, take, drop, All, low_bits,
}
use usbip_server.Device.Buffers.{DeviceState, transmit_store, transmit_now, fetch_ep_data}
use usbip_server.Device.Control.Preserve.{KeptByTransmit}
use usbip_server.Protocol.State.{Endpoint, PendingUrb, Server, slot, set_endpoint}
use usbip_server.Protocol.Unlink.{remove_pending_urb}
use usbip_server.Protocol.Complete.{get_urb, due_us}
use mathlib.Core.Path.{subst}
use mathlib.Core.Option.{some-injective}

-- The device has nothing for a bulk or interrupt transfer, or the event that ends the next wait is set. Two
-- kinds of transfer are left whatever the device has: one on an endpoint whose number is 0 modulo 16, which is
-- served by control replies, and one of no bytes.
abbrev pub NoData : PendingUrb → DeviceState → Type 0
NoData urb d =
    (d.event_pending ≡ true)
    ⊎ ((low_bits urb.ep 4 ≡ 0)
        ⊎ ((urb.transfer_buffer_length ≡ 0) ⊎ (d.endpoint_data (low_bits urb.ep 4) ≡ [])))

-- The transfer may not complete yet, and the next wait is over when it may.
abbrev pub NotDue : ℕ → ℕ → (ℕ → Endpoint) → PendingUrb → Type 0
NotDue now timeout endpoints urb =
    (now < due_us urb endpoints) × (timeout ≤ due_us urb endpoints - now)

abbrev pub SettledBy : ℕ → ℕ → (ℕ → Endpoint) → DeviceState → PendingUrb → Type 0
SettledBy now timeout endpoints d urb =
    NotDue now timeout endpoints urb ⊎ ((urb.isochronous ≡ false) × NoData urb d)

-- There is nothing to do for a pending transfer before the next wait is over.
abbrev pub Settled : {A : Type 0} → ℕ → Server A → PendingUrb → Type 0
Settled now s urb = SettledBy now s.wait_timeout_us s.endpoints s.gadget.dev urb

pub transmit_now-NoData : (urb : PendingUrb) → KeptByTransmit (NoData urb)
unfolding transmit_now transmit_store
transmit_now-NoData urb ep bytes d h = ground arith

drop_nothing : (n : ℕ) (xs : List ℕ) → xs ≡ [] → drop n xs ≡ []
unfolding drop
drop_nothing zero xs h = h
drop_nothing (suc n) [] h = refl
drop_nothing (suc n) (x ∷ xs) h = cc

take-empty : (n : ℕ) (xs : List ℕ) → is_empty (take n xs) ≡ true → (n ≡ 0) ⊎ (xs ≡ [])
unfolding take
take-empty zero xs h = inl refl
take-empty (suc n) [] h = inr refl
take-empty (suc n) (x ∷ xs) h = cc

pub fetch-NoData :
    (urb : PendingUrb) (ep n : ℕ) (d : DeviceState)
    → NoData urb d
    → NoData urb (fetch_ep_data ep n d).1
unfolding fetch_ep_data
fetch-NoData urb ep n d h = ground (arith, drop_nothing n (d.endpoint_data (low_bits urb.ep 4)))

-- The transfer that was polled in vain has no data.
pub polled-NoData :
    (urb : PendingUrb) (d : DeviceState)
    → is_empty (fetch_ep_data urb.ep urb.transfer_buffer_length d).0 ≡ true
    → NoData urb (fetch_ep_data urb.ep urb.transfer_buffer_length d).1
unfolding fetch_ep_data
polled-NoData urb d h = ground (
  arith,
  take-empty urb.transfer_buffer_length (d.endpoint_data (low_bits urb.ep 4)),
  drop_nothing urb.transfer_buffer_length (d.endpoint_data (low_bits urb.ep 4)),
)

-- An endpoint that may be polled has no transfer that waits for its next poll.
set_endpoint-NotDue :
    (now timeout next : ℕ) (endpoints : ℕ → Endpoint) (polled urb : PendingUrb)
    → polled.isochronous ≡ false
    → due_us polled endpoints ≤ now
    → NotDue now timeout endpoints urb
    → NotDue now timeout
        (set_endpoint endpoints
          (slot 1 polled.ep)
          (record (endpoints (slot 1 polled.ep)) { next_poll_us = next }))
        urb
unfolding due_us
set_endpoint-NotDue now timeout next endpoints polled urb async due h = ground arith

pub take-remove_pending_urb :
    (i : ℕ) (urbs : List PendingUrb) → take i (remove_pending_urb i urbs) ≡ take i urbs
unfolding remove_pending_urb take
take-remove_pending_urb zero urbs = refl
take-remove_pending_urb (suc i) [] = refl
take-remove_pending_urb (suc i) (urb ∷ urbs) = ap (λ us. urb ∷ us) (take-remove_pending_urb i urbs)

pub All-take_next {ℓ} :
    (P : PendingUrb → Type ℓ) (i : ℕ) (urbs : List PendingUrb) {urb : PendingUrb}
    → get_urb urbs i ≡ some urb
    → P urb
    → All P (take i urbs)
    → All P (take (suc i) urbs)
unfolding get_urb take
All-take_next P zero [] e h a = cc
All-take_next P zero (u ∷ urbs) e h a = (subst P (sym (some-injective _ _ e)) h, tt)
All-take_next P (suc i) [] e h a = tt
All-take_next P (suc i) (u ∷ urbs) e h a = (a.0, All-take_next P i urbs e h a.1)

pub wait-Settled :
    (now timeout timeout' : ℕ) (endpoints : ℕ → Endpoint) (d : DeviceState) (urb : PendingUrb)
    → timeout' ≤ timeout
    → SettledBy now timeout endpoints d urb
    → SettledBy now timeout' endpoints d urb
wait-Settled now timeout timeout' endpoints d urb le (inl (late, wait)) = inl (late, omega arith)
wait-Settled now timeout timeout' endpoints d urb le (inr h) = inr h

pub device-Settled :
    (now timeout : ℕ) (endpoints : ℕ → Endpoint) (d d' : DeviceState) (urb : PendingUrb)
    → (NoData urb d → NoData urb d')
    → SettledBy now timeout endpoints d urb
    → SettledBy now timeout endpoints d' urb
device-Settled now timeout endpoints d d' urb f (inl h) = inl h
device-Settled now timeout endpoints d d' urb f (inr (async, h)) = inr (async, f h)

pub poll-Settled :
    (now timeout next n : ℕ) (endpoints : ℕ → Endpoint) (d : DeviceState) (polled urb : PendingUrb)
    → polled.isochronous ≡ false
    → due_us polled endpoints ≤ now
    → SettledBy now timeout endpoints d urb
    → SettledBy now timeout
        (set_endpoint endpoints
          (slot 1 polled.ep)
          (record (endpoints (slot 1 polled.ep)) { next_poll_us = next }))
        (fetch_ep_data polled.ep n d).1
        urb
poll-Settled now timeout next n endpoints d polled urb async due (inl h) =
    inl (set_endpoint-NotDue now timeout next endpoints polled urb async due h)
poll-Settled now timeout next n endpoints d polled urb async due (inr (async', h)) =
    inr (async', fetch-NoData urb polled.ep n d h)
