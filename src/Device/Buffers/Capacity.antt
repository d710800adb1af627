-- ===== src/Device/Buffers/Capacity.antt =====
-- The sizes of the endpoint buffers of src/lib/usbip_device.c under every function that changes them.
use usbip_server.Prelude.{ℕ, ◌≤◌, false, List, arith, length, length-take, length-drop, low_bits}
use usbip_server.Device.Api.{Action, done, transmit}
use usbip_server.Device.Buffers.{
  DeviceState, endpoint_max_data_length, update, reset_buffers, transmit_store, transmit_now,
  fetch_ep_data, fetch_control_reply, begin_request, run,
}

-- Every endpoint holds at most ENDPOINT_MAX_DATA_LENGTH bytes.
abbrev pub Fits : DeviceState → Type 0
Fits s = (ep : ℕ) → length (s.endpoint_data ep) ≤ endpoint_max_data_length

pub update-Fits :
    (f : ℕ → List ℕ) (i : ℕ) (bytes : List ℕ)
    → ((ep : ℕ) → length (f ep) ≤ endpoint_max_data_length)
    → length bytes ≤ endpoint_max_data_length
    → (ep : ℕ) → length (update f i bytes ep) ≤ endpoint_max_data_length
update-Fits f i bytes h k ep = ground (arith, h ep)

pub transmit_store-Fits :
    (ep : ℕ) (bytes : List ℕ) (generation : ℕ) (s : DeviceState)
    → Fits s
    → Fits (transmit_store ep bytes generation s).1
unfolding transmit_store
transmit_store-Fits ep bytes generation s h j =
    ground (arith, h j, length-take endpoint_max_data_length bytes)

pub transmit_now-Fits :
    (ep : ℕ) (bytes : List ℕ) (s : DeviceState) → Fits s → Fits (transmit_now ep bytes s).1
unfolding transmit_now
transmit_now-Fits ep bytes s h = transmit_store-Fits ep bytes s.reset_generation s h

pub fetch_ep_data-Fits : (ep n : ℕ) (s : DeviceState) → Fits s → Fits (fetch_ep_data ep n s).1
unfolding fetch_ep_data
fetch_ep_data-Fits ep n s h j =
    ground (arith, h j, h (low_bits ep 4), length-drop n (s.endpoint_data (low_bits ep 4)))

pub fetch_control_reply-Fits : (n : ℕ) (s : DeviceState) → Fits s → Fits (fetch_control_reply n s).2
unfolding fetch_control_reply
fetch_control_reply-Fits n s h = fetch_ep_data-Fits 0 n (record s { control_answered = false }) h

pub begin_request-Fits : (s : DeviceState) → Fits s → Fits (begin_request s)
unfolding begin_request
begin_request-Fits s h j = ground (arith, h j)

pub reset_buffers-Fits : (s : DeviceState) → Fits (reset_buffers s)
unfolding reset_buffers
reset_buffers-Fits s j = omega arith

pub run-Fits : {R : Type 0} (act : Action R) (s : DeviceState) → Fits s → Fits (run act s).1
unfolding run
run-Fits (done r) s h = h
run-Fits (transmit ep bytes k) s h =
    run-Fits (k (transmit_now ep bytes s).0) (transmit_now ep bytes s).1
      (transmit_now-Fits ep bytes s h)
