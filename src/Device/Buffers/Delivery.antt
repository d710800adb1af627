-- ===== src/Device/Buffers/Delivery.antt =====
-- Transmitting and fetching in src/lib/usbip_device.c: what the host gets of what a device transmits.
use usbip_server.Prelude.{
  ℕ, ◌≡◌, ◌≢◌, refl, ◌∙◌, true, List, [], ◌∷◌, ◌++◌, append_assoc, arith, take, take-append-drop,
  low_bits,
}
use usbip_server.Device.Buffers.{
  DeviceState, endpoint_max_data_length, transmit_store, fetch_ep_data,
}

-- The host's transfers on an endpoint, each of a number of bytes: what they take together, and the
-- state that they leave.
unfoldable pub fetch_all : ℕ → List ℕ → DeviceState → List ℕ × DeviceState
unfolding fetch_ep_data
fetch_all ep [] s = ([], s)
fetch_all ep (n ∷ ns) s =
    let (bytes, s') = fetch_ep_data ep n s in
    let (rest, s'') = fetch_all ep ns s' in (bytes ++ rest, s'')

fetch_ep_data_lem :
    (ep n : ℕ) (s : DeviceState)
    → low_bits ep 4 ≢ 0
    → let (bytes, s') = fetch_ep_data ep n s in
      bytes ++ s'.endpoint_data (low_bits ep 4) ≡ s.endpoint_data (low_bits ep 4)
unfolding fetch_ep_data
fetch_ep_data_lem ep n s h = ground (arith, take-append-drop n (s.endpoint_data (low_bits ep 4)))

-- Transfers on an endpoint other than 0 take the endpoint's bytes in order: together with what is left
-- they are what was there, nothing is lost and nothing comes twice, however the host cuts them.
pub fetch_all_lem :
    (ep : ℕ) (ns : List ℕ) (s : DeviceState)
    → low_bits ep 4 ≢ 0
    → let (bytes, s') = fetch_all ep ns s in
      bytes ++ s'.endpoint_data (low_bits ep 4) ≡ s.endpoint_data (low_bits ep 4)
unfolding fetch_all
fetch_all_lem ep [] s h = refl
fetch_all_lem ep (n ∷ ns) s h =
    rw append_assoc
      (rw (fetch_all_lem ep ns (fetch_ep_data ep n s).1 h) (fetch_ep_data_lem ep n s h))

transmit_store_lem :
    (ep : ℕ) (bytes : List ℕ) (generation : ℕ) (s : DeviceState)
    → low_bits ep 4 ≢ 0
    → (transmit_store ep bytes generation s).0 ≡ true
    → let stored = (transmit_store ep bytes generation s).1 in
      (stored.endpoint_data (low_bits ep 4) ≡ take endpoint_max_data_length bytes)
      × (stored.event_pending ≡ true)
      × (s.endpoint_data (low_bits ep 4) ≡ [])
unfolding transmit_store
transmit_store_lem ep bytes generation s h e = ground arith

-- Data that a call of `usbip_device_transmit` stores on another endpoint than 0, whose buffer was empty,
-- is what the host's next transfers get together with what they leave, cut to 512 bytes, and the server
-- thread is woken.
pub transmit_store-fetch :
    (ep : ℕ) (bytes : List ℕ) (generation : ℕ) (s : DeviceState) (ns : List ℕ)
    → low_bits ep 4 ≢ 0
    → (transmit_store ep bytes generation s).0 ≡ true
    → let stored = (transmit_store ep bytes generation s).1 in
      let (sent, left) = fetch_all ep ns stored in
      (sent ++ left.endpoint_data (low_bits ep 4) ≡ take endpoint_max_data_length bytes)
      × (stored.event_pending ≡ true)
      × (s.endpoint_data (low_bits ep 4) ≡ [])
transmit_store-fetch ep bytes generation s ns h e =
    let (held, woken, free) = transmit_store_lem ep bytes generation s h e in
    (fetch_all_lem ep ns (transmit_store ep bytes generation s).1 h ∙ held, woken, free)
