-- ===== src/Device/Control/Requests.antt =====
-- Standard requests of src/lib/usbip_device.c, from the setup packet to the reply that the host gets.
use usbip_server.Prelude.{
  ◌+◌, ℕ, ◌*◌, ◌/◌, ◌%◌, ◌≤◌, ◌<◌, ◌≡◌, refl, ap, ◌∙◌, true, false, List, [], ◌∷◌, arith, length,
  take, length-take, take_all, byte, le16,
}
use usbip_server.Device.Api.{UsbDevice}
use usbip_server.Device.Buffers.{
  DeviceState, endpoint_max_data_length, transmit_store, transmit_now, fetch_control_reply,
  begin_request,
}
use usbip_server.Device.Control.{
  Gadget, reply_length, widen_chars, string_descriptor, control_callback, control,
}
use usbip_server.Device.Control.Preserve.{KeptByTransmit, run-keeps}

-- A setup packet with wIndex 0: bmRequestType, bRequest, the two bytes of wValue, and wLength.
abbrev pub setup_packet : ℕ → ℕ → ℕ → ℕ → ℕ → List ℕ
setup_packet bm b lo hi len = bm ∷ b ∷ lo ∷ hi ∷ 0 ∷ 0 ∷ len % 256 ∷ len / 256 ∷ []

length-widen_chars : (cs : List ℕ) → length (widen_chars cs) ≡ 2 * length cs
length-widen_chars [] = refl
length-widen_chars (c ∷ cs) = omega (arith, length-widen_chars cs)

-- A string descriptor says its own length, which fits a byte: two bytes of header and two for each of
-- the first 126 characters. Its second byte is the descriptor type.
pub length-string_descriptor :
    (text : List ℕ)
    → (length (string_descriptor text) ≡ byte (string_descriptor text) 0)
      × (length (string_descriptor text) ≡ 2 + 2 * length (take 126 text))
      × (byte (string_descriptor text) 0 ≤ 254)
      × (byte (string_descriptor text) 1 ≡ 3)
unfolding string_descriptor
length-string_descriptor text = (
  omega (arith, length-widen_chars (take 126 text)),
  omega (arith, length-widen_chars (take 126 text)),
  omega (arith, length-take 126 text),
  refl,
)

-- A reply to the current request is what the host gets, cut to 512 bytes and to wLength.
pub reply-fetch :
    (m : ℕ) (bytes : List ℕ) (d : DeviceState)
    → d.device_stopped ≡ false
    → let d' = (transmit_now 0 bytes d).1 in
      ((fetch_control_reply m d').0 ≡ true)
      × ((fetch_control_reply m d').1 ≡ take m (take endpoint_max_data_length bytes))
unfolding transmit_now transmit_store fetch_control_reply
reply-fetch m bytes d h = ground arith

module _ {A : Type 0} (usb : UsbDevice A) where
  -- The device accepts data and is at configuration `v`.
  abbrev Configured : ℕ → DeviceState → Type 0
  Configured v d = (d.device_stopped ≡ false) × (d.configuration_value ≡ v)

  Configured-kept : (v : ℕ) → KeptByTransmit (Configured v)
  unfolding transmit_now transmit_store
  Configured-kept v ep bytes d h = ground arith

  -- SET_CONFIGURATION is supported, and whatever the device's callback does then, GET_CONFIGURATION for
  -- at least one byte answers with the configuration that was set, while the device is not stopped.
  pub get_set_configuration :
      (v n m : ℕ) (buffer buffer' : List ℕ) (g : Gadget A)
      → g.dev.device_stopped ≡ false
      → 0 < m
      → let (supported, g') = control usb (setup_packet 0 9 v 0 0) buffer n g in
        let (supported', g'') = control usb (setup_packet 0x80 8 0 0 m) buffer' m g' in
        let (answered, bytes, d) = fetch_control_reply m g''.dev in
        (supported ≡ true) × (supported' ≡ true) × (answered ≡ true) × (bytes ≡ v ∷ [])
  unfolding control begin_request take
  get_set_configuration v n m buffer buffer' g run_ pos =
      let (answered, bytes) =
        reply-fetch m (take 1 (d.configuration_value ∷ [])) (begin_request d) kept.0 in
      (refl, refl, answered, bytes ∙ cut)
    where
      d : DeviceState
      d =
          (control_callback usb (setup_packet 0 9 v 0 0) buffer n
            (record g { dev = record (begin_request g.dev) { configuration_value = v } })).dev

      kept : Configured v d
      kept =
          run-keeps (Configured v) (Configured-kept v)
            (usb.control_data_callback g.app (setup_packet 0 9 v 0 0) (take n buffer))
            (record (begin_request g.dev) { configuration_value = v }) (run_, refl)

      cut : take m (take endpoint_max_data_length (take 1 (d.configuration_value ∷ []))) ≡ v ∷ []
      cut = take_all m (d.configuration_value ∷ []) pos ∙ ap (λ x. x ∷ []) kept.1

  -- GET_DESCRIPTOR of a configuration of at most 512 bytes answers with its first wLength bytes, or with
  -- all of it if the host asks for more, while the device is not stopped.
  pub get_configuration_descriptor :
      (index n : ℕ) (buffer : List ℕ) (g : Gadget A)
      → g.dev.device_stopped ≡ false
      → le16 usb.config_desc 2 ≤ endpoint_max_data_length
      → let (supported, g') = control usb (setup_packet 0x80 6 index 2 n) buffer n g in
        let (answered, bytes, d) = fetch_control_reply n g'.dev in
        (supported ≡ true)
        × (answered ≡ true)
        × (bytes ≡ take (reply_length n (le16 usb.config_desc 2)) usb.config_desc)
  unfolding control begin_request
  get_configuration_descriptor index n buffer g run_ fits =
      let total = le16 usb.config_desc 2 in
      let sent = take (reply_length n total) usb.config_desc in
      let (answered, bytes) = reply-fetch n sent (begin_request g.dev) run_ in
      let asked : length sent ≤ n =
        ground (arith, length-take (reply_length n total) usb.config_desc) in
      let held : length sent ≤ endpoint_max_data_length =
        ground (arith, length-take (reply_length n total) usb.config_desc) in
      (
        refl,
        answered,
        bytes ∙ rw (take_all endpoint_max_data_length sent held, take_all n sent asked) refl,
      )
