-- ===== src/Device/Control.antt =====
-- Control requests of src/lib/usbip_device.c, on the server thread, and the calls of the device's other
-- callbacks.
pub mod Preserve
pub mod Requests
use usbip_server.Prelude.{
  ℕ, ◌+◌, ◌*◌, ◌/◌, ◌%◌, ◌^◌, Bool, true, false, ◌&&◌, Option, none, some, List, [], ◌∷◌, ltb, leb,
  ◌==◌, if◌then◌else◌, length, take, low_bits, bit, byte, le16,
}
use usbip_server.Device.Api.{Action, UsbDevice, UsbString}
use usbip_server.Device.Buffers.{
  DeviceState, endpoint_max_data_length, reset_buffers, transmit_now, begin_request, run,
}
use usbip_server.Device.OtherSpeed.{build_other_speed_config}

-- The device's own state beside the server's state of it.
pub record Gadget (A : Type 0) : Type 0 where
  pub app : A
  pub dev : DeviceState

-- The fields of a setup packet that the requests read.
abbrev pub bm_request_type : List ℕ → ℕ
bm_request_type setup = byte setup 0

abbrev pub b_request : List ℕ → ℕ
b_request setup = byte setup 1

-- `(req_size < desc_length) ? req_size : desc_length`
abbrev pub reply_length : ℕ → ℕ → ℕ
reply_length req_size desc_length = if ltb req_size desc_length then req_size else desc_length

-- The text of a string index; the array ends at an entry with id 0.
unfoldable pub get_string : List UsbString → ℕ → Option (List ℕ)
get_string [] index = none
get_string (s ∷ rest) index =
    if s.id == index then some s.string else if s.id == 0 then none else get_string rest index

-- The characters of a string descriptor, two bytes each.
abbrev pub widen_chars : List ℕ → List ℕ
widen_chars [] = []
widen_chars (c ∷ cs) = (c % 256) ∷ 0 ∷ widen_chars cs

-- `string_buffer`, for a text that is cut to 126 characters.
unfoldable pub string_descriptor : List ℕ → List ℕ
string_descriptor string =
    let text = take 126 string in (2 * length text + 2) ∷ 3 ∷ widen_chars text

-- `qualifier_desc`
unfoldable pub qualifier_descriptor : List ℕ → List ℕ
qualifier_descriptor d =
    10 ∷ 6 ∷ byte d 2 ∷ byte d 3 ∷ byte d 4 ∷ byte d 5 ∷ byte d 6 ∷ byte d 7 ∷ byte d 17 ∷ 0 ∷ []

module _ {A : Type 0} where
  -- A callback on the server thread: what it transmits goes to the buffers, and it leaves `app`.
  unfoldable pub run_callback : Action A → Gadget A → Gadget A
  unfolding run
  run_callback act g = let (a, d) = run act g.dev in record { app = a; dev = d }

  -- `usbip_device_transmit(0, bytes, tx_length)`
  unfoldable pub reply : ℕ → List ℕ → Gadget A → Gadget A
  unfolding transmit_now
  reply tx_length bytes g = record g { dev = (transmit_now 0 (take tx_length bytes) g.dev).1 }

module _ {A : Type 0} (usb : UsbDevice A) where
  -- `control_callback`
  unfoldable pub control_callback : List ℕ → List ℕ → ℕ → Gadget A → Gadget A
  unfolding run_callback
  control_callback setup buffer len g =
      run_callback (usb.control_data_callback g.app setup (take len buffer)) g

  -- USB_REQUEST_GET_DESCRIPTOR, string descriptors
  unfoldable pub string_request : ℕ → ℕ → Gadget A → Gadget A
  unfolding get_string string_descriptor reply
  string_request index req_size g =
      if index == 0
      then reply (reply_length req_size (byte usb.langid_desc 0)) usb.langid_desc g
      else elim (get_string usb.usb_strings index) [
        | none ↦ g
        | some string ↦
            let buf = string_descriptor string in reply (reply_length req_size (byte buf 0)) buf g
      ]

  -- USB_REQUEST_GET_DESCRIPTOR, by bDescriptorType
  unfoldable pub descriptor_request : List ℕ → ℕ → Gadget A → Gadget A
  unfolding string_request qualifier_descriptor build_other_speed_config reply
  descriptor_request setup req_size g =
      if byte setup 3 == 1
      then reply (reply_length req_size (byte usb.device_desc 0)) usb.device_desc g
      else if byte setup 3 == 2
      then reply (reply_length req_size (le16 usb.config_desc 2)) usb.config_desc g
      else if byte setup 3 == 6 && leb 2 (byte usb.device_desc 3)
      then reply (reply_length req_size 10) (qualifier_descriptor usb.device_desc) g
      else if byte setup 3 == 7 && leb 2 (byte usb.device_desc 3)
      then (let desc = build_other_speed_config usb.config_desc endpoint_max_data_length in
          reply (reply_length req_size (length desc)) desc g)
      else if byte setup 3 == 3
      then string_request (byte setup 2) req_size g
      else g

  -- `device_request`: a standard request to the device. Bit 7 of bmRequestType is the direction, IN if
  -- set. An IN request that is not supported gets no answer, and is stalled for that.
  unfoldable pub device_request : List ℕ → List ℕ → ℕ → Gadget A → Bool × Gadget A
  unfolding descriptor_request control_callback reply
  device_request setup buffer req_size g =
      if bit (bm_request_type setup) 7 == 1
      then (
        true,
        if b_request setup == 0
            then reply 2 (bit (byte usb.config_desc 7) 6 ∷ 0 ∷ []) g
            else if b_request setup == 6
            then descriptor_request setup req_size g
            else if b_request setup == 8
            then reply 1 (g.dev.configuration_value ∷ []) g
            else g,
      )
      else if b_request setup == 9
      then (
        true,
        control_callback setup buffer req_size
            (record g { dev = record (g.dev) { configuration_value = byte setup 2 } }),
      )
      else (false, g)

  -- `endpoint_request`
  unfoldable pub endpoint_request : List ℕ → Gadget A → Bool × Gadget A
  unfolding reply
  endpoint_request setup g =
      if b_request setup == 0
      then (true, reply 2 (0 ∷ 0 ∷ []) g)
      else if b_request setup == 1
      then (true, g)
      else if b_request setup == 3
      then (true, g)
      else (false, g)

  -- `usbip_device_control`. bfType 0 is standard; bfRecipient is 0 for the device, 1 for an interface
  -- and 2 for an endpoint.
  unfoldable pub control : List ℕ → List ℕ → ℕ → Gadget A → Bool × Gadget A
  unfolding begin_request control_callback device_request endpoint_request
  control setup buffer len g =
      let g' = let s = begin_request g.dev in record g { dev = s } in
      let recipient = low_bits (bm_request_type setup) 5 in
      if low_bits (bm_request_type setup / 2 ^ 5) 2 == 0
      then (if recipient == 0
          then device_request setup buffer len g'
          else if recipient == 1
          then (true, control_callback setup buffer len g')
          else if recipient == 2
          then endpoint_request setup g'
          else (false, g'))
      else (true, control_callback setup buffer len g')

  -- `usbip_device_reset`
  unfoldable pub reset : Gadget A → Gadget A
  unfolding reset_buffers run_callback
  reset g =
      let g' = let s = reset_buffers g.dev in record g { dev = s } in
      elim (usb.reset_callback) [ none ↦ g' | some callback ↦ run_callback (callback g'.app) g' ]

  -- `usbip_device_receive`, where the caller has checked that the callback is set.
  unfoldable pub receive : ℕ → List ℕ → Gadget A → Gadget A
  unfolding run_callback
  receive ep bytes g = elim (usb.ep_data_callback) [
    | none ↦ g
    | some callback ↦ run_callback (callback g.app (ep % 256) bytes) g
  ]

  -- `usbip_device_iso_in`: the bytes of one service interval, at most `max_length`.
  unfoldable pub iso_in : ℕ → ℕ → Gadget A → List ℕ × Gadget A
  unfolding run
  iso_in ep max_length g = elim (usb.iso_in_callback) [
    | none ↦ ([], g)
    | some callback ↦
        let ((a, bytes), d) = run (callback g.app (ep % 256) max_length) g.dev in
        (take max_length bytes, record { app = a; dev = d })
  ]
