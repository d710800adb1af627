-- ===== src/Bulk.antt =====
-- The bulk example device, src/usb_bulk: its descriptors and its callbacks.
pub mod Fixtures
mod Tests
mod Transfers
mod Sockets
pub mod Loop
use usbip_server.Prelude.{
  ℕ, ◌+◌, ◌%◌, ◌/◌, ◌≤◌, ◌≡◌, ◌⊎◌, Option, none, some, List, [], ◌∷◌, ◌++◌, arith, leb,
  if◌then◌else◌, length, length-append, if_split, leb→le,
}
use usbip_server.Device.Api.{Action, done, UsbString, UsbDevice}
use usbip_server.Protocol.Messages.{codes}

-- INPUT_BUFFER_LENGTH
abbrev pub input_buffer_length : ℕ
input_buffer_length = 512

-- The first `input_buffer_pos` bytes of `input_buffer`.
abbrev pub InputBuffer : Type 0
InputBuffer = List ℕ

-- `control_data`
unfoldable pub control_data : InputBuffer → List ℕ → List ℕ → Action InputBuffer
control_data input setup bytes = done input

-- What `endpoint_data` stores: a transfer that does not fit whole is dropped whole.
unfoldable pub store_input : InputBuffer → List ℕ → InputBuffer
store_input input bytes =
    if leb (length input + length bytes) input_buffer_length then input ++ bytes else input

-- `endpoint_data`
unfoldable pub endpoint_data : InputBuffer → ℕ → List ℕ → Action InputBuffer
unfolding store_input
endpoint_data input ep bytes = done (store_input input bytes)

-- `usb_device_descriptor`, `bulk_config_descriptor`, `langid_desc` and `usb_strings`
abbrev pub device_descriptor : List ℕ
device_descriptor =
    18 ∷ 1 ∷ 0 ∷ 2 ∷ 0 ∷ 0 ∷ 0 ∷ 64 ∷ 0x00 ∷ 0xfa ∷ 0x01 ∷ 0xc0 ∷ 0 ∷ 2 ∷ 1 ∷ 2 ∷ 4 ∷ 1 ∷ []

abbrev pub config_descriptor : List ℕ
config_descriptor =
    0x09 ∷ 2 ∷ 32 ∷ 0 ∷ 1 ∷ 1 ∷ 0 ∷ 0xc0 ∷ 0x32 ∷ 0x09 ∷ 4 ∷ 0 ∷ 0 ∷ 2 ∷ 0xff ∷ 0 ∷ 0 ∷ 0 ∷ 0x07 ∷ 5
    ∷ 0x01 ∷ 2 ∷ 0 ∷ 2 ∷ 0 ∷ 0x07 ∷ 5 ∷ 0x81 ∷ 2 ∷ 0 ∷ 2 ∷ 0 ∷ []

abbrev pub langid_descriptor : List ℕ
langid_descriptor = 4 ∷ 3 ∷ 0x09 ∷ 0x04 ∷ []

abbrev pub strings : List UsbString
strings =
    record { id = 1; string = codes "Virtual UsbIP" }
    ∷ record { id = 2; string = codes "Virtual Bulk Device" }
    ∷ record { id = 4; string = codes "ABC123" }
    ∷ record { id = 0; string = [] }
    ∷ []

-- `bulk_device`
abbrev pub bulk_device : UsbDevice InputBuffer
bulk_device = record {
  device_desc = device_descriptor;
  config_desc = config_descriptor;
  langid_desc = langid_descriptor;
  usb_strings = strings;
  control_data_callback = control_data;
  ep_data_callback = some endpoint_data;
  reset_callback = none;
  iso_in_callback = none;
}
