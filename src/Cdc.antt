-- ===== src/Cdc.antt =====
-- The serial port example device, src/usb_cdc: its descriptors and its callbacks.
pub mod Coding
pub mod Loop
mod Tests
use usbip_server.Prelude.{
  ℕ, ◌+◌, ◌*◌, ◌%◌, ◌^◌, Bool, true, false, not, some, none, List, [], ◌∷◌, ◌++◌, ◌==◌, leb,
  if◌then◌else◌, length, byte, le16, bit,
}
use usbip_server.Device.Api.{Action, done, UsbString, UsbDevice}
use usbip_server.Protocol.Messages.{codes}

-- INPUT_BUFFER_LENGTH
abbrev pub input_buffer_length : ℕ
input_buffer_length = 10

-- `cdc_state_t`, and the first `input_buffer_pos` bytes of `input_buffer`.
pub record CdcState : Type 0 where
  pub dtr : Bool
  pub rts : Bool
  pub baudrate : ℕ
  pub char_format : ℕ
  pub parity : ℕ
  pub data_bits : ℕ
  pub input_buffer : List ℕ

-- CDC_SET_LINE_CODING
unfoldable pub set_line_coding : List ℕ → CdcState → CdcState
set_line_coding bytes s =
    if length bytes == 7
    then record s {
      baudrate =
          (byte bytes 3 * 2 ^ 24 + byte bytes 2 * 2 ^ 16 + byte bytes 1 * 2 ^ 8 + byte bytes 0)
          % 2 ^ 32;
      char_format = byte bytes 4;
      parity = byte bytes 5;
      data_bits = byte bytes 6;
    }
    else s

-- `control_data`. CDC_SET_LINE_CODING is 0x20, CDC_SET_CONTROL_LINE_STATE is 0x22.
unfoldable pub control_data : CdcState → List ℕ → List ℕ → Action CdcState
unfolding set_line_coding
control_data s setup bytes =
    let value = le16 setup 2 in
    if byte setup 1 == 0x20
    then done (set_line_coding bytes s)
    else if byte setup 1 == 0x22
    then done (record s { dtr = not (bit value 0 == 0); rts = not (bit value 1 == 0) })
    else done s

-- `endpoint_data`
unfoldable pub endpoint_data : CdcState → ℕ → List ℕ → Action CdcState
endpoint_data s ep bytes = done (
    if leb (length s.input_buffer + length bytes) input_buffer_length
    then record s { input_buffer = s.input_buffer ++ bytes }
    else s)

-- `reset`
unfoldable pub reset : CdcState → Action CdcState
reset s = done (record s { dtr = false; rts = false; input_buffer = [] })

-- `usb_device_descriptor`, `cdc_config_descriptor`, `langid_desc` and `usb_strings`
abbrev pub device_descriptor : List ℕ
device_descriptor =
    0x12 ∷ 1 ∷ 0 ∷ 2 ∷ 0 ∷ 0 ∷ 0 ∷ 0x40 ∷ 0 ∷ 0xfa ∷ 1 ∷ 0 ∷ 0 ∷ 2 ∷ 1 ∷ 2 ∷ 4 ∷ 1 ∷ []

abbrev pub config_descriptor : List ℕ
config_descriptor =
    (9 ∷ 2 ∷ 0x43 ∷ 0 ∷ 2 ∷ 1 ∷ 4 ∷ 0xc0 ∷ 0x32 ∷ [])
    ++ (9 ∷ 4 ∷ 0 ∷ 0 ∷ 1 ∷ 2 ∷ 2 ∷ 1 ∷ 0 ∷ [])
    ++ (5 ∷ 0x24 ∷ 0 ∷ 0x10 ∷ 1 ∷ [])
    ++ (5 ∷ 0x24 ∷ 1 ∷ 0 ∷ 1 ∷ [])
    ++ (4 ∷ 0x24 ∷ 2 ∷ 2 ∷ [])
    ++ (5 ∷ 0x24 ∷ 6 ∷ 0 ∷ 1 ∷ [])
    ++ (7 ∷ 5 ∷ 0x82 ∷ 3 ∷ 8 ∷ 0 ∷ 8 ∷ [])
    ++ (9 ∷ 4 ∷ 1 ∷ 0 ∷ 2 ∷ 0xa ∷ 0 ∷ 0 ∷ 0 ∷ [])
    ++ (7 ∷ 5 ∷ 1 ∷ 2 ∷ 0 ∷ 2 ∷ 0 ∷ [])
    ++ (7 ∷ 5 ∷ 0x81 ∷ 2 ∷ 0 ∷ 2 ∷ 0 ∷ [])

abbrev pub langid_descriptor : List ℕ
langid_descriptor = 4 ∷ 3 ∷ 9 ∷ 4 ∷ []

abbrev pub strings : List UsbString
strings =
    record { id = 1; string = codes "Virtual UsbIP" }
    ∷ record { id = 2; string = codes "Virtual CDC Device" }
    ∷ record { id = 4; string = codes "ABC123" }
    ∷ record { id = 0; string = [] }
    ∷ []

-- `cdc_device`
abbrev pub cdc_device : UsbDevice CdcState
cdc_device = record {
  device_desc = device_descriptor;
  config_desc = config_descriptor;
  langid_desc = langid_descriptor;
  usb_strings = strings;
  control_data_callback = control_data;
  ep_data_callback = some endpoint_data;
  reset_callback = some reset;
  iso_in_callback = none;
}
