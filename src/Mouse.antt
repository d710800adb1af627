-- ===== src/Mouse.antt =====
-- The mouse example device, src/usb_mouse: its descriptors and its control requests. It keeps no state.
pub mod Circle
mod Tests
use usbip_server.Prelude.{
  ℕ, ◌&&◌, none, List, [], ◌∷◌, ◌++◌, ◌==◌, if◌then◌else◌, min, take, length, byte, le16,
}
use usbip_server.Device.Api.{Action, done, transmit, UsbString, UsbDevice}
use usbip_server.Protocol.Messages.{codes}

abbrev pub MouseState : Type 0
MouseState = Unit

-- `usb_mouse_device`, `usb_mouse_configuration`, `langid_desc` and `usb_strings`
abbrev pub device_descriptor : List ℕ
device_descriptor =
    0x12 ∷ 1 ∷ 0 ∷ 2 ∷ 0 ∷ 0 ∷ 0 ∷ 0x40 ∷ 0 ∷ 0xfa ∷ 2 ∷ 0 ∷ 0 ∷ 2 ∷ 1 ∷ 2 ∷ 4 ∷ 1 ∷ []

abbrev pub config_descriptor : List ℕ
config_descriptor =
    (9 ∷ 2 ∷ 0x22 ∷ 0 ∷ 1 ∷ 1 ∷ 0 ∷ 0xc0 ∷ 0x32 ∷ [])
    ++ (9 ∷ 4 ∷ 0 ∷ 0 ∷ 1 ∷ 3 ∷ 1 ∷ 2 ∷ 0 ∷ [])
    ++ (9 ∷ 0x21 ∷ 0x11 ∷ 1 ∷ 0 ∷ 1 ∷ 0x22 ∷ 0x32 ∷ 0 ∷ [])
    ++ (7 ∷ 5 ∷ 0x81 ∷ 3 ∷ 4 ∷ 0 ∷ 8 ∷ [])

abbrev pub langid_descriptor : List ℕ
langid_descriptor = 4 ∷ 3 ∷ 9 ∷ 4 ∷ []

abbrev pub strings : List UsbString
strings =
    record { id = 1; string = codes "Virtual UsbIP" }
    ∷ record { id = 2; string = codes "Virtual HID Mouse" }
    ∷ record { id = 4; string = codes "ABC123" }
    ∷ record { id = 0; string = [] }
    ∷ []

-- `usb_mouse_hid_report`
abbrev pub hid_report : List ℕ
hid_report =
    5 ∷ 1 ∷ 9 ∷ 2 ∷ 0xa1 ∷ 1 ∷ 9 ∷ 1 ∷ 0xa1 ∷ 0 ∷ 5 ∷ 9 ∷ 0x19 ∷ 1 ∷ 0x29 ∷ 3 ∷ 0x15 ∷ 0 ∷ 0x25 ∷ 1
    ∷ 0x75 ∷ 1 ∷ 0x95 ∷ 3 ∷ 0x81 ∷ 2 ∷ 0x95 ∷ 1 ∷ 0x75 ∷ 5 ∷ 0x81 ∷ 1 ∷ 5 ∷ 1 ∷ 9 ∷ 0x30 ∷ 9 ∷ 0x31
    ∷ 0x15 ∷ 0x81 ∷ 0x25 ∷ 0x7f ∷ 0x75 ∷ 8 ∷ 0x95 ∷ 3 ∷ 0x81 ∷ 6 ∷ 0xc0 ∷ 0xc0 ∷ []

-- `control_data`. USB_REQUEST_GET_DESCRIPTOR is 6 and USB_DESCRIPTOR_TYPE_REPORT is 0x22.
unfoldable pub control_data : MouseState → List ℕ → List ℕ → Action MouseState
control_data s setup bytes =
    if byte setup 0 == 0x81 && byte setup 1 == 6
    then (if byte setup 3 == 0x22
        then transmit 0 (take (min (le16 setup 6) (length hid_report)) hid_report) (λ sent. done s)
        else done s)
    else done s

-- `mouse_device`
abbrev pub mouse_device : UsbDevice MouseState
mouse_device = record {
  device_desc = device_descriptor;
  config_desc = config_descriptor;
  langid_desc = langid_descriptor;
  usb_strings = strings;
  control_data_callback = control_data;
  ep_data_callback = none;
  reset_callback = none;
  iso_in_callback = none;
}
