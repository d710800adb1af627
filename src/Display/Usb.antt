-- ===== src/Display/Usb.antt =====
-- The descriptors of the GUD display, src/usb_gud_display/usb_gud_display_descriptors.h.
use usbip_server.Prelude.{ℕ, List, [], ◌∷◌, ◌++◌}
use usbip_server.Device.Api.{UsbString}
use usbip_server.Protocol.Messages.{codes}

-- `usb_device_descriptor`, `usb_gud_configuration`, `langid_desc` and `usb_strings`
abbrev pub device_descriptor : List ℕ
device_descriptor =
    0x12 ∷ 1 ∷ 0 ∷ 2 ∷ 0 ∷ 0 ∷ 0 ∷ 0x40 ∷ 0x50 ∷ 0x1d ∷ 0x4d ∷ 0x61 ∷ 0 ∷ 2 ∷ 1 ∷ 2 ∷ 4 ∷ 1 ∷ []

abbrev pub config_descriptor : List ℕ
config_descriptor =
    (9 ∷ 2 ∷ 0x19 ∷ 0 ∷ 1 ∷ 1 ∷ 0 ∷ 0xc0 ∷ 0x32 ∷ [])
    ++ (9 ∷ 4 ∷ 0 ∷ 0 ∷ 1 ∷ 0xff ∷ 0 ∷ 0 ∷ 0 ∷ [])
    ++ (7 ∷ 5 ∷ 1 ∷ 2 ∷ 0 ∷ 2 ∷ 0 ∷ [])

abbrev pub langid_descriptor : List ℕ
langid_descriptor = 4 ∷ 3 ∷ 9 ∷ 4 ∷ []

abbrev pub strings : List UsbString
strings =
    record { id = 1; string = codes "Virtual UsbIP" }
    ∷ record { id = 2; string = codes "Virtual GUD Display" }
    ∷ record { id = 4; string = codes "ABC123" }
    ∷ record { id = 0; string = [] }
    ∷ []
