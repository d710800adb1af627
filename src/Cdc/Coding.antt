-- ===== src/Cdc/Coding.antt =====
-- The line coding that a host sets, `cdc_state_t` of src/usb_cdc/usb_cdc_device.c.
use usbip_server.Prelude.{
  ℕ, ◌+◌, ◌*◌, ◌/◌, ◌%◌, ◌^◌, ◌<◌, ◌≡◌, refl, ap, true, take, List, [], ◌∷◌, arith,
}
use usbip_server.Device.Control.{Gadget, control_callback, control}
use usbip_server.Cdc.{CdcState, control_data, cdc_device}

-- The seven bytes that a host sends: the rate, little endian, and a byte each.
abbrev pub coding_bytes : ℕ → ℕ → ℕ → ℕ → List ℕ
coding_bytes baudrate char_format parity data_bits =
    baudrate % 256
    ∷ baudrate / 2 ^ 8 % 256
    ∷ baudrate / 2 ^ 16 % 256
    ∷ baudrate / 2 ^ 24 % 256
    ∷ char_format
    ∷ parity
    ∷ data_bits
    ∷ []

abbrev pub set_line_coding_packet : List ℕ
set_line_coding_packet = 0x21 ∷ 0x20 ∷ 0 ∷ 0 ∷ 0 ∷ 0 ∷ 7 ∷ 0 ∷ []

-- A whole SET_LINE_CODING sets the rate and the format of a character to what the host sends, and leaves
-- the lines and the input as they are.
pub set_line_coding_lem :
    (baudrate char_format parity data_bits : ℕ) (g : Gadget CdcState)
    → baudrate < 2 ^ 32
    → let (supported, g') =
        control cdc_device set_line_coding_packet
          (coding_bytes baudrate char_format parity data_bits)
          7
          g in
      (supported ≡ true)
      × (g'.app ≡ record (g.app) {
        baudrate = baudrate;
        char_format = char_format;
        parity = parity;
        data_bits = data_bits;
      })
unfolding control control_callback control_data take
set_line_coding_lem baudrate char_format parity data_bits g h =
    let rate : (baudrate / 2 ^ 24 % 256 * 2 ^ 24
            + baudrate / 2 ^ 16 % 256 * 2 ^ 16
            + baudrate / 2 ^ 8 % 256 * 2 ^ 8
            + baudrate % 256)
          % 2 ^ 32
        ≡ baudrate =
      omega (arith, h) in
    (
      refl,
      ap
          (λ r. record (g.app) {
            baudrate = r;
            char_format = char_format;
            parity = parity;
            data_bits = data_bits;
          })
          rate,
    )
