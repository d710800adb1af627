-- ===== src/Display/Answers.antt =====
-- The vendor requests that read from the GUD display, and `control_data`, of
-- src/usb_gud_display/usb_gud_display_device.c. An answer is transmitted on endpoint 0.
use usbip_server.Prelude.{
  ℕ, ◌+◌, ◌-◌, ◌*◌, ◌/◌, ◌%◌, not, ◌&&◌, List, [], ◌∷◌, ◌++◌, leb, ◌==◌, if◌then◌else◌, byte, le16,
  u64_mod,
}
use usbip_server.Device.Api.{Action, done, transmit}
use usbip_server.Display.{
  Display, status_ok, status_request_not_supported, status_invalid_parameter,
  display_max_buffer_size, set_request,
}
use usbip_server.Display.Rectangle.{display_width, display_height}

-- A field of two or four bytes, low byte first.
abbrev le16_bytes : ℕ → List ℕ
le16_bytes n = n % 256 ∷ n / 256 % 256 ∷ []

abbrev le32_bytes : ℕ → List ℕ
le32_bytes n = le16_bytes n ++ le16_bytes (n / 65536)

-- `answer`
unfoldable pub answer : List ℕ → Display → Action Display
answer bytes s = transmit 0 bytes (λ stored. done (record s { last_status = status_ok }))

-- `gud_display_descriptor_req_t`: magic, version, flags, compression, buffer size, and the one size.
abbrev display_descriptor : List ℕ
display_descriptor =
    le32_bytes 0x1d50614d
    ++ 1 ∷ le32_bytes 1
    ++ 0 ∷ le32_bytes display_max_buffer_size
    ++ le32_bytes display_width
    ++ le32_bytes display_width
    ++ le32_bytes display_height
    ++ le32_bytes display_height

-- `gud_display_mode_req_t`: clock in kHz, no blanking, and the preferred mode.
abbrev display_mode : List ℕ
display_mode =
    le32_bytes (display_width * display_height * 60 / 1000)
    ++ le16_bytes display_width
    ++ le16_bytes display_width
    ++ le16_bytes display_width
    ++ le16_bytes display_width
    ++ le16_bytes display_height
    ++ le16_bytes display_height
    ++ le16_bytes display_height
    ++ le16_bytes display_height
    ++ le32_bytes 1024

-- CONNECTOR_CONNECT_DELAY_MS
abbrev connector_connect_delay_ms : ℕ
connector_connect_delay_ms = 5000

-- The requests for a connector, the second switch of `get_request`.
unfoldable pub connector_request : ℕ → ℕ → ℕ → Display → Action Display
unfolding answer
connector_request now b_request w_value s =
    if not (w_value == 0)
    then done (record s { last_status = status_invalid_parameter })
    else if b_request == 0x51
    then answer [] s
    else if b_request == 0x54
    then answer
        ((if leb connector_connect_delay_ms ((u64_mod + now - s.attached_ms) % u64_mod)
            then 1
            else 0)
          ∷ [])
        s
    else if b_request == 0x55
    then answer display_mode s
    else done (record s { last_status = status_request_not_supported })

-- `get_request`. `now` is what `now_ms` returns.
unfoldable pub get_request : ℕ → ℕ → ℕ → Display → Action Display
unfolding answer connector_request
get_request now b_request w_value s =
    if b_request == 0x00
    then transmit 0 (s.last_status ∷ []) (λ stored. done s)
    else if b_request == 0x01
    then answer display_descriptor s
    else if b_request == 0x40
    then answer (0x40 ∷ []) s
    else if b_request == 0x41
    then answer (le16_bytes 50 ++ 1 ∷ 0 ∷ 0 ∷ 0 ∷ 0 ∷ 0 ∷ 0 ∷ 0 ∷ []) s
    else if b_request == 0x50
    then answer (0 ∷ le32_bytes 1) s
    else connector_request now b_request w_value s

-- `control_data`
unfoldable pub control_data : ℕ → Display → List ℕ → List ℕ → Action Display
unfolding get_request set_request
control_data now s setup bytes =
    if not (byte setup 0 == 0xc1) && not (byte setup 0 == 0x41)
    then done s
    else if not (le16 setup 4 == 0)
    then done (record s { last_status = status_invalid_parameter })
    else if byte setup 0 == 0xc1
    then get_request now (byte setup 1) (le16 setup 2) s
    else done (set_request (byte setup 1) bytes s)
