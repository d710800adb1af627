-- ===== src/Display/Rectangle.antt =====
-- Rectangles of the GUD display, src/usb_gud_display/usb_gud_display_device.c, in the frame buffer.
pub mod Bounds
pub mod Shown
use usbip_server.Prelude.{
  ℕ, zero, suc, ◌+◌, ◌*◌, ◌/◌, ◌%◌, Bool, true, false, not, List, ◌==◌, if◌then◌else◌, take, drop,
  write_at, u32_mod, byte, le16,
}

-- DISPLAY_WIDTH, DISPLAY_HEIGHT
abbrev pub display_width : ℕ
display_width = 320

abbrev pub display_height : ℕ
display_height = 240

-- `gud_set_buffer_req_t`
pub record SetBufferReq : Type 0 where
  pub x : ℕ
  pub y : ℕ
  pub width : ℕ
  pub height : ℕ
  pub length : ℕ
  pub compression : ℕ
  pub compressed_length : ℕ

abbrev pub le32 : List ℕ → ℕ → ℕ
le32 d i = le16 d (i + 2) * 65536 + le16 d i

unfoldable pub read_set_buffer_req : List ℕ → SetBufferReq
read_set_buffer_req d = record {
  x = le32 d 0;
  y = le32 d 4;
  width = le32 d 8;
  height = le32 d 12;
  length = le32 d 16;
  compression = byte d 20;
  compressed_length = le32 d 21;
}

-- `format_bits_per_pixel`
unfoldable pub format_bits_per_pixel : ℕ → ℕ
format_bits_per_pixel format =
    if format == 0x01
    then 1
    else if format == 0x20
    then 4
    else if format == 0x08
    then 8
    else if format == 0x30
    then 8
    else if format == 0x40
    then 16
    else if format == 0x50
    then 24
    else if format == 0x80
    then 32
    else if format == 0x81
    then 32
    else 0

-- `line_length`
unfoldable pub line_length : ℕ → ℕ → ℕ
unfolding format_bits_per_pixel
line_length format width = (width * format_bits_per_pixel format + 7) % u32_mod / 8

-- One line of pixels, to its place.
unfoldable pub store_line : ℕ → SetBufferReq → List ℕ → ℕ → List ℕ → List ℕ
store_line bytes_per_pixel rect pixels line framebuffer =
    let pitch = display_width * bytes_per_pixel in
    let rect_pitch = rect.width * bytes_per_pixel % u32_mod in
    write_at (((rect.y + line) * pitch + rect.x * bytes_per_pixel) % u32_mod)
      (take rect_pitch (drop (line * rect_pitch % u32_mod) pixels)) framebuffer

-- The loop over the lines: `n` of them, from `line`.
unfoldable pub store_lines : ℕ → SetBufferReq → List ℕ → ℕ → ℕ → List ℕ → List ℕ
unfolding store_line
store_lines bytes_per_pixel rect pixels zero line framebuffer = framebuffer
store_lines bytes_per_pixel rect pixels (suc n) line framebuffer =
    store_lines bytes_per_pixel rect pixels n (line + 1)
      (store_line bytes_per_pixel rect pixels line framebuffer)

-- `store_rectangle`: whether the frame buffer changed, and the frame buffer.
unfoldable pub store_rectangle : ℕ → SetBufferReq → List ℕ → List ℕ → Bool × List ℕ
unfolding format_bits_per_pixel store_lines
store_rectangle current_format rect pixels framebuffer =
    let bits = format_bits_per_pixel current_format in
    if not (bits % 8 == 0)
    then (false, framebuffer)
    else (true, store_lines (bits / 8) rect pixels rect.height 0 framebuffer)
