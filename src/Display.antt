-- ===== src/Display.antt =====
-- The GUD display example, src/usb_gud_display/usb_gud_display_device.c: its state, and the requests and
-- pixel data that change it. Multi-byte fields are little endian. Requests that read are in
-- `Display.Answers`.
pub mod Rectangle
pub mod Answers
pub mod Sound
pub mod Usb
pub mod Pixels
pub mod Pieces
pub mod Loop
pub mod Window
mod Tests
use usbip_server.Prelude.{
  ℕ, zero, suc, ◌+◌, ◌-◌, ◌*◌, ◌/◌, ◌%◌, Bool, true, false, not, ◌&&◌, ◌||◌, List, ltb, leb, ◌==◌,
  if◌then◌else◌, length, take, drop, replicate, write_at, u32_mod, byte, le16,
}
use usbip_server.Display.Rectangle.{
  SetBufferReq, read_set_buffer_req, display_width, display_height, line_length, store_rectangle,
}

-- GUD_STATUS_OK, GUD_STATUS_REQUEST_NOT_SUPPORTED, GUD_STATUS_PROTOCOL_ERROR, GUD_STATUS_INVALID_PARAMETER
abbrev pub status_ok : ℕ
status_ok = 0

abbrev pub status_request_not_supported : ℕ
status_request_not_supported = 2

abbrev pub status_protocol_error : ℕ
status_protocol_error = 3

abbrev pub status_invalid_parameter : ℕ
status_invalid_parameter = 4

-- DISPLAY_MAX_BUFFER_SIZE
abbrev pub display_max_buffer_size : ℕ
display_max_buffer_size = 65536

-- `gud_state_req_t`; `mode` is the 24 bytes of a `gud_display_mode_req_t`.
pub record StateReq : Type 0 where
  pub mode : List ℕ
  pub format : ℕ
  pub connector : ℕ

abbrev pub read_state_req : List ℕ → StateReq
read_state_req d = record { mode = take 24 d; format = byte d 24; connector = byte d 25 }

-- `pending_buffer_t`
pub record PendingBuffer : Type 0 where
  pub active : Bool
  pub req : SetBufferReq
  pub transfer_length : ℕ
  pub received : ℕ

-- The file's static variables.
pub record Display : Type 0 where
  pub last_status : ℕ
  pub attached_ms : ℕ
  pub state_checked : Bool
  pub checked_state : StateReq
  pub current_format : ℕ
  pub controller_enabled : Bool
  pub display_enabled : Bool
  pub pending : PendingBuffer
  pub transfer_buffer : List ℕ
  pub framebuffer : List ℕ
  pub framebuffer_changed : Bool
  pub stats_updates : ℕ
  pub stats_bytes : ℕ
  pub stats_errors : ℕ
  pub stats_last_rect : SetBufferReq

-- `is_offered_format`: GUD_PIXEL_FORMAT_RGB565 is the only one in `display_formats`.
abbrev pub is_offered_format : ℕ → Bool
is_offered_format format = format == 0x40

-- `inside`, and the tests after it, of `set_buffer`.
unfoldable pub is_inside : SetBufferReq → Bool
is_inside req =
    ltb 0 req.width
    && ltb 0 req.height
    && ltb req.x display_width
    && ltb req.y display_height
    && leb req.width (display_width - req.x)
    && leb req.height (display_height - req.y)

-- What `transfer_length` becomes.
abbrev pub transfer_size : SetBufferReq → ℕ
transfer_size req = if req.compression == 0 then req.length else req.compressed_length

-- `compression & ~DISPLAY_COMPRESSION`: DISPLAY_COMPRESSION is 0.
abbrev pub not_announced : ℕ → ℕ
not_announced compression = compression

unfoldable pub is_acceptable : ℕ → SetBufferReq → Bool
unfolding is_inside line_length
is_acceptable format req =
    is_inside req
    && not (format == 0)
    && req.length == line_length format req.width * req.height % u32_mod
    && (req.compression == 0 || not_announced req.compression == 0)
    && not (transfer_size req == 0)
    && leb (transfer_size req) display_max_buffer_size

-- `set_buffer`: the status, and the state.
unfoldable pub set_buffer : List ℕ → Display → ℕ × Display
unfolding read_set_buffer_req is_acceptable
set_buffer bytes s =
    let req = read_set_buffer_req bytes in
    if not (length bytes == 25)
    then (status_protocol_error, s)
    else if is_acceptable s.current_format req
    then (
      status_ok,
      record s {
        pending = record {
          active = true;
          req = req;
          transfer_length = transfer_size req;
          received = 0;
        };
      },
    )
    else (status_invalid_parameter, s)

-- The loop over the properties of a state: a rotation other than 0 is refused. GUD_PROPERTY_ROTATION is
-- 50, and GUD_ROTATION_0 is 1 in eight bytes.
unfoldable pub properties_valid : ℕ → List ℕ → Bool
properties_valid zero bytes = true
properties_valid (suc n) bytes =
    let rest = properties_valid n (drop 10 bytes) in
    not (
      le16 bytes 0 == 50
      && not (
          byte bytes 2 == 1
          && le16 bytes 3 == 0
          && le16 bytes 5 == 0
          && le16 bytes 7 == 0
          && byte bytes 9 == 0))
    && rest

-- The tests of `set_state_check` on the state and its properties.
unfoldable pub is_valid_state : List ℕ → Bool
unfolding properties_valid
is_valid_state bytes =
    le16 bytes 4 == display_width
    && le16 bytes 12 == display_height
    && is_offered_format (read_state_req bytes).format
    && (read_state_req bytes).connector == 0
    && properties_valid ((length bytes - 26) / 10) (drop 26 bytes)

-- `set_state_check`
unfoldable pub set_state_check : List ℕ → Display → ℕ × Display
unfolding is_valid_state
set_state_check bytes s =
    if ltb (length bytes) 26 || not ((length bytes - 26) % 10 == 0)
    then (status_protocol_error, s)
    else if is_valid_state bytes
    then (status_ok, record s { checked_state = read_state_req bytes; state_checked = true })
    else (status_invalid_parameter, s)

-- `set_state_commit`
unfoldable pub set_state_commit : Display → ℕ × Display
set_state_commit s =
    if not s.state_checked
    then (status_protocol_error, s)
    else (status_ok, record s { current_format = s.checked_state.format; state_checked = false })

-- `set_enable`: the status, and the flag.
unfoldable pub set_enable : List ℕ → Bool → ℕ × Bool
set_enable bytes enabled =
    if not (length bytes == 1)
    then (status_protocol_error, enabled)
    else (status_ok, not (byte bytes 0 == 0))

abbrev with_status : ℕ × Display → Display
with_status (status, s) = record s { last_status = status }

-- `set_request`
unfoldable pub set_request : ℕ → List ℕ → Display → Display
unfolding set_buffer set_state_check set_state_commit set_enable
set_request b_request bytes s =
    if b_request == 0x53
    then record s { last_status = status_ok }
    else if b_request == 0x60
    then with_status (set_buffer bytes s)
    else if b_request == 0x61
    then with_status (set_state_check bytes s)
    else if b_request == 0x62
    then with_status (set_state_commit s)
    else if b_request == 0x63
    then (let (status, enabled) = set_enable bytes s.controller_enabled in
        record s { last_status = status; controller_enabled = enabled })
    else if b_request == 0x64
    then (let (status, enabled) = set_enable bytes s.display_enabled in
        record s { last_status = status; display_enabled = enabled })
    else record s { last_status = status_request_not_supported }

-- A transfer that is complete: decompression is not implemented, other pixels are shown.
unfoldable pub finish_transfer : Display → Display
unfolding store_rectangle
finish_transfer s =
    if not (s.pending.req.compression == 0)
    then record s { stats_errors = (s.stats_errors + 1) % u32_mod }
    else (let (stored, framebuffer') =
          store_rectangle s.current_format s.pending.req s.transfer_buffer s.framebuffer in
        record s {
          framebuffer = framebuffer';
          framebuffer_changed = stored || s.framebuffer_changed;
          stats_updates = (s.stats_updates + 1) % u32_mod;
          stats_bytes = (s.stats_bytes + s.pending.transfer_length) % u32_mod;
          stats_last_rect = s.pending.req;
        })

-- Data that is expected, behind what was received; the last of it finishes the transfer.
unfoldable pub store_data : List ℕ → Display → Display
unfolding finish_transfer
store_data bytes s =
    let p = s.pending in
    let received' = (p.received + length bytes) % u32_mod in
    let buffer = write_at p.received bytes s.transfer_buffer in
    if ltb received' p.transfer_length
    then record s { transfer_buffer = buffer; pending = record p { received = received' } }
    else finish_transfer (record s {
      transfer_buffer = buffer;
      pending = record p { active = false; received = received' };
    })

-- The test of `endpoint_data`: pixel data without a matching SET_BUFFER.
abbrev pub is_unexpected : List ℕ → PendingBuffer → Bool
is_unexpected bytes p =
    not p.active || ltb ((u32_mod + p.transfer_length - p.received) % u32_mod) (length bytes)

-- `endpoint_data`
unfoldable pub endpoint_data : List ℕ → Display → Display
unfolding store_data
endpoint_data bytes s =
    if is_unexpected bytes s.pending
    then record s {
      stats_errors = (s.stats_errors + 1) % u32_mod;
      pending = record (s.pending) { active = false };
    }
    else store_data bytes s

-- `reset`. `now` is what `now_ms` returns.
unfoldable pub reset : ℕ → Display → Display
reset now s = record s {
  attached_ms = now;
  last_status = status_ok;
  state_checked = false;
  current_format = 0;
  controller_enabled = false;
  display_enabled = false;
  pending = record (s.pending) { active = false };
  framebuffer = replicate (display_width * display_height * 4) 0;
  framebuffer_changed = true;
}
