-- ===== src/Display/Sound.antt =====
-- The invariant of the GUD display, src/usb_gud_display/usb_gud_display_device.c, and the requests
-- that set its state.
pub mod Data
pub mod Calls
use native.Mathlib.Nat.{mul-le-mul, mul_comm}
use usbip_server.Prelude.{
  ℕ, zero, suc, ◌+◌, ◌*◌, ◌-◌, ◌/◌, ◌%◌, ◌⊎◌, inl, inr, ◌≤◌, ◌<◌, ◌≡◌, ◌≢◌, refl, sym, ap, ◌∙◌,
  u32_mod, ◌==◌, Bool, true, false, not, ◌&&◌, ◌||◌, List, arith, ltb, leb, if◌then◌else◌, if_split,
  if_elim, length, byte, length-write_at, write_at, ltb→lt, ltb→ge, length-replicate,
}
use usbip_server.Display.{
  Display, PendingBuffer, is_inside, display_max_buffer_size, transfer_size, is_acceptable,
  set_buffer, set_state_check, is_valid_state, read_state_req, set_state_commit, set_enable,
  set_request, finish_transfer, is_unexpected, store_data, endpoint_data, reset,
}
use usbip_server.Display.Rectangle.{
  SetBufferReq, line_length, format_bits_per_pixel, store_rectangle, read_set_buffer_req,
}
use usbip_server.Display.Rectangle.Bounds.{Inside, length-store_lines}

-- A transfer that the display waits for: an uncompressed rectangle that fits the display and the buffer.
pub record Expected (format : ℕ) (p : PendingBuffer) : Type 0 where
  pub is_rgb565 : format ≡ 0x40
  pub inside : Inside p.req
  pub all_pixels : p.req.height * (p.req.width * 2) ≡ p.transfer_length
  pub uncompressed : p.req.compression ≡ 0
  pub transfer_fits : p.transfer_length ≤ display_max_buffer_size
  pub unfinished : p.received < p.transfer_length

pub record IsSound (s : Display) : Type 0 where
  pub transfer_room : length s.transfer_buffer ≡ display_max_buffer_size
  pub frame_room : length s.framebuffer ≡ 307200
  pub format_known : (s.current_format ≡ 0) ⊎ (s.current_format ≡ 0x40)
  pub checked_known : s.state_checked ≡ true → s.checked_state.format ≡ 0x40
  pub expected : s.pending.active ≡ true → Expected s.current_format s.pending

accepted :
    (format : ℕ) (req : SetBufferReq)
    → is_acceptable format req ≡ true
    → Inside req
      × (format ≢ 0)
      × (req.length ≡ line_length format req.width * req.height % u32_mod)
      × (req.compression ≡ 0)
      × (0 < transfer_size req)
      × (transfer_size req ≤ display_max_buffer_size)
unfolding is_acceptable is_inside
accepted format req e = ground arith

line_length-rgb565 : (width : ℕ) → width ≤ 320 → line_length 0x40 width ≡ width * 2
unfolding line_length format_bits_per_pixel
line_length-rgb565 width h = omega arith

acceptable-Expected :
    (format : ℕ) (req : SetBufferReq)
    → (format ≡ 0) ⊎ (format ≡ 0x40)
    → is_acceptable format req ≡ true
    → Expected format
        (record { active = true; req = req; transfer_length = transfer_size req; received = 0 })
acceptable-Expected format req known e =
    let (inside, set, len, plain, some_bytes, fits) = accepted format req e in
    let is_rgb565 : format ≡ 0x40 = ground arith in
    let bound : req.width * 2 * req.height ≤ 640 * 240 =
      mul-le-mul {n₂ = 640} {m₂ = 240} (omega (arith, inside)) (omega (arith, inside)) in
    let len' : req.length ≡ req.width * 2 * req.height = omega (
      arith,
      bound,
      len
          ∙ ap (λ f. line_length f req.width * req.height % u32_mod) is_rgb565
          ∙ ap (λ n. n * req.height % u32_mod)
              (line_length-rgb565 req.width (omega (arith, inside))),
    ) in
    let size : transfer_size req ≡ req.length = ground arith in
    record {
      is_rgb565 = is_rgb565;
      inside = inside;
      all_pixels = mul_comm req.height (req.width * 2) ∙ sym len' ∙ sym size;
      uncompressed = plain;
      transfer_fits = fits;
      unfinished = some_bytes;
    }

pub set_buffer-IsSound : (bytes : List ℕ) (s : Display) → IsSound s → IsSound (set_buffer bytes s).1
unfolding set_buffer
set_buffer-IsSound bytes s v =
    if_elim {A = ℕ × Display} (λ r. IsSound r.1) (not (length bytes == 25)) v
      (if_split {A = ℕ × Display} (λ r. IsSound r.1)
        (is_acceptable s.current_format (read_set_buffer_req bytes))
        (λ ok. record {
          transfer_room = v.transfer_room;
          frame_room = v.frame_room;
          format_known = v.format_known;
          checked_known = v.checked_known;
          expected = λ _.
              acceptable-Expected s.current_format (read_set_buffer_req bytes) v.format_known ok;
        })
        (λ _. v))

valid_format : (bytes : List ℕ) → is_valid_state bytes ≡ true → (read_state_req bytes).format ≡ 0x40
unfolding is_valid_state
valid_format bytes ok = ground arith

pub set_state_check-IsSound :
    (bytes : List ℕ) (s : Display) → IsSound s → IsSound (set_state_check bytes s).1
unfolding set_state_check
set_state_check-IsSound bytes s v =
    if_elim {A = ℕ × Display} (λ r. IsSound r.1)
      (ltb (length bytes) 26 || not ((length bytes - 26) % 10 == 0)) v
      (if_split {A = ℕ × Display} (λ r. IsSound r.1) (is_valid_state bytes)
        (λ ok. record {
          transfer_room = v.transfer_room;
          frame_room = v.frame_room;
          format_known = v.format_known;
          checked_known = λ _. valid_format bytes ok;
          expected = v.expected;
        })
        (λ _. v))

pub set_state_commit-IsSound : (s : Display) → IsSound s → IsSound (set_state_commit s).1
unfolding set_state_commit
set_state_commit-IsSound s v =
    if_split {A = ℕ × Display} (λ r. IsSound r.1) (not s.state_checked) (λ _. v)
      (λ e.
        let checked : s.checked_state.format ≡ 0x40 = v.checked_known (ground arith) in
        record {
          transfer_room = v.transfer_room;
          frame_room = v.frame_room;
          format_known = inr checked;
          checked_known = λ off. cc;
          expected = λ on.
              let p = v.expected on in
              record {
                is_rgb565 = checked;
                inside = p.inside;
                all_pixels = p.all_pixels;
                uncompressed = p.uncompressed;
                transfer_fits = p.transfer_fits;
                unfinished = p.unfinished;
              };
        })
