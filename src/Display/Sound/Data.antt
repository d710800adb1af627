-- ===== src/Display/Sound/Data.antt =====
-- Pixel data and the invariant of the GUD display, `endpoint_data`.
use usbip_server.Prelude.{
  ℕ, ◌+◌, ◌-◌, ◌%◌, ◌≤◌, ◌<◌, ◌≡◌, refl, ◌∙◌, u32_mod, ◌==◌, true, false, not, List, arith, ltb,
  if_split, if_elim, length, length-write_at, write_at, ltb→lt, ltb→ge,
}
use usbip_server.Display.{
  Display, PendingBuffer, display_max_buffer_size, finish_transfer, is_unexpected, store_data,
  endpoint_data,
}
use usbip_server.Display.Rectangle.{SetBufferReq, store_rectangle}
use usbip_server.Display.Rectangle.Bounds.{Inside, length-store_lines}
use usbip_server.Display.Sound.{Expected, IsSound}

length-store_rectangle :
    (rect : SetBufferReq) (pixels framebuffer : List ℕ)
    → Inside rect
    → length framebuffer ≡ 307200
    → length (store_rectangle 0x40 rect pixels framebuffer).1 ≡ 307200
unfolding store_rectangle
length-store_rectangle rect pixels framebuffer h room =
    length-store_lines rect pixels h rect.height 0 framebuffer (omega arith) (omega arith) ∙ room

finish_transfer-IsSound :
    (s : Display)
    → IsSound s
    → s.pending.active ≡ false
    → s.current_format ≡ 0x40
    → Inside s.pending.req
    → IsSound (finish_transfer s)
unfolding finish_transfer
finish_transfer-IsSound s v idle format inside =
    if_elim {A = Display} IsSound (not (s.pending.req.compression == 0))
      (record {
        transfer_room = v.transfer_room;
        frame_room = v.frame_room;
        format_known = v.format_known;
        checked_known = v.checked_known;
        expected = v.expected;
      })
      (record {
        transfer_room = v.transfer_room;
        frame_room = rw format (
            length-store_rectangle s.pending.req s.transfer_buffer s.framebuffer inside
              v.frame_room);
        format_known = v.format_known;
        checked_known = v.checked_known;
        expected = λ on. cc;
      })

store_data-IsSound :
    (bytes : List ℕ) (s : Display)
    → IsSound s
    → Expected s.current_format s.pending
    → length bytes ≤ s.pending.transfer_length - s.pending.received
    → IsSound (store_data bytes s)
unfolding store_data
store_data-IsSound bytes s v e fits =
    if_split {A = Display} IsSound (ltb received' p.transfer_length)
      (λ less. record {
        transfer_room = room;
        frame_room = v.frame_room;
        format_known = v.format_known;
        checked_known = v.checked_known;
        expected = λ _. record {
          is_rgb565 = e.is_rgb565;
          inside = e.inside;
          all_pixels = e.all_pixels;
          uncompressed = e.uncompressed;
          transfer_fits = e.transfer_fits;
          unfinished = ltb→lt _ _ less;
        };
      })
      (λ _.
        finish_transfer-IsSound
          (record s {
            transfer_buffer = buffer;
            pending = record p { active = false; received = received' };
          })
          (record {
            transfer_room = room;
            frame_room = v.frame_room;
            format_known = v.format_known;
            checked_known = v.checked_known;
            expected = λ on. cc;
          })
          refl e.is_rgb565 e.inside)
  where
    p : PendingBuffer
    p = s.pending

    received' : ℕ
    received' = (p.received + length bytes) % u32_mod

    buffer : List ℕ
    buffer = write_at p.received bytes s.transfer_buffer

    room : length buffer ≡ display_max_buffer_size
    room =
        length-write_at p.received bytes s.transfer_buffer
          (omega (arith, e.transfer_fits, e.unfinished, v.transfer_room, fits))
        ∙ v.transfer_room

is_unexpected-Expected :
    (bytes : List ℕ) (s : Display)
    → IsSound s
    → is_unexpected bytes s.pending ≡ false
    → Expected s.current_format s.pending
      × (length bytes ≤ s.pending.transfer_length - s.pending.received)
is_unexpected-Expected bytes s v h =
    let on : s.pending.active ≡ true = ground arith in
    let e = v.expected on in
    let lo : s.pending.received < s.pending.transfer_length = e.unfinished in
    let hi : s.pending.transfer_length ≤ display_max_buffer_size = e.transfer_fits in
    let fits : ltb ((u32_mod + s.pending.transfer_length - s.pending.received) % u32_mod)
          (length bytes)
        ≡ false =
      ground arith in
    (e, omega (arith, lo, hi, ltb→ge _ _ fits))

pub endpoint_data-IsSound :
    (bytes : List ℕ) (s : Display) → IsSound s → IsSound (endpoint_data bytes s)
unfolding endpoint_data
endpoint_data-IsSound bytes s v =
    if_split {A = Display} IsSound (is_unexpected bytes s.pending)
      (λ _. record {
        transfer_room = v.transfer_room;
        frame_room = v.frame_room;
        format_known = v.format_known;
        checked_known = v.checked_known;
        expected = λ on. cc;
      })
      (λ h.
        let (e, fits) = is_unexpected-Expected bytes s v h in store_data-IsSound bytes s v e fits)
