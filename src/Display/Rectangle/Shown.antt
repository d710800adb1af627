-- ===== src/Display/Rectangle/Shown.antt =====
-- What a rectangle of pixels does to the frame buffer of the GUD display, byte by byte.
use usbip_server.Prelude.{
  ℕ, ◌+◌, ◌*◌, ◌-◌, ◌/◌, ◌%◌, ◌≤◌, ◌<◌, ◌≡◌, refl, Bool, true, false, ◌&&◌, List, arith, ltb, leb,
  if◌then◌else◌, if_split, length, byte,
}
use usbip_server.Display.Rectangle.{SetBufferReq, store_rectangle}
use usbip_server.Display.Rectangle.Bounds.{
  Inside, Away, OnLine, store_lines-Away, store_lines-OnLine, length-store_lines,
}

-- Byte `i` of the frame buffer, 640 bytes for each line, belongs to a pixel of the rectangle.
abbrev pub is_covered : SetBufferReq → ℕ → Bool
is_covered rect i =
    leb rect.y (i / 640)
    && ltb (i / 640) (rect.y + rect.height)
    && leb (rect.x * 2) (i % 640)
    && ltb (i % 640) (rect.x * 2 + rect.width * 2)

-- What the display shows at byte `i` after an update: the rectangle's pixels, line after line, over what
-- it showed before.
unfoldable pub shown : SetBufferReq → List ℕ → List ℕ → ℕ → ℕ
shown rect pixels framebuffer i =
    if is_covered rect i
    then byte pixels ((i / 640 - rect.y) * (rect.width * 2) + (i % 640 - rect.x * 2))
    else byte framebuffer i

-- An RGB565 rectangle inside the display, with all its pixels, is copied to its place: every byte of the
-- frame buffer is that of the pixel there if it is in the rectangle, and unchanged if not. The frame
-- buffer keeps its length, provided it has a line of 640 bytes for each of the 240 lines.
pub store_rectangle-shown :
    (rect : SetBufferReq) (pixels framebuffer : List ℕ) (i : ℕ)
    → Inside rect
    → rect.height * (rect.width * 2) ≤ length pixels
    → 153600 ≤ length framebuffer
    → let (changed, framebuffer') = store_rectangle 0x40 rect pixels framebuffer in
      (changed ≡ true)
      × (byte framebuffer' i ≡ shown rect pixels framebuffer i)
      × (length framebuffer' ≡ length framebuffer)
unfolding store_rectangle shown
store_rectangle-shown rect pixels framebuffer i h enough room = (
  refl,
  if_split {A = ℕ} (λ b. byte (store_rectangle 0x40 rect pixels framebuffer).1 i ≡ b)
      (is_covered rect i)
      (λ on.
        store_lines-OnLine rect pixels h enough i rect.height 0 (i / 640 - rect.y) framebuffer
          (omega arith) room (omega arith) (row on) (columns on))
      (λ off.
        store_lines-Away rect pixels h enough i rect.height 0 framebuffer (omega arith) room
          (away off)),
  length-store_lines rect pixels h rect.height 0 framebuffer (omega arith) room,
)
  where
    row : is_covered rect i ≡ true → i / 640 - rect.y < 0 + rect.height
    row e = ground arith

    columns : is_covered rect i ≡ true → OnLine rect (i / 640 - rect.y) i
    columns e = ground arith

    away : is_covered rect i ≡ false → Away rect 0 (0 + rect.height) i
    away e = ground arith
