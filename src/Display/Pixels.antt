-- ===== src/Display/Pixels.antt =====
-- The colours that the window of src/usb_gud_display/usb_gud_display_device.c shows.
use usbip_server.Prelude.{
  ℕ, zero, suc, ◌+◌, ◌-◌, ◌*◌, ◌/◌, ◌%◌, ◌^◌, ◌<◌, ◌≡◌, ap, ◌∙◌, List, [], ◌∷◌, arith, ◌==◌,
  if◌then◌else◌, byte, le16, ◌||◌,
}
use usbip_server.Display.Rectangle.{display_width, display_height}

-- `widen`
unfoldable pub widen : ℕ → ℕ → ℕ
widen value bits = value * 255 / (2 ^ bits - 1)

-- (r << 16) | (g << 8) | b, of channels below 256.
abbrev pub xrgb : ℕ → ℕ → ℕ → ℕ
xrgb r g b = r * 65536 + g * 256 + b

-- One pixel, by its format: R8, RGB332, RGB565, RGB888, and XRGB8888 or ARGB8888.
unfoldable pub pixel : List ℕ → ℕ → ℕ → ℕ
unfolding widen
pixel fb format idx =
    if format == 0x08
    then xrgb (byte fb idx) (byte fb idx) (byte fb idx)
    else if format == 0x30
    then xrgb (widen (byte fb idx / 32) 3) (widen (byte fb idx / 4 % 8) 3)
        (widen (byte fb idx % 4) 2)
    else if format == 0x40
    then (let p = le16 fb (2 * idx) in
        xrgb (widen (p / 2048) 5) (widen (p / 32 % 64) 6) (widen (p % 32) 5))
    else if format == 0x50
    then xrgb (byte fb (3 * idx + 2)) (byte fb (3 * idx + 1)) (byte fb (3 * idx))
    else if format == 0x80 || format == 0x81
    then xrgb (byte fb (4 * idx + 2)) (byte fb (4 * idx + 1)) (byte fb (4 * idx))
    else 0

-- The loop, from pixel `idx`, for `n` pixels.
unfoldable pub convert : List ℕ → ℕ → ℕ → ℕ → List ℕ
unfolding pixel
convert fb format idx zero = []
convert fb format idx (suc n) = pixel fb format idx ∷ convert fb format (idx + 1) n

-- `framebuffer_to_xrgb8888`
unfoldable pub framebuffer_to_xrgb8888 : List ℕ → ℕ → List ℕ
framebuffer_to_xrgb8888 fb format = convert fb format 0 (display_width * display_height)

-- The upper bits of each channel of a shown pixel, as RGB565.
abbrev pub narrow : ℕ → ℕ
narrow shown = shown / 65536 / 8 * 2048 + shown / 256 % 256 / 4 * 32 + shown % 256 / 8

widen-5 : (v : ℕ) → v < 32 → (widen v 5 < 256) × (widen v 5 / 8 ≡ v)
unfolding widen
widen-5 v h = (omega arith, omega arith)

widen-6 : (v : ℕ) → v < 64 → (widen v 6 < 256) × (widen v 6 / 4 ≡ v)
unfolding widen
widen-6 v h = (omega arith, omega arith)

narrow-xrgb :
    (r g b : ℕ) → g < 256 → b < 256 → narrow (xrgb r g b) ≡ r / 8 * 2048 + g / 4 * 32 + b / 8
narrow-xrgb r g b hg hb = omega arith

-- Showing an RGB565 pixel loses nothing: the upper bits of the channels shown are the pixel.
narrow-pixel :
    (fb : List ℕ) (idx : ℕ)
    → le16 fb (2 * idx) < 65536
    → narrow (pixel fb 0x40 idx) ≡ le16 fb (2 * idx)
unfolding pixel
narrow-pixel fb idx h =
    narrow-xrgb (widen (p / 2048) 5) (widen (p / 32 % 64) 6) (widen (p % 32) 5) (green.0) (blue.0)
    ∙ omega (arith, red.1, green.1, blue.1, h)
  where
    p : ℕ
    p = le16 fb (2 * idx)

    red : (widen (p / 2048) 5 < 256) × (widen (p / 2048) 5 / 8 ≡ p / 2048)
    red = widen-5 (p / 2048) (omega (arith, h))

    green : (widen (p / 32 % 64) 6 < 256) × (widen (p / 32 % 64) 6 / 4 ≡ p / 32 % 64)
    green = widen-6 (p / 32 % 64) (omega arith)

    blue : (widen (p % 32) 5 < 256) × (widen (p % 32) 5 / 8 ≡ p % 32)
    blue = widen-5 (p % 32) (omega arith)

convert-get :
    (fb : List ℕ) (format n from i : ℕ)
    → i < n
    → byte (convert fb format from n) i ≡ pixel fb format (from + i)
unfolding convert
convert-get fb format zero from i h = absurd (omega arith)
convert-get fb format (suc n) from zero h =
    let e : from ≡ from + 0 = omega arith in ap (pixel fb format) e
convert-get fb format (suc n) from (suc i) h =
    let e : from + 1 + i ≡ from + suc i = omega arith in
    convert-get fb format n (from + 1) i (omega arith) ∙ ap (pixel fb format) e

-- Each of the window's pixels shows the pixel of the frame buffer in the same place, in full: the upper
-- bits of the three channels shown are the RGB565 pixel that the host has sent.
pub framebuffer_to_xrgb8888_lem :
    (fb : List ℕ) (i : ℕ)
    → i < display_width * display_height
    → le16 fb (2 * i) < 65536
    → narrow (byte (framebuffer_to_xrgb8888 fb 0x40) i) ≡ le16 fb (2 * i)
unfolding framebuffer_to_xrgb8888
framebuffer_to_xrgb8888_lem fb i h lt =
    ap narrow (convert-get fb 0x40 (display_width * display_height) 0 i h ∙ ap (pixel fb 0x40) here)
    ∙ narrow-pixel fb i lt
  where
    here : 0 + i ≡ i
    here = omega arith
