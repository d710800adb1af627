-- ===== src/Display/Rectangle/Bounds.antt =====
-- Where an RGB565 rectangle of the GUD display is written and read, `store_rectangle`.
use native.Mathlib.Nat.{mul-le-mul, mul-le-mul_right}
use usbip_server.Prelude.{
  ℕ, zero, suc, ◌+◌, ◌*◌, ◌-◌, ◌/◌, ◌%◌, u32_mod, ◌⊎◌, inl, inr, ◌≤◌, ◌<◌, ◌≡◌, refl, ◌∙◌, List,
  arith, length, take, drop, length-take, length-drop, length-write_at, write_at, byte, get_or-drop,
  get_or-take, get_or-write_at_inside, get_or-write_at_before, get_or-write_at_behind,
}
use usbip_server.Display.Rectangle.{
  SetBufferReq, display_width, display_height, store_line, store_lines,
}

-- The rectangle is inside the display.
abbrev pub Inside : SetBufferReq → Type 0
Inside rect = (rect.x + rect.width ≤ display_width) × (rect.y + rect.height ≤ display_height)

-- Where line `line` of the rectangle begins in the frame buffer, and its bytes.
abbrev pub line_start : SetBufferReq → ℕ → ℕ
line_start rect line = (rect.y + line) * 640 + rect.x * 2

abbrev pub line_bytes : SetBufferReq → List ℕ → ℕ → List ℕ
line_bytes rect pixels line = take (rect.width * 2) (drop (line * (rect.width * 2)) pixels)

-- Byte `i` of the frame buffer is not on the lines from `line` to before `last` of the rectangle.
abbrev pub Away : SetBufferReq → ℕ → ℕ → ℕ → Type 0
Away rect line last i =
    (i / 640 < rect.y + line)
    ⊎ ((rect.y + last ≤ i / 640)
        ⊎ ((i % 640 < rect.x * 2) ⊎ (rect.x * 2 + rect.width * 2 ≤ i % 640)))

-- Byte `i` is on line `line` of the rectangle.
abbrev pub OnLine : SetBufferReq → ℕ → ℕ → Type 0
OnLine rect line i =
    (i / 640 ≡ rect.y + line) × (rect.x * 2 ≤ i % 640) × (i % 640 < rect.x * 2 + rect.width * 2)

module _ (rect : SetBufferReq) (pixels : List ℕ) (h : Inside rect) where
  line_offset-le : (line : ℕ) → line + 1 ≤ rect.height → line * (rect.width * 2) ≤ 240 * 640
  line_offset-le line l = mul-le-mul {n₂ = 240} {m₂ = 640} (omega (arith, h)) (omega (arith, h))

  -- No index wraps around.
  store_line_lem :
      (line : ℕ) (framebuffer : List ℕ)
      → line + 1 ≤ rect.height
      → store_line 2 rect pixels line framebuffer
        ≡ write_at (line_start rect line) (line_bytes rect pixels line) framebuffer
  unfolding store_line
  store_line_lem line framebuffer l = rw (pitch, source, start) refl
    where
      pitch : rect.width * 2 % u32_mod ≡ rect.width * 2
      pitch = omega (arith, h)

      source : line * (rect.width * 2) % u32_mod ≡ line * (rect.width * 2)
      source = omega (arith, line_offset-le line l)

      start : line_start rect line % u32_mod ≡ line_start rect line
      start = omega (arith, h)

  line_bytes-le : (line : ℕ) → length (line_bytes rect pixels line) ≤ rect.width * 2
  line_bytes-le line =
      omega (arith, length-take (rect.width * 2) (drop (line * (rect.width * 2)) pixels))

  pub length-store_line :
      (line : ℕ) (framebuffer : List ℕ)
      → line + 1 ≤ rect.height
      → 153600 ≤ length framebuffer
      → length (store_line 2 rect pixels line framebuffer) ≡ length framebuffer
  length-store_line line framebuffer l room = rw (store_line_lem line framebuffer l) (
      length-write_at (line_start rect line) (line_bytes rect pixels line) framebuffer
        (omega (arith, h, line_bytes-le line)))

  pub length-store_lines :
      (n line : ℕ) (framebuffer : List ℕ)
      → line + n ≤ rect.height
      → 153600 ≤ length framebuffer
      → length (store_lines 2 rect pixels n line framebuffer) ≡ length framebuffer
  unfolding store_lines
  length-store_lines zero line framebuffer l room = refl
  length-store_lines (suc n) line framebuffer l room =
      length-store_lines n (line + 1) (store_line 2 rect pixels line framebuffer) (omega arith)
        (omega (arith, length-store_line line framebuffer (omega arith) room))
      ∙ length-store_line line framebuffer (omega arith) room

  module _ (enough : rect.height * (rect.width * 2) ≤ length pixels) where
    length-line_bytes :
        (line : ℕ) → line + 1 ≤ rect.height → length (line_bytes rect pixels line) ≡ rect.width * 2
    length-line_bytes line l = omega (
      arith,
      enough,
      mul-le-mul_right {m = line + 1} {n = rect.height} (rect.width * 2) l,
      length-take (rect.width * 2) (drop (line * (rect.width * 2)) pixels),
      length-drop (line * (rect.width * 2)) pixels,
    )

    module _ (i : ℕ) where
      store_line-OnLine :
          (line : ℕ) (framebuffer : List ℕ)
          → line + 1 ≤ rect.height
          → 153600 ≤ length framebuffer
          → OnLine rect line i
          → byte (store_line 2 rect pixels line framebuffer) i
            ≡ byte pixels (line * (rect.width * 2) + (i % 640 - rect.x * 2))
      store_line-OnLine line framebuffer l room on = rw (store_line_lem line framebuffer l) (
          get_or-write_at_inside (line_start rect line) (line_bytes rect pixels line) framebuffer i
            j 0 (omega (arith, h)) (omega (arith, on)) (omega (arith, on, length-line_bytes line l))
          ∙ get_or-take (rect.width * 2) (drop (line * (rect.width * 2)) pixels) j 0
              (omega (arith, on))
          ∙ get_or-drop (line * (rect.width * 2)) pixels _ j 0 refl)
        where
          j : ℕ
          j = i % 640 - rect.x * 2

      store_line-Away :
          (line : ℕ) (framebuffer : List ℕ)
          → line + 1 ≤ rect.height
          → 153600 ≤ length framebuffer
          → Away rect line (line + 1) i
          → byte (store_line 2 rect pixels line framebuffer) i ≡ byte framebuffer i
      store_line-Away line framebuffer l room away =
          rw (store_line_lem line framebuffer l) (elim position [
            | inl before ↦
                get_or-write_at_before (line_start rect line) (line_bytes rect pixels line)
                  framebuffer i 0 (omega (arith, h)) before
            | inr behind ↦
                get_or-write_at_behind (line_start rect line) (line_bytes rect pixels line)
                  framebuffer i 0 (omega (arith, h)) (omega (arith, behind, line_bytes-le line))
          ])
        where
          position : (i < line_start rect line) ⊎ (line_start rect line + rect.width * 2 ≤ i)
          position = ground arith

      pub store_lines-Away :
          (n line : ℕ) (framebuffer : List ℕ)
          → line + n ≤ rect.height
          → 153600 ≤ length framebuffer
          → Away rect line (line + n) i
          → byte (store_lines 2 rect pixels n line framebuffer) i ≡ byte framebuffer i
      unfolding store_lines
      store_lines-Away zero line framebuffer l room away = refl
      store_lines-Away (suc n) line framebuffer l room away =
          store_lines-Away n (line + 1) (store_line 2 rect pixels line framebuffer) (omega arith)
            (omega (arith, length-store_line line framebuffer (omega arith) room)) (ground arith)
          ∙ store_line-Away line framebuffer (omega arith) room (ground arith)

      pub store_lines-OnLine :
          (n line k : ℕ) (framebuffer : List ℕ)
          → line + n ≤ rect.height
          → 153600 ≤ length framebuffer
          → line ≤ k
          → k < line + n
          → OnLine rect k i
          → byte (store_lines 2 rect pixels n line framebuffer) i
            ≡ byte pixels (k * (rect.width * 2) + (i % 640 - rect.x * 2))
      unfolding store_lines
      store_lines-OnLine zero line k framebuffer l room lo hi on = absurd (omega arith)
      store_lines-OnLine (suc n) line k framebuffer l room lo hi on = elim first [
        | inl here ↦
            store_lines-Away n (line + 1) (store_line 2 rect pixels line framebuffer) (omega arith)
              room' (inl (omega (arith, here, on)))
            ∙ rw here (store_line-OnLine line framebuffer (omega arith) room (rw (← here) on))
        | inr later ↦
            store_lines-OnLine n (line + 1) k (store_line 2 rect pixels line framebuffer)
              (omega arith) room' later (omega arith) on
      ]
        where
          first : (k ≡ line) ⊎ (line + 1 ≤ k)
          first = ground arith

          room' : 153600 ≤ length (store_line 2 rect pixels line framebuffer)
          room' = omega (arith, length-store_line line framebuffer (omega arith) room)
