-- ===== src/Display/Pieces.antt =====
-- A rectangle that reaches the GUD display in several transfers, `endpoint_data` of
-- src/usb_gud_display/usb_gud_display_device.c.
pub mod Update
use mathlib.Core.Path.{subst}
use native.Mathlib.Nat.{mul-le-mul}
use usbip_server.Prelude.{
  joined, suc, ltb→lt, ltb→ge, ℕ, ◌+◌, ◌-◌, ◌*◌, ◌/◌, ◌%◌, ◌≤◌, ◌<◌, ◌≡◌, refl, sym, ap, ◌∙◌, Bool,
  true, false, not, ◌&&◌, List, [], ◌∷◌, ◌++◌, arith, ltb, leb, u32_mod, if◌then◌else◌, if_split,
  length, byte, take, All, write_at, take-write_at, get_or-take, append_assoc, append-nil,
  length-append, length-write_at, Bool-cases, inl, inr, ◌==◌,
}
use usbip_server.Display.{
  Display, PendingBuffer, endpoint_data, store_data, finish_transfer, is_unexpected,
  display_max_buffer_size,
}
use usbip_server.Display.Rectangle.{SetBufferReq, store_rectangle}
use usbip_server.Display.Rectangle.Bounds.{Inside}
use usbip_server.Display.Rectangle.Shown.{is_covered, shown, store_rectangle-shown}
use usbip_server.Display.Sound.{Expected, IsSound}
use usbip_server.Display.Sound.Data.{endpoint_data-IsSound}

-- The host's transfers, one after another.
unfoldable pub send_all : List (List ℕ) → Display → Display
send_all [] s = s
send_all (bytes ∷ pieces) s = send_all pieces (endpoint_data bytes s)

abbrev pub IsSome : List ℕ → Type 0
IsSome bytes = 0 < length bytes

-- The transfer is over, and the display shows `pixels` in the rectangle and nothing else anew.
abbrev pub Drawn : Display → List ℕ → Display → Type 0
Drawn s pixels s' =
    (s'.pending.active ≡ false)
    × ((i : ℕ) → byte s'.framebuffer i ≡ shown s.pending.req pixels s.framebuffer i)

covered-inside :
    (rect : SetBufferReq) (i n : ℕ)
    → rect.height * (rect.width * 2) ≡ n
    → is_covered rect i ≡ true
    → (i / 640 - rect.y) * (rect.width * 2) + (i % 640 - rect.x * 2) < n
covered-inside rect i n size on =
    let row : suc (i / 640 - rect.y) ≤ rect.height = ground arith in
    let column : i % 640 - rect.x * 2 < rect.width * 2 = ground arith in
    let rows : suc (i / 640 - rect.y) * (rect.width * 2) ≤ rect.height * (rect.width * 2) =
      mul-le-mul row (omega arith) in
    let next : suc (i / 640 - rect.y) * (rect.width * 2)
        ≡ rect.width * 2 + (i / 640 - rect.y) * (rect.width * 2) =
      omega arith in
    omega (arith, size, column, rows, next)

-- No more pixels are shown than the rectangle has.
shown-take :
    (rect : SetBufferReq) (n : ℕ) (pixels framebuffer : List ℕ) (i : ℕ)
    → rect.height * (rect.width * 2) ≡ n
    → shown rect pixels framebuffer i ≡ shown rect (take n pixels) framebuffer i
unfolding shown
shown-take rect n pixels framebuffer i size = elim (Bool-cases (is_covered rect i)) [
  | inl on ↦ rw on (sym (get_or-take n pixels _ 0 (covered-inside rect i n size on)))
  | inr off ↦ rw off refl
]

module _ (bytes : List ℕ) (s : Display) (v : IsSound s) (on : s.pending.active ≡ true) where
  abbrev after : List ℕ
  after = write_at s.pending.received bytes s.transfer_buffer

  endpoint_data-expected :
      s.pending.received + length bytes ≤ s.pending.transfer_length
      → endpoint_data bytes s ≡ store_data bytes s
  unfolding endpoint_data
  endpoint_data-expected fits =
      if_split {A = Display} (λ d. d ≡ store_data bytes s) (is_unexpected bytes s.pending)
        (λ bad. absurd (unexpected bad)) (λ _. refl)
    where
      e : Expected s.current_format s.pending
      e = v.expected on

      lo : s.pending.received < s.pending.transfer_length
      lo = e.unfinished

      hi : s.pending.transfer_length ≤ 65536
      hi = e.transfer_fits

      unexpected : ¬ (is_unexpected bytes s.pending ≡ true)
      unexpected bad = ground arith

  counted :
      s.pending.received + length bytes ≤ s.pending.transfer_length
      → (s.pending.received + length bytes) % u32_mod ≡ s.pending.received + length bytes
  counted fits = let e = v.expected on in omega (arith, e.transfer_fits, fits)

  endpoint_data-part :
      s.pending.received + length bytes < s.pending.transfer_length
      → endpoint_data bytes s ≡ record s {
        transfer_buffer = after;
        pending = record (s.pending) { received = s.pending.received + length bytes };
      }
  unfolding store_data
  endpoint_data-part less =
      endpoint_data-expected (omega arith)
      ∙ if_split {A = Display} (λ d. d ≡ part (s.pending.received + length bytes))
          (ltb ((s.pending.received + length bytes) % u32_mod) s.pending.transfer_length)
          (λ _. ap part (counted (omega arith)))
          (λ no. absurd (omega (arith, ltb→ge _ _ no, counted (omega arith))))
    where
      part : ℕ → Display
      part n = record s { transfer_buffer = after; pending = record (s.pending) { received = n } }

  endpoint_data-last :
      s.pending.received + length bytes ≡ s.pending.transfer_length
      → ((endpoint_data bytes s).pending.active ≡ false)
        × ((endpoint_data bytes s).framebuffer
            ≡ (store_rectangle s.current_format s.pending.req after s.framebuffer).1)
  unfolding store_data finish_transfer
  endpoint_data-last end =
      let known = endpoint_data-expected (omega arith) in
      (
        ap (λ (d : Display). d.pending.active) known ∙ done_.0,
        ap (λ (d : Display). d.framebuffer) known ∙ done_.1,
      )
    where
      Done : Display → Type 0
      Done d =
          (d.pending.active ≡ false)
          × (d.framebuffer ≡ (store_rectangle s.current_format s.pending.req after s.framebuffer).1)

      plain : s.pending.req.compression ≡ 0
      plain = let e = v.expected on in e.uncompressed

      done_ : Done (store_data bytes s)
      done_ =
          if_split {A = Display} Done
            (ltb ((s.pending.received + length bytes) % u32_mod) s.pending.transfer_length)
            (λ yes. absurd (omega (arith, ltb→lt _ _ yes, counted (omega arith))))
            (λ _.
              if_split {A = Display} Done (not (s.pending.req.compression == 0))
                (λ odd. absurd (ground (arith, plain, odd))) (λ _. (refl, refl)))

-- The last piece, with what came before it.
last-Drawn :
    (bytes : List ℕ) (s : Display)
    → IsSound s
    → s.pending.active ≡ true
    → s.pending.received + length bytes ≡ s.pending.transfer_length
    → Drawn s (take s.pending.received s.transfer_buffer ++ bytes) (endpoint_data bytes s)
last-Drawn bytes s v on end =
    let (idle, drawn) = endpoint_data-last bytes s v on end in
    (
      idle,
      λ i.
          ap (λ fb. byte fb i)
            (drawn ∙ ap (λ f. (store_rectangle f s.pending.req pixels s.framebuffer).1) e.is_rgb565)
          ∙ (store_rectangle-shown s.pending.req pixels s.framebuffer i e.inside enough frame).1
          ∙ shown-take s.pending.req s.pending.transfer_length pixels s.framebuffer i e.all_pixels
          ∙ ap (λ ps. shown s.pending.req ps s.framebuffer i) got,
    )
  where
    e : Expected s.current_format s.pending
    e = v.expected on

    pixels : List ℕ
    pixels = write_at s.pending.received bytes s.transfer_buffer

    room : s.pending.received + length bytes ≤ length s.transfer_buffer
    room = omega (arith, end, e.transfer_fits, v.transfer_room)

    enough : s.pending.req.height * (s.pending.req.width * 2) ≤ length pixels
    enough = omega (
      arith,
      length-write_at s.pending.received bytes s.transfer_buffer room,
      e.all_pixels,
      end,
      room,
    )

    frame : 153600 ≤ length s.framebuffer
    frame = omega (arith, v.frame_room)

    got : take s.pending.transfer_length pixels ≡ take s.pending.received s.transfer_buffer ++ bytes
    got =
        take-write_at s.pending.received s.pending.transfer_length bytes s.transfer_buffer
          (omega (arith, room)) (sym end)

-- An announced rectangle that reaches the display in any number of pieces, none of them empty, is shown
-- when the last has come, and the transfer is over: every byte of the frame buffer is that of the pixels
-- received if it is in the rectangle, and unchanged if not.
pub send_all-Drawn :
    (pieces : List (List ℕ)) (s : Display)
    → IsSound s
    → s.pending.active ≡ true
    → All IsSome pieces
    → s.pending.received + length (joined pieces) ≡ s.pending.transfer_length
    → Drawn s (take s.pending.received s.transfer_buffer ++ joined pieces) (send_all pieces s)
unfolding send_all
send_all-Drawn [] s v on some_ all = absurd (omega (arith, all, (v.expected on).unfinished))
send_all-Drawn (bytes ∷ []) s v on some_ all =
    let whole = append-nil bytes in
    subst (λ ps. Drawn s (take s.pending.received s.transfer_buffer ++ ps) (endpoint_data bytes s))
      (sym whole) (last-Drawn bytes s v on (omega (arith, all, ap length whole)))
send_all-Drawn (bytes ∷ next ∷ pieces) s v on (h, (h', hs)) all =
    subst
      (λ d.
        Drawn s (take s.pending.received s.transfer_buffer ++ joined (bytes ∷ next ∷ pieces))
          (send_all (next ∷ pieces) d))
      (sym same)
      (subst (λ ps. Drawn s ps (send_all (next ∷ pieces) s')) got
        (send_all-Drawn (next ∷ pieces) s' (subst IsSound same (endpoint_data-IsSound bytes s v)) on
          (h', hs) (omega (arith, total, all))))
  where
    s' : Display
    s' = record s {
      transfer_buffer = write_at s.pending.received bytes s.transfer_buffer;
      pending = record (s.pending) { received = s.pending.received + length bytes };
    }

    total : length (joined (bytes ∷ next ∷ pieces)) ≡ length bytes + length (joined (next ∷ pieces))
    total = length-append bytes (joined (next ∷ pieces))

    some_left : length (joined (next ∷ pieces)) ≡ length next + length (joined pieces)
    some_left = length-append next (joined pieces)

    same : endpoint_data bytes s ≡ s'
    same = endpoint_data-part bytes s v on (omega (arith, all, total, some_left, h'))

    got :
        take (s.pending.received + length bytes) s'.transfer_buffer ++ joined (next ∷ pieces)
        ≡ take s.pending.received s.transfer_buffer ++ joined (bytes ∷ next ∷ pieces)
    got =
        ap (λ ps. ps ++ joined (next ∷ pieces))
          (take-write_at s.pending.received (s.pending.received + length bytes) bytes
            s.transfer_buffer
            (omega
              (arith, (v.expected on).unfinished, (v.expected on).transfer_fits, v.transfer_room))
            refl)
        ∙ append_assoc (take s.pending.received s.transfer_buffer) bytes (joined (next ∷ pieces))
