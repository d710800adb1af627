-- ===== src/Display/Loop/Picture.antt =====
-- What a callback of src/usb_gud_display/usb_gud_display_device.c does to the picture of the window.
use usbip_server.Prelude.{
  ℕ, zero, suc, ◌+◌, ◌-◌, ◌*◌, ◌%◌, ◌≡◌, ◌⊎◌, inl, inr, refl, ap, ◌∙◌, Bool, true, false, not, ◌&&◌,
  ◌||◌, List, ◌∷◌, arith, ltb, ◌==◌, if_split, if_elim, length, replicate, byte, le16, write_at,
  u32_mod,
}
use usbip_server.Device.Api.{Action}
use usbip_server.Device.Buffers.{DeviceState, run}
use usbip_server.Display.{
  Display, is_acceptable, set_buffer, is_valid_state, set_state_check, set_state_commit,
  set_request, finish_transfer, store_data, is_unexpected, endpoint_data, reset,
}
use usbip_server.Display.Answers.{answer, connector_request, get_request, control_data}
use usbip_server.Display.Rectangle.{
  SetBufferReq, read_set_buffer_req, format_bits_per_pixel, store_rectangle,
}
use usbip_server.Display.Pixels.{pixel, widen, convert, framebuffer_to_xrgb8888}
use usbip_server.Display.Sound.{IsSound}
use usbip_server.Display.Sound.Calls.{Call, was_reset, control, received, call}
use usbip_server.Display.Loop.{blank}

get_or-replicate : (n i : ℕ) → byte (replicate n 0) i ≡ zero
unfolding replicate
get_or-replicate zero i = refl
get_or-replicate (suc n) zero = refl
get_or-replicate (suc n) (suc i) = get_or-replicate n i

pixel-blank : (n idx : ℕ) → pixel (replicate n 0) 0x40 idx ≡ pixel (replicate n 0) 0 idx
unfolding pixel widen
pixel-blank n idx = rw (get_or-replicate n (2 * idx), get_or-replicate n (2 * idx + 1)) refl

convert-blank : (n idx k : ℕ) → convert (replicate n 0) 0x40 idx k ≡ convert (replicate n 0) 0 idx k
unfolding convert
convert-blank n idx zero = refl
convert-blank n idx (suc k) =
    ap (λ p. p ∷ convert (replicate n 0) 0x40 (idx + 1) k) (pixel-blank n idx)
    ∙ ap (λ ps. pixel (replicate n 0) 0 idx ∷ ps) (convert-blank n (idx + 1) k)

-- An empty frame buffer is black before the host has chosen a format, and after.
picture-blank : framebuffer_to_xrgb8888 blank 0x40 ≡ framebuffer_to_xrgb8888 blank 0
unfolding framebuffer_to_xrgb8888
picture-blank = convert-blank 307200 0 76800

convert-black : (fb : List ℕ) (idx k : ℕ) → convert fb 0 idx k ≡ replicate k 0
unfolding convert pixel replicate
convert-black fb idx zero = refl
convert-black fb idx (suc k) = ap (λ ps. 0 ∷ ps) (convert-black fb (idx + 1) k)

pub picture-black : framebuffer_to_xrgb8888 blank 0 ≡ replicate 76800 0
unfolding framebuffer_to_xrgb8888
picture-black = convert-black blank 0 76800

-- The picture that the frame buffer holds.
abbrev pub picture : Display → List ℕ
picture s = framebuffer_to_xrgb8888 s.framebuffer s.current_format

-- Without a format the frame buffer is empty.
abbrev pub IsBlank : Display → Type 0
IsBlank s = s.current_format ≡ 0 → s.framebuffer ≡ blank

-- Where the main loop is not told of a change, there is none.
abbrev pub Follows : Display → Display → Type 0
Follows s t =
    IsBlank t
    × (t.framebuffer_changed ≡ false
        → (s.framebuffer_changed ≡ false)
          × (t.framebuffer ≡ s.framebuffer)
          × (picture t ≡ picture s))

store_rectangle-unstored :
    (format : ℕ) (rect : SetBufferReq) (pixels fb : List ℕ)
    → (store_rectangle format rect pixels fb).0 ≡ false
    → (store_rectangle format rect pixels fb).1 ≡ fb
unfolding store_rectangle
store_rectangle-unstored format rect pixels fb =
    if_elim {A = Bool × List ℕ} (λ r. r.0 ≡ false → r.1 ≡ fb)
      (not (format_bits_per_pixel format % 8 == 0)) (λ _. refl) (λ e. cc)

recolour :
    (fb : List ℕ) {old new : ℕ}
    → (old ≡ 0 → fb ≡ blank)
    → (old ≡ 0) ⊎ (old ≡ 0x40)
    → new ≡ 0x40
    → framebuffer_to_xrgb8888 fb new ≡ framebuffer_to_xrgb8888 fb old
recolour fb b (inl e) e' = rw (e', e, b e) picture-blank
recolour fb b (inr e) e' = rw (e', e) refl

module _ (s : Display) (b : IsBlank s) where
  -- So does every change of the other fields.
  kept : Follows s s
  kept = (b, λ same. (same, refl, refl))

  set_state_commit-Follows : IsSound s → Follows s (set_state_commit s).1
  unfolding set_state_commit
  set_state_commit-Follows v =
      if_split {A = ℕ × Display} (λ r. Follows s r.1) (not s.state_checked) (λ _. kept)
        (λ on.
          let checked : s.checked_state.format ≡ 0x40 = v.checked_known (ground arith) in
          (
            λ e. absurd (omega arith),
            λ same. (same, refl, recolour s.framebuffer b v.format_known checked),
          ))

  set_request-Follows :
      (b_request : ℕ) (bytes : List ℕ) → IsSound s → Follows s (set_request b_request bytes s)
  unfolding set_request set_buffer set_state_check
  set_request-Follows r bytes v = if_elim {A = Display} (Follows s) (r == 0x53) kept (
      if_elim {A = Display} (Follows s) (r == 0x60)
        (if_elim {A = ℕ × Display} Left (not (length bytes == 25)) kept (
          if_elim {A = ℕ × Display} Left
            (is_acceptable s.current_format (read_set_buffer_req bytes)) kept kept))
        (if_elim {A = Display} (Follows s) (r == 0x61)
          (if_elim {A = ℕ × Display} Left
            (ltb (length bytes) 26 || not ((length bytes - 26) % 10 == 0)) kept
            (if_elim {A = ℕ × Display} Left (is_valid_state bytes) kept kept))
          (if_elim {A = Display} (Follows s) (r == 0x62) (set_state_commit-Follows v) (
            if_elim {A = Display} (Follows s) (r == 0x63) kept
              (if_elim {A = Display} (Follows s) (r == 0x64) kept kept)))))
    where
      Left : ℕ × Display → Type 0
      Left q = Follows s (record (q.1) { last_status = q.0 })

  module _ (d : DeviceState) where
    -- What an action leaves follows.
    abbrev Ends : Action Display → Type 0
    Ends act = Follows s (run act d).0

    get_request-Follows : (now r w : ℕ) → Ends (get_request now r w s)
    unfolding get_request connector_request answer run
    get_request-Follows now r w = if_elim {A = Action Display} Ends (r == 0x00) kept (
        if_elim {A = Action Display} Ends (r == 0x01) kept (
          if_elim {A = Action Display} Ends (r == 0x40) kept (
            if_elim {A = Action Display} Ends (r == 0x41) kept (
              if_elim {A = Action Display} Ends (r == 0x50) kept (
                if_elim {A = Action Display} Ends (not (w == 0)) kept (
                  if_elim {A = Action Display} Ends (r == 0x51) kept (
                    if_elim {A = Action Display} Ends (r == 0x54) kept
                      (if_elim {A = Action Display} Ends (r == 0x55) kept kept))))))))

    control_data-Follows :
        (now : ℕ) (setup bytes : List ℕ) → IsSound s → Ends (control_data now s setup bytes)
    unfolding control_data run
    control_data-Follows now setup bytes v =
        if_elim {A = Action Display} Ends (not (byte setup 0 == 0xc1) && not (byte setup 0 == 0x41))
          kept
          (if_elim {A = Action Display} Ends (not (le16 setup 4 == 0)) kept (
            if_elim {A = Action Display} Ends (byte setup 0 == 0xc1)
              (get_request-Follows now (byte setup 1) (le16 setup 2))
              (set_request-Follows (byte setup 1) bytes v)))

neither : (a b : Bool) → (a || b) ≡ false → (a ≡ false) × (b ≡ false)
neither true b h = cc
neither false b h = (refl, h)

finish_transfer-Follows : (s : Display) → s.current_format ≡ 0x40 → Follows s (finish_transfer s)
unfolding finish_transfer
finish_transfer-Follows s rgb =
    if_elim {A = Display} (Follows s) (not (s.pending.req.compression == 0))
      (λ e. absurd (omega arith), λ same. (same, refl, refl))
      (
        λ e. absurd (omega arith),
        λ same.
            let (unstored, before) =
              neither
                (store_rectangle s.current_format s.pending.req s.transfer_buffer s.framebuffer).0
                s.framebuffer_changed same in
            let left =
              store_rectangle-unstored s.current_format s.pending.req s.transfer_buffer
                s.framebuffer unstored in
            (before, left, ap (λ fb. framebuffer_to_xrgb8888 fb s.current_format) left),
      )

endpoint_data-Follows :
    (bytes : List ℕ) (s : Display) → IsBlank s → IsSound s → Follows s (endpoint_data bytes s)
unfolding endpoint_data store_data
endpoint_data-Follows bytes s b v =
    if_split {A = Display} (Follows s) (is_unexpected bytes s.pending) (λ _. kept s b)
      (λ waited.
        if_elim {A = Display} (Follows s)
          (ltb ((s.pending.received + length bytes) % u32_mod) s.pending.transfer_length) (kept s b)
          (finish_transfer-Follows
            (record s {
              transfer_buffer = write_at s.pending.received bytes s.transfer_buffer;
              pending = record (s.pending) {
                active = false;
                received = (s.pending.received + length bytes) % u32_mod;
              };
            })
            ((v.expected (is_active bytes s waited)).is_rgb565)))
  where
    is_active :
        (bytes : List ℕ) (s : Display)
        → is_unexpected bytes s.pending ≡ false
        → s.pending.active ≡ true
    is_active bytes s h = ground arith

pub call-Follows :
    (c : Call) (s : Display) (d : DeviceState) → IsBlank s → IsSound s → Follows s (call c s d).0
unfolding call reset
call-Follows (was_reset now) s d b v = (λ _. refl, λ same. cc)
call-Follows (control now setup bytes) s d b v = control_data-Follows s b d now setup bytes v
call-Follows (received bytes) s d b v = endpoint_data-Follows bytes s b v
