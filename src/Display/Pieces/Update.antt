-- ===== src/Display/Pieces/Update.antt =====
-- A whole update of the GUD display: GUD_REQ_SET_BUFFER and the transfers that follow it.
use mathlib.Core.Path.{subst}
use usbip_server.Prelude.{
  joined, ◌++◌, ℕ, ◌≡◌, refl, true, not, List, arith, All, length, take, ◌==◌, if_elim,
}
use usbip_server.Display.{Display, status_ok, transfer_size, is_acceptable, set_buffer}
use usbip_server.Display.Rectangle.{read_set_buffer_req}
use usbip_server.Display.Sound.{IsSound, set_buffer-IsSound}
use usbip_server.Display.Pieces.{send_all, IsSome, Drawn, send_all-Drawn}

-- The transfer of the rectangle begins, and the display shows what it showed before.
abbrev pub Begun : List ℕ → Display → Display → Type 0
Begun bytes s s' =
    (s'.pending.active ≡ true)
    × (s'.pending.req ≡ read_set_buffer_req bytes)
    × (s'.pending.received ≡ 0)
    × (s'.pending.transfer_length ≡ transfer_size (read_set_buffer_req bytes))
    × (s'.framebuffer ≡ s.framebuffer)

accepted-Begun :
    (bytes : List ℕ) (s : Display)
    → (set_buffer bytes s).0 ≡ status_ok
    → Begun bytes s (set_buffer bytes s).1
unfolding set_buffer
accepted-Begun bytes s =
    if_elim {A = ℕ × Display} (λ r. r.0 ≡ status_ok → Begun bytes s r.1) (not (length bytes == 25))
      (λ bad. absurd (omega (arith, bad)))
      (if_elim {A = ℕ × Display} (λ r. r.0 ≡ status_ok → Begun bytes s r.1)
        (is_acceptable s.current_format (read_set_buffer_req bytes))
        (λ _. (refl, refl, refl, refl, refl)) (λ bad. absurd (omega (arith, bad))))

-- A rectangle that the display accepts by GUD_REQ_SET_BUFFER and whose pixels reach it in any number of
-- pieces, none of them empty, is shown when the last has come: every byte of the frame buffer is that of
-- the pixels received if it is in the rectangle, and as before the request if not.
pub set_buffer-Drawn :
    (bytes : List ℕ) (pieces : List (List ℕ)) (s : Display)
    → IsSound s
    → (set_buffer bytes s).0 ≡ status_ok
    → All IsSome pieces
    → length (joined pieces) ≡ transfer_size (read_set_buffer_req bytes)
    → let s' = (set_buffer bytes s).1 in
      (s'.pending.req ≡ read_set_buffer_req bytes)
      × (s'.framebuffer ≡ s.framebuffer)
      × Drawn s' (joined pieces) (send_all pieces s')
unfolding take
set_buffer-Drawn bytes pieces s v ok some_ all =
    let (active, req, none_, size, frame) = accepted-Begun bytes s ok in
    (
      req,
      frame,
      subst (λ n. Drawn s' (take n s'.transfer_buffer ++ joined pieces) (send_all pieces s')) none_
          (send_all-Drawn pieces s' (set_buffer-IsSound bytes s v) active some_
            (omega (arith, none_, size, all))),
    )
  where
    s' : Display
    s' = (set_buffer bytes s).1
