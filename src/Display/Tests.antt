-- ===== src/Display/Tests.antt =====
-- The GUD display at concrete inputs.
use usbip_server.Prelude.{
  ℕ, ◌≡◌, refl, true, false, List, [], ◌∷◌, arith, length, replicate, inl, inr, byte,
  length-replicate,
}
use usbip_server.Device.Buffers.{DeviceState}
use usbip_server.Display.{Display, set_buffer, status_ok}
use usbip_server.Display.Pieces.{Drawn, send_all}
use usbip_server.Display.Pieces.Update.{set_buffer-Drawn}
use usbip_server.Display.Rectangle.{SetBufferReq, read_set_buffer_req, store_rectangle}
use usbip_server.Display.Rectangle.Shown.{shown, store_rectangle-shown}
use usbip_server.Display.Pixels.{framebuffer_to_xrgb8888, narrow, framebuffer_to_xrgb8888_lem}
use usbip_server.Display.Sound.{IsSound}
use usbip_server.Display.Window.{Sdl, use_window, use_window-Gone}
use usbip_server.Display.Loop.{Turn, called, loop_round, take_turns, main_round, opened, activated}
use usbip_server.Display.Loop.Current.{Shows, main_round-Shows}
use usbip_server.Display.Sound.Calls.{control, Call, call_all, call_all-IsSound}

abbrev no_rectangle : SetBufferReq
no_rectangle = record {
  x = 0;
  y = 0;
  width = 0;
  height = 0;
  length = 0;
  compression = 0;
  compressed_length = 0;
}

-- The static variables before the first call.
abbrev start : Display
start = record {
  last_status = 0;
  attached_ms = 0;
  state_checked = false;
  checked_state = record { mode = []; format = 0; connector = 0 };
  current_format = 0;
  controller_enabled = false;
  display_enabled = false;
  pending = record { active = false; req = no_rectangle; transfer_length = 0; received = 0 };
  transfer_buffer = replicate 65536 0;
  framebuffer = replicate 307200 0;
  framebuffer_changed = false;
  stats_updates = 0;
  stats_bytes = 0;
  stats_errors = 0;
  stats_last_rect = no_rectangle;
}

abbrev idle : DeviceState
idle = record {
  endpoint_data = λ ep. [];
  device_stopped = false;
  configuration_value = 1;
  control_answered = false;
  reset_generation = 0;
  event_pending = false;
  broadcasts = 0;
}

start-IsSound : IsSound start
start-IsSound = record {
  transfer_room = length-replicate 65536 0;
  frame_room = length-replicate 307200 0;
  format_known = inl refl;
  checked_known = λ on. cc;
  expected = λ on. cc;
}

-- A reset, the request for the formats, and data that nothing announced.
abbrev calls : List Call
calls =
    Call.was_reset 100
    ∷ Call.control 200 (0xc1 ∷ 0x40 ∷ 0 ∷ 0 ∷ 0 ∷ 0 ∷ 1 ∷ 0 ∷ []) []
    ∷ Call.received (1 ∷ 2 ∷ [])
    ∷ []

call_all-IsSound_example : IsSound (call_all calls start idle).0
call_all-IsSound_example = call_all-IsSound calls start idle start-IsSound

-- One pixel at (1, 1).
abbrev dot : SetBufferReq
dot = record no_rectangle { x = 1; y = 1; width = 1; height = 1; length = 2 }

store_rectangle-shown_example :
    let (changed, framebuffer') = store_rectangle 0x40 dot (7 ∷ 8 ∷ []) (replicate 307200 0) in
    (changed ≡ true)
    × (byte framebuffer' 643 ≡ shown dot (7 ∷ 8 ∷ []) (replicate 307200 0) 643)
    × (length framebuffer' ≡ length {A = ℕ} (replicate 307200 0))
store_rectangle-shown_example =
    store_rectangle-shown dot (7 ∷ 8 ∷ []) (replicate 307200 0) 643 (omega arith, omega arith)
      (omega arith) (omega (arith, length-replicate 307200 (zero_byte)))
  where
    zero_byte : ℕ
    zero_byte = 0

dot_run : shown dot (7 ∷ 8 ∷ []) [] 643 ≡ 8
unfolding shown
dot_run = refl

framebuffer_to_xrgb8888_lem_example :
    narrow (byte (framebuffer_to_xrgb8888 (0x1f ∷ 0xf8 ∷ []) 0x40) 0) ≡ 0xf81f
framebuffer_to_xrgb8888_lem_example =
    framebuffer_to_xrgb8888_lem (0x1f ∷ 0xf8 ∷ []) 0 (omega arith) (omega arith)

-- Two pixels from pixel 1 of the first line, four bytes.
abbrev two_pixels : List ℕ
two_pixels =
    1 ∷ 0 ∷ 0 ∷ 0 ∷ 0 ∷ 0 ∷ 0 ∷ 0 ∷ 2 ∷ 0 ∷ 0 ∷ 0 ∷ 1 ∷ 0 ∷ 0 ∷ 0 ∷ 4 ∷ 0 ∷ 0 ∷ 0 ∷ 0 ∷ 0 ∷ 0 ∷ 0
    ∷ 0 ∷ []

abbrev attached : Display
attached = record start { current_format = 0x40 }

attached-IsSound : IsSound attached
attached-IsSound = record {
  transfer_room = length-replicate 65536 0;
  frame_room = length-replicate 307200 0;
  format_known = inr refl;
  checked_known = λ on. cc;
  expected = λ on. cc;
}

two_pixels_accepted : (set_buffer two_pixels attached).0 ≡ status_ok
unfolding set_buffer
two_pixels_accepted = refl

set_buffer-Drawn_example :
    let s' = (set_buffer two_pixels attached).1 in
    (s'.pending.req ≡ read_set_buffer_req two_pixels)
    × (s'.framebuffer ≡ attached.framebuffer)
    × Drawn s' (7 ∷ 8 ∷ 9 ∷ 10 ∷ []) (send_all ((7 ∷ 8 ∷ 9 ∷ []) ∷ (10 ∷ []) ∷ []) s')
unfolding read_set_buffer_req
set_buffer-Drawn_example =
    set_buffer-Drawn two_pixels ((7 ∷ 8 ∷ 9 ∷ []) ∷ (10 ∷ []) ∷ []) attached attached-IsSound
      two_pixels_accepted (omega arith, (omega arith, tt)) (omega arith)

-- The host enables the controller and the display.
abbrev enabled : List Turn
enabled =
    called (control 0 (0x41 ∷ 0x63 ∷ 0 ∷ 0 ∷ 0 ∷ 0 ∷ []) (1 ∷ []))
    ∷ loop_round false
    ∷ called (control 0 (0x41 ∷ 0x64 ∷ 0 ∷ 0 ∷ 0 ∷ 0 ∷ []) (1 ∷ []))
    ∷ []

main_round-Shows_example :
    let (m, s, d) = take_turns enabled opened activated idle in
    let (m', s') = main_round true true m s in Shows m' s'
main_round-Shows_example = main_round-Shows enabled idle true

-- There is no renderer.
abbrev no_renderer : Sdl
no_renderer = record {
  init = true;
  create_window = true;
  create_renderer = false;
  create_texture = true;
}

use_window-Gone_example :
    let w = use_window no_renderer 320 [] in
    (w.windows ≡ 0) × (w.renderers ≡ 0) × (w.textures ≡ 0) × (w.running ≡ false)
use_window-Gone_example = use_window-Gone no_renderer 320 []
