-- ===== src/Display/Loop.antt =====
-- The main loop of src/usb_gud_display/usb_gud_display_device.c, which shows the frame buffer in a window.
pub mod Picture
pub mod Current
use usbip_server.Prelude.{
  ℕ, ◌+◌, ◌*◌, Bool, true, false, not, ◌&&◌, ◌||◌, Option, none, some, List, [], ◌∷◌, if◌then◌else◌,
  replicate,
}
use usbip_server.Device.Buffers.{DeviceState}
use usbip_server.Display.{Display, StateReq, PendingBuffer}
use usbip_server.Display.Rectangle.{SetBufferReq, display_width, display_height}
use usbip_server.Display.Pixels.{framebuffer_to_xrgb8888}
use usbip_server.Display.Sound.Calls.{Call, call}

-- `frame`, `pixels` and `shown_on`, and what `gud_display_window_show` put in the window last: `none` is
-- black.
pub record Main : Type 0 where
  pub frame : List ℕ
  pub pixels : List ℕ
  pub shown_on : Bool
  pub shown : Option (List ℕ)

-- `gud_display_window_show`
abbrev pub show : List ℕ → Bool → Option (List ℕ)
show pixels display_on = if display_on then some pixels else none

abbrev pub differ : Bool → Bool → Bool
differ a b = if a then not b else b

-- The critical section: the frame is copied when it has changed, and the statistics are taken.
unfoldable pub snapshot : (print_stats : Bool) → Main → Display → Main × Display
snapshot print_stats m s =
    let frame' = if s.framebuffer_changed then s.framebuffer else m.frame in
    (
      record m { frame = frame' },
      record s {
        framebuffer_changed = false;
        stats_updates = if print_stats then 0 else s.stats_updates;
        stats_bytes = if print_stats then 0 else s.stats_bytes;
        stats_errors = if print_stats then 0 else s.stats_errors;
      },
    )

-- What is shown after it, with the values that were read in it.
unfoldable pub update_window : (window_open changed display_on : Bool) → (format : ℕ) → Main → Main
update_window window_open changed display_on format m =
    if window_open && (changed || differ display_on m.shown_on)
    then (let pixels' = framebuffer_to_xrgb8888 m.frame format in
        record m { pixels = pixels'; shown_on = display_on; shown = show pixels' display_on })
    else m

abbrev pub display_is_on : Display → Bool
display_is_on s = s.controller_enabled && s.display_enabled

-- One round of the loop.
unfoldable pub main_round : (window_open print_stats : Bool) → Main → Display → Main × Display
unfolding snapshot update_window
main_round window_open print_stats m s =
    let (m', s') = snapshot print_stats m s in
    (update_window window_open s.framebuffer_changed (display_is_on s) s.current_format m', s')

-- A callback, or a round of the main loop with an open window.
pub data Turn : Type 0 where
  called : Call → Turn
  loop_round : (print_stats : Bool) → Turn

unfoldable pub take_turn : Turn → Main → Display → DeviceState → Main × Display × DeviceState
unfolding call main_round
take_turn (called c) m s d = let (s', d') = call c s d in (m, s', d')
take_turn (loop_round print_stats) m s d =
    let (m', s') = main_round true print_stats m s in (m', s', d)

unfoldable pub take_turns : List Turn → Main → Display → DeviceState → Main × Display × DeviceState
unfolding take_turn
take_turns [] m s d = (m, s, d)
take_turns (turn ∷ turns) m s d =
    let (m', s', d') = take_turn turn m s d in take_turns turns m' s' d'

-- The variables as they start, with the window just opened.
abbrev pub blank : List ℕ
blank = replicate (display_width * display_height * 4) 0

abbrev no_rect : SetBufferReq
no_rect = record {
  x = 0;
  y = 0;
  width = 0;
  height = 0;
  length = 0;
  compression = 0;
  compressed_length = 0;
}

abbrev pub activated : Display
activated = record {
  last_status = 0;
  attached_ms = 0;
  state_checked = false;
  checked_state = record { mode = replicate 24 0; format = 0; connector = 0 };
  current_format = 0;
  controller_enabled = false;
  display_enabled = false;
  pending = record { active = false; req = no_rect; transfer_length = 0; received = 0 };
  transfer_buffer = replicate 65536 0;
  framebuffer = blank;
  framebuffer_changed = false;
  stats_updates = 0;
  stats_bytes = 0;
  stats_errors = 0;
  stats_last_rect = no_rect;
}

abbrev pub opened : Main
opened = record {
  frame = blank;
  pixels = replicate (display_width * display_height) 0;
  shown_on = false;
  shown = none;
}
