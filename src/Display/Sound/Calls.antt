-- ===== src/Display/Sound/Calls.antt =====
-- The calls that the server makes to the GUD display, in any order.
use usbip_server.Prelude.{
  ℕ, refl, Bool, not, ◌&&◌, List, [], ◌∷◌, inl, if_elim, ◌==◌, byte, le16, length-replicate,
}
use usbip_server.Device.Api.{Action, done, transmit}
use usbip_server.Device.Buffers.{DeviceState, run}
use usbip_server.Display.{Display, set_enable, set_request, endpoint_data, reset}
use usbip_server.Display.Answers.{answer, connector_request, get_request, control_data}
use usbip_server.Display.Sound.{
  IsSound, set_buffer-IsSound, set_state_check-IsSound, set_state_commit-IsSound,
}
use usbip_server.Display.Sound.Data.{endpoint_data-IsSound}

-- A call of one of the display's callbacks, with the time at which it is made.
pub data Call : Type 0 where
  was_reset : (now : ℕ) → Call
  control : (now : ℕ) (setup bytes : List ℕ) → Call
  received : (bytes : List ℕ) → Call

unfoldable pub call : Call → Display → DeviceState → Display × DeviceState
unfolding reset control_data run endpoint_data
call (was_reset now) s d = (reset now s, d)
call (control now setup bytes) s d = run (control_data now s setup bytes) d
call (received bytes) s d = (endpoint_data bytes s, d)

unfoldable pub call_all : List Call → Display → DeviceState → Display × DeviceState
unfolding call
call_all [] s d = (s, d)
call_all (c ∷ cs) s d = let (s', d') = call c s d in call_all cs s' d'

-- These fields are free.
flags-IsSound :
    (status : ℕ) (c d : Bool) (s : Display)
    → IsSound s
    → IsSound (record s { last_status = status; controller_enabled = c; display_enabled = d })
flags-IsSound status c d s v = record {
  transfer_room = v.transfer_room;
  frame_room = v.frame_room;
  format_known = v.format_known;
  checked_known = v.checked_known;
  expected = v.expected;
}

with_status-IsSound : (r : ℕ × Display) → IsSound r.1 → IsSound (record (r.1) { last_status = r.0 })
with_status-IsSound r v = flags-IsSound r.0 r.1.controller_enabled r.1.display_enabled r.1 v

set_request-IsSound :
    (b_request : ℕ) (bytes : List ℕ) (s : Display)
    → IsSound s
    → IsSound (set_request b_request bytes s)
unfolding set_request
set_request-IsSound b bytes s v =
    if_elim {A = Display} IsSound (b == 0x53)
      (flags-IsSound 0 s.controller_enabled s.display_enabled s v)
      (if_elim {A = Display} IsSound (b == 0x60)
        (with_status-IsSound _ (set_buffer-IsSound bytes s v))
        (if_elim {A = Display} IsSound (b == 0x61)
          (with_status-IsSound _ (set_state_check-IsSound bytes s v))
          (if_elim {A = Display} IsSound (b == 0x62)
            (with_status-IsSound _ (set_state_commit-IsSound s v))
            (if_elim {A = Display} IsSound (b == 0x63)
              (flags-IsSound _ (set_enable bytes s.controller_enabled).1 s.display_enabled s v)
              (if_elim {A = Display} IsSound (b == 0x64)
                (flags-IsSound _ s.controller_enabled (set_enable bytes s.display_enabled).1 s v)
                (flags-IsSound 2 s.controller_enabled s.display_enabled s v))))))

module _ (d : DeviceState) where
  -- What an action leaves is sound.
  abbrev EndsSound : Action Display → Type 0
  EndsSound act = IsSound (run act d).0

  answer-IsSound : (bytes : List ℕ) (s : Display) → IsSound s → EndsSound (answer bytes s)
  unfolding answer run
  answer-IsSound bytes s v = flags-IsSound 0 s.controller_enabled s.display_enabled s v

  failed-IsSound :
      (status : ℕ) (s : Display) → IsSound s → EndsSound (done (record s { last_status = status }))
  unfolding run
  failed-IsSound status s v = flags-IsSound status s.controller_enabled s.display_enabled s v

  unchanged-IsSound :
      (bytes : List ℕ) (s : Display) → IsSound s → EndsSound (transmit 0 bytes (λ stored. done s))
  unfolding run
  unchanged-IsSound bytes s v = v

  connector_request-IsSound :
      (now b w : ℕ) (s : Display) → IsSound s → EndsSound (connector_request now b w s)
  unfolding connector_request
  connector_request-IsSound now b w s v =
      if_elim {A = Action Display} EndsSound (not (w == 0)) (failed-IsSound 4 s v) (
        if_elim {A = Action Display} EndsSound (b == 0x51) (answer-IsSound [] s v) (
          if_elim {A = Action Display} EndsSound (b == 0x54) (answer-IsSound _ s v) (
            if_elim {A = Action Display} EndsSound (b == 0x55) (answer-IsSound _ s v)
              (failed-IsSound 2 s v))))

  get_request-IsSound : (now b w : ℕ) (s : Display) → IsSound s → EndsSound (get_request now b w s)
  unfolding get_request
  get_request-IsSound now b w s v =
      if_elim {A = Action Display} EndsSound (b == 0x00) (unchanged-IsSound _ s v) (
        if_elim {A = Action Display} EndsSound (b == 0x01) (answer-IsSound _ s v) (
          if_elim {A = Action Display} EndsSound (b == 0x40) (answer-IsSound _ s v) (
            if_elim {A = Action Display} EndsSound (b == 0x41) (answer-IsSound _ s v) (
              if_elim {A = Action Display} EndsSound (b == 0x50) (answer-IsSound _ s v)
                (connector_request-IsSound now b w s v)))))

  control_data-IsSound :
      (now : ℕ) (setup bytes : List ℕ) (s : Display)
      → IsSound s
      → EndsSound (control_data now s setup bytes)
  unfolding control_data run
  control_data-IsSound now setup bytes s v =
      if_elim {A = Action Display} EndsSound
        (not (byte setup 0 == 0xc1) && not (byte setup 0 == 0x41)) v
        (if_elim {A = Action Display} EndsSound (not (le16 setup 4 == 0)) (failed-IsSound 4 s v) (
          if_elim {A = Action Display} EndsSound (byte setup 0 == 0xc1)
            (get_request-IsSound now (byte setup 1) (le16 setup 2) s v)
            (set_request-IsSound (byte setup 1) bytes s v)))

reset-IsSound : (now : ℕ) (s : Display) → IsSound s → IsSound (reset now s)
unfolding reset
reset-IsSound now s v = record {
  transfer_room = v.transfer_room;
  frame_room = length-replicate 307200 0;
  format_known = inl refl;
  checked_known = λ on. cc;
  expected = λ on. cc;
}

pub call-IsSound : (c : Call) (s : Display) (d : DeviceState) → IsSound s → IsSound (call c s d).0
unfolding call
call-IsSound (was_reset now) s d v = reset-IsSound now s v
call-IsSound (control now setup bytes) s d v = control_data-IsSound d now setup bytes s v
call-IsSound (received bytes) s d v = endpoint_data-IsSound bytes s v

-- Whatever the host sends and in whatever order, the display's buffers keep their sizes, and a transfer
-- that the display waits for is an uncompressed RGB565 rectangle inside the display that fits the
-- transfer buffer, also when the host changes the state after it announced the rectangle.
pub call_all-IsSound :
    (cs : List Call) (s : Display) (d : DeviceState) → IsSound s → IsSound (call_all cs s d).0
unfolding call_all
call_all-IsSound [] s d v = v
call_all-IsSound (c ∷ cs) s d v =
    call_all-IsSound cs (call c s d).0 (call c s d).1 (call-IsSound c s d v)
