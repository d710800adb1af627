-- ===== src/Display/Loop/Current.antt =====
-- The window of src/usb_gud_display/usb_gud_display_device.c shows the frame buffer as it is.
use usbip_server.Prelude.{
  ℕ, ◌≡◌, inl, refl, sym, ap, ◌∙◌, Bool, true, false, ◌&&◌, ◌||◌, List, [], ◌∷◌, if◌then◌else◌,
  if_split, length-replicate,
}
use usbip_server.Device.Buffers.{DeviceState}
use usbip_server.Display.{Display}
use usbip_server.Display.Pixels.{framebuffer_to_xrgb8888}
use usbip_server.Display.Sound.{IsSound}
use usbip_server.Display.Sound.Calls.{Call, call, call-IsSound}
use usbip_server.Display.Loop.{
  Main, show, differ, snapshot, update_window, display_is_on, main_round, Turn, called, loop_round,
  take_turn, take_turns, activated, opened,
}
use usbip_server.Display.Loop.Picture.{picture, picture-black, IsBlank, call-Follows}

-- What the main loop holds: the window shows `pixels`, and unless it is told of a change `frame` is the
-- frame buffer and `pixels` its picture.
abbrev Holds : Main → Display → Type 0
Holds m s =
    (m.shown ≡ show m.pixels m.shown_on)
    × (s.framebuffer_changed ≡ false → (m.frame ≡ s.framebuffer) × (m.pixels ≡ picture s))

abbrev Inv : Main → Display → Type 0
Inv m s = IsSound s × IsBlank s × Holds m s

-- What the window ought to show.
abbrev pub Shows : Main → Display → Type 0
Shows m s = m.shown ≡ show (picture s) (display_is_on s)

same_flag : (a b : Bool) → differ a b ≡ false → a ≡ b
same_flag true true h = refl
same_flag true false h = cc
same_flag false true h = cc
same_flag false false h = refl

quiet_round :
    (changed a b : Bool) → (true && (changed || differ a b)) ≡ false → (changed ≡ false) × (a ≡ b)
quiet_round true a b h = cc
quiet_round false a b h = (refl, same_flag a b h)

-- The frame that a round copies, or has.
copied :
    (m : Main) (s : Display)
    → Holds m s
    → (if s.framebuffer_changed then s.framebuffer else m.frame) ≡ s.framebuffer
copied m s h =
    if_split {A = List ℕ} (λ fb. fb ≡ s.framebuffer) s.framebuffer_changed (λ _. refl)
      (λ same. (h.1 same).0)

module _ (m : Main) (s : Display) (h : Holds m s) where
  -- Of what is left by a round, everything is as it ought to be.
  abbrev IsCurrent : Main → Type 0
  IsCurrent n =
      (n.shown ≡ show n.pixels n.shown_on)
      × (n.frame ≡ s.framebuffer)
      × (n.pixels ≡ picture s)
      × Shows n s

  update_window-IsCurrent : IsCurrent (
      update_window true s.framebuffer_changed
        (display_is_on s)
        s.current_format
        (record m { frame = if s.framebuffer_changed then s.framebuffer else m.frame }))
  unfolding update_window
  update_window-IsCurrent =
      if_split {A = Main} IsCurrent
        (true && (s.framebuffer_changed || differ (display_is_on s) m.shown_on))
        (λ _. (refl, fresh, drawn, ap (λ pixels. show pixels (display_is_on s)) drawn))
        (λ quiet.
          let (same, on) = quiet_round s.framebuffer_changed (display_is_on s) m.shown_on quiet in
          let pixels = (h.1 same).1 in
          (
            h.0,
            fresh,
            pixels,
            h.0 ∙ ap (λ ps. show ps m.shown_on) pixels ∙ ap (λ b. show (picture s) b) (sym on),
          ))
    where
      fresh : (if s.framebuffer_changed then s.framebuffer else m.frame) ≡ s.framebuffer
      fresh = copied m s h

      drawn :
          framebuffer_to_xrgb8888
            (if s.framebuffer_changed then s.framebuffer else m.frame)
            s.current_format
          ≡ picture s
      drawn = ap (λ fb. framebuffer_to_xrgb8888 fb s.current_format) fresh

main_round-Inv :
    (print_stats : Bool) (m : Main) (s : Display)
    → Inv m s
    → let (m', s') = main_round true print_stats m s in Inv m' s' × Shows m' s'
unfolding main_round snapshot
main_round-Inv print_stats m s (v, b, h) =
    let (shown, frame, pixels, shows) = update_window-IsCurrent m s h in
    (
      (
        record {
          transfer_room = v.transfer_room;
          frame_room = v.frame_room;
          format_known = v.format_known;
          checked_known = v.checked_known;
          expected = v.expected;
        },
        b,
        (shown, λ _. (frame, pixels)),
      ),
      shows,
    )

call-Inv : (c : Call) (m : Main) (s : Display) (d : DeviceState) → Inv m s → Inv m (call c s d).0
call-Inv c m s d (v, b, h) =
    let (b', follows) = call-Follows c s d b v in
    (
      call-IsSound c s d v,
      b',
      (
        h.0,
        λ same.
            let (before, fb, shown) = follows same in
            let (frame, pixels) = h.1 before in (frame ∙ sym fb, pixels ∙ sym shown),
      ),
    )

take_turns-Inv :
    (turns : List Turn) (m : Main) (s : Display) (d : DeviceState)
    → Inv m s
    → let (m', s', d') = take_turns turns m s d in Inv m' s'
unfolding take_turns take_turn
take_turns-Inv [] m s d i = i
take_turns-Inv (called c ∷ turns) m s d i =
    take_turns-Inv turns m (call c s d).0 (call c s d).1 (call-Inv c m s d i)
take_turns-Inv (loop_round print_stats ∷ turns) m s d i =
    let r = main_round true print_stats m s in
    take_turns-Inv turns r.0 r.1 d (main_round-Inv print_stats m s i).0

activated-Inv : Inv opened activated
activated-Inv = (
  record {
    transfer_room = length-replicate 65536 0;
    frame_room = length-replicate 307200 0;
    format_known = inl refl;
    checked_known = λ on. cc;
    expected = λ on. cc;
  },
  λ _. refl,
  (refl, λ _. (refl, sym (picture-black))),
)

-- The window is never out of date: whatever the host does between the rounds of the main loop, after each
-- round it shows the picture that the frame buffer holds, or black when the display is off.
pub main_round-Shows :
    (turns : List Turn) (d : DeviceState) (print_stats : Bool)
    → let (m, s, d') = take_turns turns opened activated d in
      let (m', s') = main_round true print_stats m s in Shows m' s'
main_round-Shows turns d print_stats =
    let r = take_turns turns opened activated d in
    (main_round-Inv print_stats r.0 r.1 (take_turns-Inv turns opened activated d activated-Inv)).1
