-- ===== src/Keyboard/Loop.antt =====
-- The main loop of src/usb_keyboard/usb_keyboard_device.c: the text is typed when the host has fetched the
-- report descriptor.
use usbip_server.Prelude.{
  ℕ, ◌≡◌, refl, ap, sym, ◌∙◌, Bool, true, false, not, ◌&&◌, List, [], ◌∷◌, ◌++◌, arith, All, byte,
  ◌==◌, if◌then◌else◌, if_elim, if_split, append_assoc, append-nil,
}
use usbip_server.Device.Api.{Action}
use usbip_server.Device.Buffers.{DeviceState, run}
use usbip_server.Protocol.Messages.{codes}
use usbip_server.Keyboard.Typing.{type_text, read_reports, IsPrintable, read_reports-type_text}
use usbip_server.Keyboard.Usb.{control_data}

-- `typing_string`
abbrev pub typing_string : List ℕ
typing_string = codes "Who is typing..."

-- `configuration_active`, and the reports that are transmitted so far.
pub record MainLoop : Type 0 where
  pub configuration_active : Bool
  pub sent : List (List ℕ)

-- The inner loop's round, and the text after it if the flag was set.
unfoldable pub main_round : MainLoop → MainLoop
main_round s = record {
  configuration_active = false;
  sent = if s.configuration_active then s.sent ++ type_text typing_string else s.sent;
}

-- A control request of the host, or a round.
pub data Turn : Type 0 where
  request : List ℕ → List ℕ → Turn
  loop_round : Turn

unfoldable pub take_turn : DeviceState → Turn → MainLoop → MainLoop
unfolding control_data run main_round
take_turn d (request setup bytes) s = record s {
  configuration_active = (run (control_data s.configuration_active setup bytes) d).0;
}
take_turn d loop_round s = main_round s

-- The first turn is the first.
unfoldable pub take_turns : DeviceState → List Turn → MainLoop → MainLoop
unfolding take_turn
take_turns d [] s = s
take_turns d (turn ∷ turns) s = take_turns d turns (take_turn d turn s)

-- SET_CONFIGURATION says whether the keyboard is configured; other requests do not.
abbrev pub configures : List ℕ → Bool → Bool
configures setup active =
    if byte setup 0 == 0 && byte setup 1 == 9 then not (byte setup 2 == 0) else active

-- What the host ought to read: the text once for each round that finds the keyboard newly configured.
abbrev pub texts : Bool → List Turn → List ℕ
texts active [] = []
texts active (request setup bytes ∷ turns) = texts (configures setup active) turns
texts active (loop_round ∷ turns) = (if active then typing_string else []) ++ texts false turns

typing_string-IsPrintable : All IsPrintable typing_string
typing_string-IsPrintable = ground arith

control_data-configures :
    (d : DeviceState) (active : Bool) (setup bytes : List ℕ)
    → (run (control_data active setup bytes) d).0 ≡ configures setup active
unfolding control_data run
control_data-configures d active setup bytes =
    if_split {A = Action Bool} (λ a. (run a d).0 ≡ configures setup active)
      (byte setup 0 == 0x81 && byte setup 1 == 6)
      (λ get.
        let other : (byte setup 0 == 0 && byte setup 1 == 9) ≡ false = ground arith in
        if_elim {A = Action Bool} (λ a. (run a d).0 ≡ configures setup active)
          (byte setup 3 == 0x22) (rw other refl) (rw other refl))
      (λ _.
        if_split {A = Action Bool} (λ a. (run a d).0 ≡ configures setup active)
          (byte setup 0 == 0 && byte setup 1 == 9) (λ set. rw set refl) (λ other. rw other refl))

-- The reports of a round.
abbrev round_reports : Bool → List (List ℕ)
round_reports active = if active then type_text typing_string else []

main_round-sent :
    (s : MainLoop) → (main_round s).sent ≡ s.sent ++ round_reports s.configuration_active
unfolding main_round
main_round-sent s = by_flag s.configuration_active s.sent
  where
    by_flag :
        (active : Bool) (sent : List (List ℕ))
        → (if active then sent ++ type_text typing_string else sent) ≡ sent ++ round_reports active
    by_flag true sent = refl
    by_flag false sent = sym (append-nil sent)

read_reports-round_reports :
    (active : Bool) (reports : List (List ℕ))
    → read_reports 0 (round_reports active ++ reports)
      ≡ (if active then typing_string else []) ++ read_reports 0 reports
read_reports-round_reports true reports =
    read_reports-type_text typing_string reports typing_string-IsPrintable
read_reports-round_reports false reports = refl

-- Whatever requests the host makes between the rounds of the main loop, what it reads from the reports that
-- are sent, where a key counts when it is pressed and not while it stays down, is the text once for each
-- round that finds the keyboard configured since the round before, and nothing else.
pub read_reports-take_turns :
    (d : DeviceState) (turns : List Turn) (s : MainLoop)
    → (reports : List (List ℕ)) × ((take_turns d turns s).sent ≡ s.sent ++ reports)
      × (read_reports 0 reports ≡ texts s.configuration_active turns)
unfolding take_turns take_turn main_round read_reports
read_reports-take_turns d [] s = ([], sym (append-nil s.sent), refl)
read_reports-take_turns d (request setup bytes ∷ turns) s =
    let (reports, sent, read) = read_reports-take_turns d turns (record s {
      configuration_active = (run (control_data s.configuration_active setup bytes) d).0;
    }) in
    (
      reports,
      sent,
      read
          ∙ ap (λ active. texts active turns)
              (control_data-configures d s.configuration_active setup bytes),
    )
read_reports-take_turns d (loop_round ∷ turns) s =
    let (reports, sent, read) = read_reports-take_turns d turns (main_round s) in
    let typed_now = round_reports s.configuration_active in
    (
      typed_now ++ reports,
      sent ∙ ap (λ xs. xs ++ reports) (main_round-sent s) ∙ append_assoc s.sent typed_now reports,
      read_reports-round_reports s.configuration_active reports
          ∙ ap (λ text. (if s.configuration_active then typing_string else []) ++ text) read,
    )
