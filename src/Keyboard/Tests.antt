-- ===== src/Keyboard/Tests.antt =====
-- The keyboard at concrete characters.
use usbip_server.Prelude.{ℕ, ◌<◌, ◌≡◌, ◌⊎◌, arith, false, List, [], ◌∷◌, ◌++◌}
use usbip_server.Keyboard.{ascii_to_hid}
use usbip_server.Bulk.Fixtures.{idle}
use usbip_server.Keyboard.Typing.{read_reports}
use usbip_server.Keyboard.Loop.{request, loop_round, take_turns, texts, read_reports-take_turns}
use usbip_server.Keyboard.Layout.{typed, typed-ascii_to_hid}

abbrev question_mark : ℕ
question_mark = 63

-- Shift and 0x38.
typed-ascii_to_hid_example :
    (typed (ascii_to_hid question_mark) ≡ question_mark)
    ⊎ (((ascii_to_hid question_mark).keycode ≡ 0) × ((question_mark < 32) ⊎ (question_mark ≡ 127)))
typed-ascii_to_hid_example = typed-ascii_to_hid question_mark (omega arith)

-- The host configures the keyboard, and no text is typed twice.
read_reports-take_turns_example :
    let turns = loop_round ∷ request (0 ∷ 9 ∷ 1 ∷ []) [] ∷ loop_round ∷ loop_round ∷ [] in
    (reports : List (List ℕ)) × ((take_turns idle turns
        (record { configuration_active = false; sent = [] })).sent
      ≡ [] ++ reports)
    × (read_reports 0 reports ≡ texts false turns)
read_reports-take_turns_example =
    read_reports-take_turns idle
      (loop_round ∷ request (0 ∷ 9 ∷ 1 ∷ []) [] ∷ loop_round ∷ loop_round ∷ [])
      (record { configuration_active = false; sent = [] })
