-- ===== src/Keyboard.antt =====
-- The keyboard example device, src/usb_keyboard: which key types a character.
mod Layout
mod Tests
pub mod Usb
pub mod Typing
pub mod Loop
use usbip_server.Prelude.{ℕ, ◌+◌, ◌-◌, ◌&&◌, List, [], ◌∷◌, leb, ◌==◌, if◌then◌else◌}

-- `hid_key_t`
pub record HidKey : Type 0 where
  pub keycode : ℕ
  pub modifier : ℕ

-- MOD_LSHIFT
abbrev pub mod_lshift : ℕ
mod_lshift = 2

-- One `case` of the switch: the character and its key, plain or with shift.
abbrev pub plain : ℕ → ℕ → ℕ × HidKey
plain c keycode = (c, record { keycode = keycode; modifier = 0 })

abbrev shifted : ℕ → ℕ → ℕ × HidKey
shifted c keycode = (c, record { keycode = keycode; modifier = mod_lshift })

-- The switch: Enter, Backspace, Tab, Space, symbols, shifted symbols.
abbrev symbols : List (ℕ × HidKey)
symbols =
    plain 10 0x28
    ∷ plain 8 0x2a
    ∷ plain 9 0x2b
    ∷ plain 32 0x2c
    ∷ plain 45 0x2d
    ∷ plain 61 0x2e
    ∷ plain 91 0x2f
    ∷ plain 93 0x30
    ∷ plain 92 0x31
    ∷ plain 59 0x33
    ∷ plain 39 0x34
    ∷ plain 96 0x35
    ∷ plain 44 0x36
    ∷ plain 46 0x37
    ∷ plain 47 0x38
    ∷ shifted 33 0x1e
    ∷ shifted 64 0x1f
    ∷ shifted 35 0x20
    ∷ shifted 36 0x21
    ∷ shifted 37 0x22
    ∷ shifted 94 0x23
    ∷ shifted 38 0x24
    ∷ shifted 42 0x25
    ∷ shifted 40 0x26
    ∷ shifted 41 0x27
    ∷ shifted 95 0x2d
    ∷ shifted 43 0x2e
    ∷ shifted 123 0x2f
    ∷ shifted 125 0x30
    ∷ shifted 124 0x31
    ∷ shifted 58 0x33
    ∷ shifted 34 0x34
    ∷ shifted 126 0x35
    ∷ shifted 60 0x36
    ∷ shifted 62 0x37
    ∷ shifted 63 0x38
    ∷ []

-- The `case` of a character, or `default`.
abbrev find_symbol : ℕ → List (ℕ × HidKey) → HidKey
find_symbol c [] = record { keycode = 0; modifier = 0 }
find_symbol c ((c', key) ∷ cases) = if c == c' then key else find_symbol c cases

-- `ascii_to_hid`
unfoldable pub ascii_to_hid : ℕ → HidKey
ascii_to_hid c =
    if leb 97 c && leb c 122
    then record { keycode = c - 97 + 0x04; modifier = 0 }
    else if leb 65 c && leb c 90
    then record { keycode = c - 65 + 0x04; modifier = mod_lshift }
    else if leb 49 c && leb c 57
    then record { keycode = c - 49 + 0x1e; modifier = 0 }
    else if c == 48
    then record { keycode = 0x27; modifier = 0 }
    else find_symbol c symbols
