-- ===== src/Keyboard/Layout.antt =====
-- The keys of a US keyboard, for src/usb_keyboard.
use usbip_server.Prelude.{
  ℕ, zero, suc, ◌-◌, ◌<◌, ◌≡◌, ◌⊎◌, refl, Bool, true, ◌&&◌, ◌||◌, ◌∷◌, ◌++◌, List, arith, byte, ltb,
  ◌==◌, if◌then◌else◌,
}
use usbip_server.Protocol.Messages.{codes}
use usbip_server.Keyboard.{HidKey, mod_lshift, ascii_to_hid}

-- What the keys from 0x04 on type on a US keyboard, without shift and with it. 0 is no character: 0x29 is
-- Escape, 0x32 is on other keyboards, and shift changes nothing on 0x28, 0x2A, 0x2B and 0x2C.
abbrev unshifted_keys : List ℕ
unshifted_keys =
    codes "abcdefghijklmnopqrstuvwxyz1234567890"
    ++ 10 ∷ 0 ∷ 8 ∷ 9 ∷ codes " -=[]\\"
    ++ 0 ∷ codes ";'`,./"

abbrev shifted_keys : List ℕ
shifted_keys =
    codes "ABCDEFGHIJKLMNOPQRSTUVWXYZ!@#$%^&*()"
    ++ 0 ∷ 0 ∷ 0 ∷ 0 ∷ 0 ∷ codes "_+{}|"
    ++ 0 ∷ codes ":\"~<>?"

-- The character that a report types, 0 for none.
unfoldable pub typed : HidKey → ℕ
typed key =
    if key.keycode == 0
    then 0
    else if key.modifier == mod_lshift
    then byte shifted_keys (key.keycode - 4)
    else byte unshifted_keys (key.keycode - 4)

abbrev is_right : ℕ → Bool
is_right c =
    typed (ascii_to_hid c) == c || ((ascii_to_hid c).keycode == 0 && (ltb c 32 || c == 127))

unfoldable all_right : ℕ → Bool
all_right zero = true
all_right (suc n) = is_right n && all_right n

all_right_lem : (n c : ℕ) → all_right n ≡ true → c < n → is_right c ≡ true
unfolding all_right
all_right_lem zero c h lt = absurd (omega arith)
all_right_lem (suc n) c h lt = ground (arith, all_right_lem n c)

all_right_128 : all_right 128 ≡ true
unfolding all_right ascii_to_hid typed
all_right_128 = refl

-- The report for an ASCII character types that character on a US keyboard, or the character is a control
-- character and has no key.
pub typed-ascii_to_hid :
    (c : ℕ)
    → c < 128
    → (typed (ascii_to_hid c) ≡ c) ⊎ (((ascii_to_hid c).keycode ≡ 0) × ((c < 32) ⊎ (c ≡ 127)))
typed-ascii_to_hid c h = read_off (all_right_lem 128 c all_right_128 h)
  where
    read_off :
        is_right c ≡ true
        → (typed (ascii_to_hid c) ≡ c) ⊎ (((ascii_to_hid c).keycode ≡ 0) × ((c < 32) ⊎ (c ≡ 127)))
    read_off e = ground arith
