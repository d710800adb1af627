-- ===== src/Keyboard/Typing.antt =====
-- What the main loop of src/usb_keyboard/usb_keyboard_device.c sends for a text.
use usbip_server.Prelude.{
  ℕ, ◌≤◌, ◌<◌, ◌≡◌, refl, List, [], ◌∷◌, ◌++◌, arith, All, byte, ◌==◌, if◌then◌else◌, inl, inr,
  true, false, sym, ◌∙◌, Bool-cases, ◌||◌,
}
use usbip_server.Keyboard.{HidKey, ascii_to_hid}
use usbip_server.Keyboard.Layout.{typed, typed-ascii_to_hid}

-- `out_buffer` with the key down, and then all zero.
abbrev pub key_down : HidKey → List ℕ
key_down key = key.modifier ∷ 0 ∷ key.keycode ∷ 0 ∷ 0 ∷ 0 ∷ 0 ∷ 0 ∷ []

abbrev pub key_up : List ℕ
key_up = 0 ∷ 0 ∷ 0 ∷ 0 ∷ 0 ∷ 0 ∷ 0 ∷ 0 ∷ []

-- The reports for a text, in the order in which they are transmitted.
unfoldable pub type_text : List ℕ → List (List ℕ)
type_text [] = []
type_text (c ∷ text) = key_down (ascii_to_hid c) ∷ key_up ∷ type_text text

-- What a host reads from a report when the key `held` was down in the one before: its first key, if it is
-- pressed by this report. A key that stays down is not pressed again.
unfoldable pub read_report : ℕ → List ℕ → List ℕ
read_report held report =
    let key : HidKey = record { keycode = byte report 2; modifier = byte report 0 } in
    if byte report 2 == 0 || byte report 2 == held then [] else typed key ∷ []

unfoldable pub read_reports : ℕ → List (List ℕ) → List ℕ
unfolding read_report
read_reports held [] = []
read_reports held (r ∷ reports) = read_report held r ++ read_reports (byte r 2) reports

abbrev pub IsPrintable : ℕ → Type 0
IsPrintable c = (32 ≤ c) × (c < 127)

typed-none : (key : HidKey) → (key.keycode == 0) ≡ true → typed key ≡ 0
unfolding typed
typed-none key e = rw e refl

printable-key : (c : ℕ) → IsPrintable c → read_report 0 (key_down (ascii_to_hid c)) ≡ c ∷ []
unfolding read_report
printable-key c (lo, hi) = elim (typed-ascii_to_hid c (omega (arith, hi))) [
  | inl same ↦ rw (pressed same, same) refl
  | inr (off, inl low) ↦ absurd (omega (arith, lo, low))
  | inr (off, inr del) ↦ absurd (omega (arith, hi, del))
]
  where
    pressed : typed (ascii_to_hid c) ≡ c → ((ascii_to_hid c).keycode == 0) ≡ false
    pressed same = elim (Bool-cases ((ascii_to_hid c).keycode == 0)) [
      | inl none_ ↦ absurd (omega (arith, lo, sym same ∙ typed-none (ascii_to_hid c) none_))
      | inr some_ ↦ some_
    ]

-- The reports that the keyboard sends for a text of printable ASCII characters type that text on a US
-- keyboard, each character once and in order, and leave no key down.
pub read_reports-type_text :
    (text : List ℕ) (reports : List (List ℕ))
    → All IsPrintable text
    → read_reports 0 (type_text text ++ reports) ≡ text ++ read_reports 0 reports
unfolding read_reports type_text
read_reports-type_text [] reports h = refl
read_reports-type_text (c ∷ text) reports (h, hs) =
    rw (printable-key c h, read_reports-type_text text reports hs) refl
