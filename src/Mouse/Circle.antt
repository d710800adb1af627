-- ===== src/Mouse/Circle.antt =====
-- The main loop of src/usb_mouse, which moves the pointer on a circle. The places on the circle, computed
-- there with `cos` and `sin`, are a parameter.
use usbip_server.Prelude.{
  ℕ, zero, suc, ◌+◌, ◌-◌, ◌%◌, ◌/◌, ◌<◌, ◌≤◌, ◌≡◌, ◌⊎◌, refl, ap, ◌∙◌, List, [], ◌∷◌, arith, leb,
  ltb, if◌then◌else◌, byte,
}

-- NUMBER_OF_STEPS, with USB_MOUSE_HID_POLL_INTERVAL_MS 16
abbrev pub number_of_steps : ℕ
number_of_steps = 1000 / 16

-- `int16_t` numbers modulo 2 ^ 16
abbrev pub i16_mod : ℕ
i16_mod = 65536

-- `step_counter++`, and back to 0 at the end of the circle
unfoldable pub next_step : ℕ → ℕ
next_step step_counter =
    let step = (step_counter + 1) % i16_mod in if leb number_of_steps step then 0 else step

-- `new_pos - old_pos` as an `int16_t`
unfoldable pub delta : (new_pos old_pos : ℕ) → ℕ
delta new_pos old_pos = (i16_mod + new_pos - old_pos) % i16_mod

module _ (pos_x pos_y : ℕ → ℕ) where
  -- One round of the loop: `out_buffer`, and the step counter.
  unfoldable pub move : ℕ → List ℕ × ℕ
  unfolding next_step delta
  move step_counter =
      let new_step = next_step step_counter in
      (
        0
            ∷ delta (pos_x new_step) (pos_x step_counter) % 256
            ∷ delta (pos_y new_step) (pos_y step_counter) % 256
            ∷ 0
            ∷ [],
        new_step,
      )

  -- `n` rounds
  unfoldable pub moves : ℕ → ℕ → List (List ℕ) × ℕ
  unfolding move
  moves zero step_counter = ([], step_counter)
  moves (suc n) step_counter =
      let (out_buffer, new_step) = move step_counter in
      let (out, last_step) = moves n new_step in (out_buffer ∷ out, last_step)

-- What a host does with a report: each byte is a signed distance.
abbrev pub signed : ℕ → ℕ
signed b = if ltb b 128 then b else i16_mod - 256 + b

abbrev pub follow : ℕ × ℕ → List ℕ → ℕ × ℕ
follow (x, y) report =
    ((x + signed (byte report 1)) % i16_mod, (y + signed (byte report 2)) % i16_mod)

abbrev pub follow_all : ℕ × ℕ → List (List ℕ) → ℕ × ℕ
follow_all at [] = at
follow_all at (report ∷ reports) = follow_all (follow at report) reports

-- Each place is an `int16_t`, and a step moves by less than 128.
abbrev pub SmallSteps : (ℕ → ℕ) → Type 0
SmallSteps pos =
    (step : ℕ)
    → (pos step < i16_mod)
      × ((delta (pos (next_step step)) (pos step) < 128)
          ⊎ (i16_mod - 128 ≤ delta (pos (next_step step)) (pos step)))

signed_lem : (d : ℕ) → d < i16_mod → (d < 128) ⊎ (i16_mod - 128 ≤ d) → signed (d % 256) ≡ d
signed_lem d lt small = ground arith

arrive :
    (new old : ℕ)
    → new < i16_mod
    → old < i16_mod
    → (delta new old < 128) ⊎ (i16_mod - 128 ≤ delta new old)
    → (old + signed (delta new old % 256)) % i16_mod ≡ new
unfolding delta
arrive new old lt lt' small =
    let back : signed (delta new old % 256) ≡ delta new old =
      signed_lem (delta new old) (omega arith) small in
    rw back (omega arith)

next_step_lem : (step : ℕ) → step < number_of_steps → next_step step ≡ (step + 1) % number_of_steps
unfolding next_step
next_step_lem step lt = ground arith

module _ (pos_x pos_y : ℕ → ℕ) (small_x : SmallSteps pos_x) (small_y : SmallSteps pos_y) where
  follow-move :
      (step : ℕ)
      → let (report, new_step) = move pos_x pos_y step in
        follow (pos_x step, pos_y step) report ≡ (pos_x new_step, pos_y new_step)
  unfolding move
  follow-move step =
      let x =
        arrive (pos_x (next_step step)) (pos_x step) (small_x (next_step step)).0 (small_x step).0
          (small_x step).1 in
      let y =
        arrive (pos_y (next_step step)) (pos_y step) (small_y (next_step step)).0 (small_y step).0
          (small_y step).1 in
      ap
        (λ at.
          (at, (pos_y step + signed (delta (pos_y (next_step step)) (pos_y step) % 256)) % i16_mod))
        x
      ∙ ap (λ at. (pos_x (next_step step), at)) y

  -- A host that follows the reports of any number of rounds moves its pointer along the circle: it is
  -- always at the place of the step that the mouse is at, which after a whole circle is the one that it
  -- began at, provided that the places are 16 bit numbers and one step moves by less than 128.
  pub follow_all-moves :
      (n step : ℕ)
      → step < number_of_steps
      → let (reports, last_step) = moves pos_x pos_y n step in
        (follow_all (pos_x step, pos_y step) reports ≡ (pos_x last_step, pos_y last_step))
        × (last_step ≡ (step + n) % number_of_steps)
  unfolding moves
  follow_all-moves zero step lt = (refl, omega arith)
  follow_all-moves (suc n) step lt =
      let next = next_step_lem step lt in
      let (there, last) = follow_all-moves n (next_step step) (omega arith) in
      (
        ap (λ at. follow_all at (moves pos_x pos_y n (next_step step)).0) (follow-move step)
            ∙ there,
        omega arith,
      )
