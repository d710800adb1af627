-- ===== src/Cdc/Loop.antt =====
-- The main loop of src/usb_cdc, between what the host does.
use usbip_server.Prelude.{
  ℕ, zero, suc, ◌+◌, ◌%◌, ◌<◌, u32_mod, sym, append-nil, ◌≤◌, ◌≡◌, refl, ap, ◌∙◌, false, List, [],
  ◌∷◌, ◌++◌, ◌==◌, ==_iff, arith, if◌then◌else◌, if_elim, if_split, length, byte, bit, le16, leb,
  leb→le, length-append, All,
}
use usbip_server.Prelude.Decimal.{decimal, decimal_int, decimal_int-small}
use usbip_server.Device.Api.{Action}
use usbip_server.Device.Buffers.{DeviceState, run}
use usbip_server.Protocol.Messages.{codes}
use usbip_server.Cdc.{
  CdcState, input_buffer_length, set_line_coding, control_data, endpoint_data, reset,
}

-- Where the loop stands: at the test of `DTR`, at `usbip_device_transmit` with what is in `str_buffer`, or at
-- the critical section.
pub data Place : Type 0 where
  at_test : Place
  at_transmit : List ℕ → Place
  at_input : Place

-- `cdc_state` with the input buffer, `tick_counter`, a `uint32_t`, and what is transmitted so far.
pub record MainLoop : Type 0 where
  pub cdc : CdcState
  pub tick_counter : ℕ
  pub place : Place
  pub sent : List (List ℕ)

-- `str_buffer`: the counter is written with %d.
abbrev pub tick : ℕ → List ℕ
tick tick_counter = codes "Tick " ++ decimal_int tick_counter ++ 10 ∷ []

-- A tick is made when a terminal is connected.
unfoldable pub test_dtr : MainLoop → MainLoop
unfolding decimal_int
test_dtr s =
    if s.cdc.dtr
    then record s {
      tick_counter = (s.tick_counter + 1) % u32_mod;
      place = at_transmit (tick s.tick_counter);
    }
    else record s { place = at_input }

-- The critical section: the input is printed.
unfoldable pub take_input : MainLoop → MainLoop
take_input s = record s { cdc = record (s.cdc) { input_buffer = [] }; place = at_test }

-- The loop goes on from where it stands: what the host does may come between any two steps.
unfoldable pub loop_next : Place → MainLoop → MainLoop
unfolding test_dtr take_input
loop_next at_test s = test_dtr s
loop_next (at_transmit line) s = record s { place = at_input; sent = s.sent ++ line ∷ [] }
loop_next at_input s = take_input s

-- A control request, a transfer or a reset from the host, or a step of the loop.
pub data Turn : Type 0 where
  request : List ℕ → List ℕ → Turn
  transfer : ℕ → List ℕ → Turn
  usb_reset : Turn
  loop_step : Turn

-- None of the callbacks transmits, so the device's buffers have no part.
unfoldable pub take_turn : DeviceState → Turn → MainLoop → MainLoop
unfolding control_data endpoint_data reset run loop_next
take_turn d (request setup bytes) s = record s { cdc = (run (control_data s.cdc setup bytes) d).0 }
take_turn d (transfer ep bytes) s = record s { cdc = (run (endpoint_data s.cdc ep bytes) d).0 }
take_turn d usb_reset s = record s { cdc = (run (reset s.cdc) d).0 }
take_turn d loop_step s = loop_next s.place s

-- The latest turn is the first.
unfoldable pub take_turns : DeviceState → List Turn → MainLoop → MainLoop
unfolding take_turn
take_turns d [] s = s
take_turns d (turn ∷ turns) s = take_turn d turn (take_turns d turns s)

-- The variables as they start.
abbrev pub activated : MainLoop
activated = record {
  cdc = record {
    dtr = false;
    rts = false;
    baudrate = 0;
    char_format = 0;
    parity = 0;
    data_bits = 0;
    input_buffer = [];
  };
  tick_counter = 0;
  place = at_test;
  sent = [];
}

-- The ticks 0 to `n - 1`.
abbrev pub ticks : ℕ → List (List ℕ)
ticks zero = []
ticks (suc n) = ticks n ++ (codes "Tick " ++ decimal n ++ 10 ∷ []) ∷ []

-- The tick that the loop is about to transmit.
abbrev pub about_to_send : Place → List (List ℕ)
about_to_send at_test = []
about_to_send (at_transmit line) = line ∷ []
about_to_send at_input = []

-- What is transmitted, or is about to be.
abbrev pub all_sent : MainLoop → List (List ℕ)
all_sent s = s.sent ++ about_to_send s.place

abbrev Fits : MainLoop → Type 0
Fits s = length s.cdc.input_buffer ≤ input_buffer_length

abbrev Counts : ℕ → MainLoop → Type 0
Counts n s = (all_sent s ≡ ticks s.tick_counter) × (s.tick_counter ≤ n)

-- The host does not say by this that a terminal is connected.
abbrev pub Quiet : Turn → Type 0
Quiet (request setup bytes) = byte setup 1 ≡ 0x22 → bit (le16 setup 2) 0 ≡ 0
Quiet (transfer ep bytes) = Unit
Quiet usb_reset = Unit
Quiet loop_step = Unit

module _ (d : DeviceState) where
  request-input_buffer :
      (c : CdcState) (setup bytes : List ℕ)
      → (run (control_data c setup bytes) d).0.input_buffer ≡ c.input_buffer
  unfolding control_data set_line_coding run
  request-input_buffer c setup bytes =
      if_elim {A = Action CdcState} (λ a. (run a d).0.input_buffer ≡ c.input_buffer)
        (byte setup 1 == 0x20)
        (if_elim {A = CdcState} (λ c'. c'.input_buffer ≡ c.input_buffer) (length bytes == 7) refl
          refl)
        (if_elim {A = Action CdcState} (λ a. (run a d).0.input_buffer ≡ c.input_buffer)
          (byte setup 1 == 0x22) refl refl)

  request-Quiet :
      (c : CdcState) (setup bytes : List ℕ)
      → Quiet (request setup bytes)
      → c.dtr ≡ false
      → (run (control_data c setup bytes) d).0.dtr ≡ false
  unfolding control_data set_line_coding run
  request-Quiet c setup bytes quiet off =
      if_elim {A = Action CdcState} (λ a. (run a d).0.dtr ≡ false) (byte setup 1 == 0x20)
        (if_elim {A = CdcState} (λ c'. c'.dtr ≡ false) (length bytes == 7) off off)
        (if_split {A = Action CdcState} (λ a. (run a d).0.dtr ≡ false) (byte setup 1 == 0x22)
          (λ line. rw (quiet ((==_iff (byte setup 1) 0x22).0 line)) refl) (λ _. off))

  loop_next-Fits : (place : Place) (s : MainLoop) → Fits s → Fits (loop_next place s)
  unfolding loop_next test_dtr take_input
  loop_next-Fits at_test s h = if_elim {A = MainLoop} Fits s.cdc.dtr h h
  loop_next-Fits (at_transmit line) s h = h
  loop_next-Fits at_input s h = omega arith

  take_turn-Fits : (turn : Turn) (s : MainLoop) → Fits s → Fits (take_turn d turn s)
  unfolding take_turn endpoint_data reset run
  take_turn-Fits (request setup bytes) s h = rw (request-input_buffer s.cdc setup bytes) h
  take_turn-Fits (transfer ep bytes) s h =
      if_split {A = CdcState} (λ c. Fits (record s { cdc = c }))
        (leb (length s.cdc.input_buffer + length bytes) input_buffer_length)
        (λ fits. omega (arith, leb→le _ _ fits, length-append s.cdc.input_buffer bytes)) (λ _. h)
  take_turn-Fits usb_reset s h = omega arith
  take_turn-Fits loop_step s h = loop_next-Fits s.place s h

  take_turns-Fits : (turns : List Turn) → Fits (take_turns d turns activated)
  unfolding take_turns
  take_turns-Fits [] = omega arith
  take_turns-Fits (turn ∷ turns) =
      take_turn-Fits turn (take_turns d turns activated) (take_turns-Fits turns)

  loop_next-Counts :
      (n : ℕ) (place : Place) (s : MainLoop)
      → s.place ≡ place
      → n < 0x7fff_ffff
      → Counts n s
      → Counts (suc n) (loop_next place s)
  unfolding loop_next test_dtr take_input
  loop_next-Counts n at_test s at few (sent, count) =
      let next : (s.tick_counter + 1) % u32_mod ≡ suc s.tick_counter = omega (arith, count, few) in
      let so_far : s.sent ≡ ticks s.tick_counter = sym (append-nil s.sent) ∙ rw at at sent in
      if_elim {A = MainLoop} (Counts (suc n)) s.cdc.dtr
        (
          rw (next, decimal_int-small s.tick_counter (omega (arith, count, few)))
              (ap (λ ts. ts ++ (codes "Tick " ++ decimal s.tick_counter ++ 10 ∷ []) ∷ []) so_far),
          rw next (omega (arith, count)),
        )
        (append-nil s.sent ∙ so_far, omega (arith, count))
  loop_next-Counts n (at_transmit line) s at few (sent, count) =
      (append-nil (s.sent ++ line ∷ []) ∙ rw at at sent, omega (arith, count))
  loop_next-Counts n at_input s at few (sent, count) = (rw at at sent, omega (arith, count))

  take_turn-Counts :
      (n : ℕ) (turn : Turn) (s : MainLoop)
      → n < 0x7fff_ffff
      → Counts n s
      → Counts (suc n) (take_turn d turn s)
  unfolding take_turn
  take_turn-Counts n (request setup bytes) s few h = (h.0, omega (arith, h.1))
  take_turn-Counts n (transfer ep bytes) s few h = (h.0, omega (arith, h.1))
  take_turn-Counts n usb_reset s few h = (h.0, omega (arith, h.1))
  take_turn-Counts n loop_step s few h = loop_next-Counts n s.place s refl few h

  take_turns-Counts :
      (turns : List Turn)
      → length turns < 0x8000_0000
      → Counts (length turns) (take_turns d turns activated)
  unfolding take_turns
  take_turns-Counts [] few = (refl, omega arith)
  take_turns-Counts (turn ∷ turns) few =
      take_turn-Counts (length turns) turn (take_turns d turns activated) (omega (arith, few))
        (take_turns-Counts turns (omega (arith, few)))

  -- No terminal is connected, and what is transmitted or about to be is as in `s`.
  abbrev Still : MainLoop → MainLoop → Type 0
  Still s s' = (s'.cdc.dtr ≡ false) × (all_sent s' ≡ all_sent s)

  loop_next-Still :
      (place : Place) (s : MainLoop)
      → s.place ≡ place
      → s.cdc.dtr ≡ false
      → Still s (loop_next place s)
  unfolding loop_next test_dtr take_input
  loop_next-Still at_test s at off =
      if_split {A = MainLoop} (Still s) s.cdc.dtr (λ on. cc) (λ _. (off, rw at refl))
  loop_next-Still (at_transmit line) s at off = (off, append-nil (s.sent ++ line ∷ []) ∙ rw at refl)
  loop_next-Still at_input s at off = (off, rw at refl)

  take_turn-Still :
      (turn : Turn) (s : MainLoop) → Quiet turn → s.cdc.dtr ≡ false → Still s (take_turn d turn s)
  unfolding take_turn endpoint_data reset run
  take_turn-Still (request setup bytes) s quiet off =
      (request-Quiet s.cdc setup bytes quiet off, refl)
  take_turn-Still (transfer ep bytes) s quiet off =
      if_elim {A = CdcState} (λ c. (c.dtr ≡ false) × (all_sent s ≡ all_sent s))
        (leb (length s.cdc.input_buffer + length bytes) input_buffer_length) (off, refl) (off, refl)
  take_turn-Still usb_reset s quiet off = (refl, refl)
  take_turn-Still loop_step s quiet off = loop_next-Still s.place s refl off

  after_reset :
      (turns earlier : List Turn)
      → All Quiet turns
      → Still
          (take_turns d earlier activated)
          (take_turns d (turns ++ usb_reset ∷ earlier) activated)
  unfolding take_turns take_turn reset run
  after_reset [] earlier quiet = (refl, refl)
  after_reset (turn ∷ turns) earlier quiet =
      let (off, same) = after_reset turns earlier (quiet.1) in
      let (off', same') =
        take_turn-Still turn (take_turns d (turns ++ usb_reset ∷ earlier) activated) (quiet.0)
          off in
      (off', same' ∙ same)

  -- Whatever the host does between the steps of the loop, of which and of the host's there are fewer than
  -- 2 ^ 31, the ticks that are sent, with the one that is about to be, are numbered 0, 1, 2 and so on without
  -- a gap. The input buffer does not overflow. After a reset no tick is made as long as the host does not
  -- say by SET_CONTROL_LINE_STATE that a terminal is connected: nothing is sent but for a tick that the
  -- loop was about to send when the reset came.
  pub take_turns-Quiet :
      (turns earlier : List Turn)
      → length earlier < 0x8000_0000
      → All Quiet turns
      → let s = take_turns d earlier activated in
        let s' = take_turns d (turns ++ usb_reset ∷ earlier) activated in
        (all_sent s' ≡ all_sent s)
        × (all_sent s ≡ ticks s.tick_counter)
        × (length s'.cdc.input_buffer ≤ input_buffer_length)
  take_turns-Quiet turns earlier few quiet = (
    (after_reset turns earlier quiet).1,
    (take_turns-Counts earlier few).0,
    take_turns-Fits (turns ++ usb_reset ∷ earlier),
  )
