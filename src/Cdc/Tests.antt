-- ===== src/Cdc/Tests.antt =====
-- A host that sets 115200 baud.
use usbip_server.Prelude.{◌≡◌, ◌≤◌, ◌++◌, true, false, List, [], ◌∷◌, arith, length}
use usbip_server.Device.Control.{Gadget, control}
use usbip_server.Bulk.Fixtures.{idle}
use usbip_server.Cdc.{CdcState, cdc_device}
use usbip_server.Cdc.Loop.{
  request, transfer, usb_reset, loop_step, take_turns, ticks, activated, all_sent, take_turns-Quiet,
  Turn,
}
use usbip_server.Cdc.Coding.{coding_bytes, set_line_coding_packet, set_line_coding_lem}

abbrev gadget : Gadget CdcState
gadget = record {
  app = record {
    dtr = true;
    rts = false;
    baudrate = 0;
    char_format = 0;
    parity = 0;
    data_bits = 0;
    input_buffer = [];
  };
  dev = idle;
}

set_line_coding_lem_example :
    let (supported, g') =
      control cdc_device set_line_coding_packet (coding_bytes 115200 0 0 8) 7 gadget in
    (supported ≡ true)
    × (g'.app
        ≡ record (gadget.app) { baudrate = 115200; char_format = 0; parity = 0; data_bits = 8 })
set_line_coding_lem_example = set_line_coding_lem 115200 0 0 8 gadget (omega arith)

-- A terminal that is connected for a tick, and a reset when a second one is about to be sent.
abbrev earlier : List Turn
earlier = loop_step ∷ loop_step ∷ loop_step ∷ loop_step ∷ request (0x21 ∷ 0x22 ∷ 1 ∷ 0 ∷ []) [] ∷ []

take_turns-Quiet_example :
    let s = take_turns idle earlier activated in
    let s' =
      take_turns idle ((loop_step ∷ transfer 1 (65 ∷ []) ∷ []) ++ usb_reset ∷ earlier) activated in
    (all_sent s' ≡ all_sent s)
    × (all_sent s ≡ ticks s.tick_counter)
    × (length s'.cdc.input_buffer ≤ 10)
take_turns-Quiet_example =
    take_turns-Quiet idle (loop_step ∷ transfer 1 (65 ∷ []) ∷ []) earlier (omega arith)
      (tt, (tt, tt))
