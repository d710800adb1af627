-- ===== src/Bulk/Fixtures.antt =====
-- The bulk example device of src/usb_bulk/usb_bulk_device.c imported by a host, with an IN transfer
-- pending: the state that the runs start from.
use usbip_server.Prelude.{ℕ, refl, true, false, List, [], ◌∷◌, arith, replicate, length-replicate}
use usbip_server.Device.Buffers.{DeviceState}
use usbip_server.Device.Control.{Gadget}
use usbip_server.Protocol.State.{PendingUrb, Server}
use usbip_server.Protocol.State.Invariant.{IsValid}
use usbip_server.Protocol.Endpoints.{no_endpoint}
use usbip_server.Protocol.Operations.Ends.{Walkable}
use usbip_server.Protocol.Operations.Chain.{chain, chain-Walkable}
use usbip_server.Bulk.{InputBuffer, config_descriptor}

abbrev pub idle : DeviceState
idle = record {
  endpoint_data = λ ep. [];
  device_stopped = false;
  configuration_value = 0;
  control_answered = false;
  reset_generation = 7;
  event_pending = false;
  broadcasts = 0;
}

-- Endpoint 1 holds three bytes.
abbrev pub loaded : DeviceState
loaded = record idle { endpoint_data = λ ep. 10 ∷ 20 ∷ 30 ∷ [] }

abbrev pub gadget : Gadget InputBuffer
gadget = record { app = []; dev = idle }

abbrev pub waiting_urb : PendingUrb
waiting_urb = record {
  seqnum = 5;
  ep = 1;
  direction = 1;
  transfer_buffer_length = 512;
  isochronous = false;
  start_frame = 0;
  number_of_packets = 0;
  complete_us = 0;
  packets = [];
}

-- USBIP_CMD_SUBMIT number 6: three bytes to endpoint 1.
abbrev pub submit_out : List ℕ
submit_out =
    0 ∷ 0 ∷ 0 ∷ 1 ∷ 0 ∷ 0 ∷ 0 ∷ 6 ∷ 0 ∷ 0 ∷ 0 ∷ 2 ∷ 0 ∷ 0 ∷ 0 ∷ 0 ∷ 0 ∷ 0 ∷ 0 ∷ 1 ∷ 0 ∷ 0 ∷ 0 ∷ 0
    ∷ 0 ∷ 0 ∷ 0 ∷ 3 ∷ 0 ∷ 0 ∷ 0 ∷ 0 ∷ 0 ∷ 0 ∷ 0 ∷ 0 ∷ 0 ∷ 0 ∷ 0 ∷ 0 ∷ 0 ∷ 0 ∷ 0 ∷ 0 ∷ 0 ∷ 0 ∷ 0 ∷ 0
    ∷ 65 ∷ 66 ∷ 67 ∷ []

abbrev pub server : Server InputBuffer
server = record {
  conn = record { input = submit_out; room = 1000; output = [] };
  gadget = gadget;
  device_imported = true;
  pending_urbs = waiting_urb ∷ [];
  endpoints = λ i. no_endpoint;
  wait_timeout_us = 500000;
  rx_buffer = replicate 65536 0;
  tx_buffer = replicate 65536 0;
}

pub server-IsValid : IsValid server
server-IsValid = (
  (
    omega arith,
    (
      record {
        buffer_fits = omega arith;
        packets_count = refl;
        packets_fit = omega arith;
        packets_inside = tt;
        only_in_waits = λ h. omega arith;
      },
      tt,
    ),
  ),
  (omega arith, omega arith),
  length-replicate 65536 0,
  length-replicate 65536 0,
  λ ep. omega arith,
)

pub config-Walkable : Walkable config_descriptor
unfolding chain
config-Walkable = chain-Walkable config_descriptor 10 refl
