-- ===== src/Bulk/Tests.antt =====
-- The bulk example device served to a host: runs, and the theorems at concrete inputs.
use usbip_server.Prelude.{
  ℕ, ◌<◌, ◌+◌, List, Bool, some, ◌≡◌, ◌⊎◌, refl, true, false, [], ◌∷◌, ◌++◌, arith, length, set,
  take, drop, le16, byte,
}
use usbip_server.Device.Buffers.{transmit_store, fetch_control_reply, must_wait}
use usbip_server.Device.Buffers.Delivery.{fetch_all, fetch_all_lem, transmit_store-fetch}
use usbip_server.Device.Buffers.Events.{
  Event, apply, apply_all, stale_transmit, must_wait-broadcast,
}
use usbip_server.Device.OtherSpeed.{copied_length, more, adapt_next, build_other_speed_config}
use usbip_server.Device.OtherSpeed.Adapted.{build_other_speed_config-Agree}
use usbip_server.Protocol.Messages.{HeaderBasic, read_header_basic, header_basic_bytes}
use usbip_server.Protocol.Messages.RoundTrip.{read_header_basic-bytes}
use usbip_server.Prelude.Loop.{while}
use usbip_server.Device.Control.{control, reply_length}
use usbip_server.Device.Control.Requests.{
  setup_packet, get_set_configuration, get_configuration_descriptor,
}
use usbip_server.Protocol.State.{Server}
use usbip_server.Protocol.State.Invariant.{IsValid}
use usbip_server.Protocol.Endpoints
use usbip_server.Protocol.Endpoints.{load_next, no_endpoint, load_endpoints}
use usbip_server.Protocol.Endpoints.Loading.{IsFresh, load_endpoints-append}
use usbip_server.Protocol.Endpoints.Described.{GoneBy, Described, load_endpoints-Described}
use usbip_server.Protocol.Unlink.{unlink}
use usbip_server.Protocol.Unlink.Removal.{Absent, Found, restart_stream, unlink_lem}
use usbip_server.Protocol.Reply.{urb_unlinked}
use usbip_server.Protocol.Serve.{process_imported_device, process_cmd}
use usbip_server.Protocol.Serve.Ends.{process_cmd-Ends}
use usbip_server.Protocol.Serve.Safety.{process_imported_device-IsValid}
use usbip_server.Bulk.Loop.{activated, transfer, loop_round, take_turns, Sound, take_turns-Sound}
use usbip_server.Bulk.{InputBuffer, bulk_device, config_descriptor}
use usbip_server.Bulk.Fixtures.{
  idle, loaded, gadget, waiting_urb, server, server-IsValid, config-Walkable,
}

process_imported_device-IsValid_example :
    IsValid (process_imported_device bulk_device true 1000 2000 server).1
process_imported_device-IsValid_example =
    process_imported_device-IsValid bulk_device true 1000 2000 server server-IsValid

process_cmd-Ends_example :
    (r : Bool × Server InputBuffer) × (process_cmd bulk_device server ≡ some r) × IsValid r.1
process_cmd-Ends_example = process_cmd-Ends bulk_device server config-Walkable server-IsValid

-- A transfer, a round that prints it, and one that is still in the buffer.
take_turns-Sound_example :
    Sound
      (transfer (67 ∷ []) ∷ loop_round ∷ transfer (65 ∷ 66 ∷ []) ∷ [])
      (take_turns (transfer (67 ∷ []) ∷ loop_round ∷ transfer (65 ∷ 66 ∷ []) ∷ []) activated)
take_turns-Sound_example =
    take_turns-Sound (transfer (67 ∷ []) ∷ loop_round ∷ transfer (65 ∷ 66 ∷ []) ∷ []) (omega arith)

fetch_all_lem_example :
    let (bytes, s') = fetch_all 1 (2 ∷ 2 ∷ []) loaded in
    bytes ++ s'.endpoint_data 1 ≡ 10 ∷ 20 ∷ 30 ∷ []
fetch_all_lem_example = fetch_all_lem 1 (2 ∷ 2 ∷ []) loaded (omega arith)

fetch_all_run : (fetch_all 1 (2 ∷ 2 ∷ []) loaded).0 ≡ 10 ∷ 20 ∷ 30 ∷ []
unfolding fetch_all take drop
fetch_all_run = refl

transmit_store-fetch_example :
    let stored = (transmit_store 0x81 (1 ∷ 2 ∷ []) 7 idle).1 in
    let (sent, left) = fetch_all 0x81 (64 ∷ []) stored in
    (sent ++ left.endpoint_data 1 ≡ take 512 (1 ∷ 2 ∷ []))
    × (stored.event_pending ≡ true)
    × (idle.endpoint_data 1 ≡ [])
unfolding transmit_store
transmit_store-fetch_example =
    transmit_store-fetch 0x81 (1 ∷ 2 ∷ []) 7 idle (64 ∷ []) (omega arith) refl

stale_transmit_example :
    let t = apply_all (Event.was_reset ∷ Event.fetched 1 8 ∷ []) loaded in
    transmit_store 1 (9 ∷ []) 7 t ≡ (false, t)
stale_transmit_example =
    stale_transmit 1 (9 ∷ []) (Event.was_reset ∷ Event.fetched 1 8 ∷ []) loaded (omega arith)
      (omega arith) (omega arith)

must_wait-broadcast_example : (apply (Event.fetched 1 8) loaded).broadcasts ≡ 1
unfolding must_wait apply take drop
must_wait-broadcast_example = must_wait-broadcast true 1 (Event.fetched 1 8) loaded refl refl

get_set_configuration_example :
    let (supported, g) = control bulk_device (setup_packet 0 9 1 0 0) [] 0 gadget in
    let (supported', g') = control bulk_device (setup_packet 0x80 8 0 0 1) [] 1 g in
    let (answered, bytes, d) = fetch_control_reply 1 g'.dev in
    (supported ≡ true) × (supported' ≡ true) × (answered ≡ true) × (bytes ≡ 1 ∷ [])
get_set_configuration_example =
    get_set_configuration bulk_device 1 0 1 [] [] gadget refl (omega arith)

get_configuration_descriptor_example :
    let (supported, g) = control bulk_device (setup_packet 0x80 6 0 2 9) [] 9 gadget in
    let (answered, bytes, d) = fetch_control_reply 9 g.dev in
    (supported ≡ true)
    × (answered ≡ true)
    × (bytes ≡ take (reply_length 9 (le16 config_descriptor 2)) config_descriptor)
get_configuration_descriptor_example =
    get_configuration_descriptor bulk_device 0 9 [] gadget refl (omega arith)

load_endpoints-Described_example :
    ((end : ℕ) × ((places : List ℕ) × GoneBy config_descriptor end places
        × ((le16 config_descriptor 2 < end + 7) ⊎ (byte config_descriptor end ≡ 0))
        × ((i : ℕ) → Described config_descriptor places i (load_endpoints config_descriptor i))))
    × ((i : ℕ) → IsFresh (load_endpoints config_descriptor i))
    × ((while 40
          (Endpoints.more config_descriptor)
          (load_next config_descriptor)
          (record { idx = 0; endpoints = λ j. no_endpoint })).endpoints
        ≡ load_endpoints config_descriptor)
load_endpoints-Described_example = load_endpoints-Described config_descriptor 40 (omega arith)

load_endpoints-append_example :
    load_endpoints (config_descriptor ++ 7 ∷ 5 ∷ []) ≡ load_endpoints config_descriptor
load_endpoints-append_example =
    load_endpoints-append config_descriptor (7 ∷ 5 ∷ []) (omega arith) (omega arith)

load_endpoints_run : (load_endpoints config_descriptor 17).transfer_type ≡ 2
unfolding load_endpoints
load_endpoints_run = refl

unlink_lem_example :
    (Absent 5 (waiting_urb ∷ []) × (unlink 5 server ≡ (0, server)))
    ⊎ ((f : Found 5 (waiting_urb ∷ [])) × ((unlink 5 server).0 ≡ urb_unlinked)
        × ((unlink 5 server).1 ≡ record server {
          pending_urbs = f.before ++ f.behind;
          endpoints = (unlink 5 server).1.endpoints;
        })
        × ((i : ℕ)
            → (unlink 5 server).1.endpoints i
              ≡ restart_stream f.urb (f.before ++ f.behind) (server.endpoints) i))
unlink_lem_example = unlink_lem 5 server

build_other_speed_config-Agree_example :
    let built = build_other_speed_config config_descriptor 512 in
    let total_length = copied_length config_descriptor 512 in
    (length built ≡ total_length)
    × (byte built 1 ≡ byte (set config_descriptor 1 7) 1)
    × ((while 100
          (more total_length)
          adapt_next
          (record { idx = 0; buffer = set (take total_length config_descriptor) 1 7 })).buffer
        ≡ built)
unfolding copied_length
build_other_speed_config-Agree_example =
    build_other_speed_config-Agree config_descriptor 512 100 1 (omega arith) (omega arith)
      (omega arith) (omega arith)

-- The packet size of endpoint 1 becomes 64.
build_other_speed_config_run : le16 (build_other_speed_config config_descriptor 512) 22 ≡ 64
unfolding build_other_speed_config take
build_other_speed_config_run = refl

abbrev header : HeaderBasic
header = record { command = 1; seqnum = 0x12345678; devid = 2; direction = 1; ep = 3 }

read_header_basic-bytes_example :
    (read_header_basic (header_basic_bytes header ++ 9 ∷ []) ≡ header)
    × (length (header_basic_bytes header) ≡ 20)
read_header_basic-bytes_example = read_header_basic-bytes header (9 ∷ []) (record {
  command_fits = omega arith;
  seqnum_fits = omega arith;
  devid_fits = omega arith;
  direction_fits = omega arith;
  ep_fits = omega arith;
})
