-- ===== src/Devices/Tests.antt =====
-- The example devices at concrete requests.
use usbip_server.Prelude.{ℕ, ◌≡◌, refl, Bool, true, false, some, List, [], ◌∷◌, length, le16}
use usbip_server.Device.Buffers.{must_wait}
use usbip_server.Protocol.State.{Server}
use usbip_server.Protocol.State.Invariant.{IsValid}
use usbip_server.Worker.{Client, usbip_server_worker_thread}
use usbip_server.Bulk.{InputBuffer, bulk_device}
use usbip_server.Bulk.Fixtures.{server, server-IsValid, submit_out}
use usbip_server.Devices.{bulk, configuration, example_served}

abbrev clients : List Client
clients =
    record {
      conn = record { input = submit_out; room = 1000; output = [] };
      rounds = record { ready = true; submit_now = 1000; complete_now = 2000 } ∷ [];
    }
    ∷ []

example_served_example :
    (length (configuration bulk) ≡ le16 (configuration bulk) 2)
    × ((s' : Server InputBuffer) × (usbip_server_worker_thread bulk_device clients server ≡ some s')
        × IsValid s'
        × ((may_wait : Bool) (ep : ℕ) → must_wait may_wait ep s'.gadget.dev ≡ false))
example_served_example = example_served bulk bulk_device clients server refl server-IsValid
