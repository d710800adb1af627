-- ===== src/Bulk/Sockets.antt =====
-- The life of a server of the bulk device, at concrete inputs.
use usbip_server.Prelude.{◌≡◌, true, some, none, [], ◌∷◌, refl, All, List}
use usbip_server.Protocol.State.{Server}
use usbip_server.Tcpip.Sockets.{Sockets, no_client, arrived, open_descriptor}
use usbip_server.Worker.{usbip_server_worker_thread}
use usbip_server.Worker.Sockets.{no_sockets, Startup, Visit, worker_thread, serve}
use usbip_server.Worker.Sockets.Life.{NotStdin, accepted, worker_thread_lem, serve_lem}
use usbip_server.Bulk.{InputBuffer, bulk_device}
use usbip_server.Bulk.Fixtures.{server, server-IsValid, config-Walkable}
use usbip_server.Bulk.Transfers.{client}

abbrev startup : Startup
startup = record {
  event_fd = some 3;
  bind_address = none;
  opening = record { socket = some 4; bound = true; listening = true };
  thread_created = true;
}

-- Nobody, a client, an interrupted call of `accept`, and another client.
abbrev visits : List Visit
visits =
    record { knock = no_client; client = client }
    ∷ record { knock = arrived (some 5); client = client }
    ∷ record { knock = arrived none; client = client }
    ∷ record { knock = arrived (some 5); client = client }
    ∷ []

visits-NotStdin : All NotStdin visits
visits-NotStdin = (λ e. cc, (five, (λ e. cc, (five, tt))))
  where
    five : ¬ (arrived (some 5) ≡ arrived (some 0))
    five e = cc

abbrev listening : Sockets
listening = record { server_socket = some 4; client_socket = none; descriptors = 4 ∷ 3 ∷ [] }

worker_thread_lem_example :
    (t' : Sockets) × (s' : Server InputBuffer) × (worker_thread bulk_device visits listening server
      ≡ some (t', s'))
    × (usbip_server_worker_thread bulk_device (accepted visits) server ≡ some s')
    × (t'.descriptors ≡ 3 ∷ [])
worker_thread_lem_example =
    worker_thread_lem bulk_device config-Walkable (3 ∷ []) visits listening server visits-NotStdin
      server-IsValid refl refl

serve_lem_example :
    (t' : Sockets) × (s' : Server InputBuffer) × (serve bulk_device
        (λ address. true)
        startup
        visits
        no_sockets
        server
      ≡ some (t', s'))
    × (t'.descriptors ≡ open_descriptor (some 3) [])
serve_lem_example =
    serve_lem (λ address. true) startup bulk_device config-Walkable visits server refl
      visits-NotStdin server-IsValid
