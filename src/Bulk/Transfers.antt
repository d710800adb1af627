-- ===== src/Bulk/Transfers.antt =====
-- The transfers, replies and clients of the imported bulk device: the theorems at concrete inputs.
use usbip_server.Prelude.{
  ℕ, ◌≡◌, refl, Bool, true, false, [], ◌∷◌, ◌++◌, List, replicate, some, take, drop, arith, All,
}
use usbip_server.Device.Buffers.{must_wait}
use usbip_server.Protocol.State.{Server}
use usbip_server.Protocol.State.Invariant.{IsValid}
use usbip_server.Protocol.Complete.{complete_pending_urbs}
use usbip_server.Protocol.Complete.Settled.Waits.{Settled}
use usbip_server.Protocol.Complete.Settled.{complete_pending_urbs-Settled}
use usbip_server.Protocol.State.{write}
use usbip_server.Protocol.Operations.{transmit_devlist_response}
use usbip_server.Protocol.Operations.Listing.{devlist_reply, transmit_devlist_response_lem}
use usbip_server.Protocol.Operations.Ends.{next_here}
use usbip_server.Protocol.Complete.Answers.{Answers}
use usbip_server.Protocol.Complete.Answers.Whole.{complete_pending_urbs-Answers}
use usbip_server.Protocol.Submit.Outcome.{Outcome}
use usbip_server.Worker.{Round, Client, serve_client, usbip_server_worker_thread}
use usbip_server.Worker.Clients.{Served, serve_client-Served, usbip_server_worker_thread_lem}
use usbip_server.Bulk.{InputBuffer, bulk_device}
use usbip_server.Bulk.Fixtures.{
  loaded, gadget, waiting_urb, server, server-IsValid, config-Walkable, submit_out,
}

-- The device has no data, so the transfer waits on.
still_waiting : (complete_pending_urbs bulk_device 2000 server).0 ≡ true
unfolding complete_pending_urbs take
still_waiting = refl

complete_pending_urbs-Settled_example :
    let s' = (complete_pending_urbs bulk_device 2000 server).1 in
    All (Settled 2000 s') s'.pending_urbs
complete_pending_urbs-Settled_example =
    complete_pending_urbs-Settled bulk_device 2000 server still_waiting

abbrev pub round : Round
round = record { ready = true; submit_now = 1000; complete_now = 2000 }

-- The transfer to endpoint 1, and then a connection that is lost.
abbrev pub client : Client
client = record {
  conn = record { input = submit_out; room = 1000; output = [] };
  rounds = round ∷ round ∷ [];
}

serve_client-Served_example :
    (out : Bool × Server InputBuffer) × (serve_client bulk_device (round ∷ round ∷ []) server
      ≡ some out)
    × Served bulk_device out
serve_client-Served_example =
    serve_client-Served bulk_device config-Walkable (round ∷ round ∷ []) server server-IsValid

usbip_server_worker_thread_lem_example :
    (s' : Server InputBuffer) × (usbip_server_worker_thread bulk_device
        (client ∷ client ∷ [])
        server
      ≡ some s')
    × IsValid s'
    × ((may_wait : Bool) (ep : ℕ) → must_wait may_wait ep s'.gadget.dev ≡ false)
usbip_server_worker_thread_lem_example =
    usbip_server_worker_thread_lem bulk_device config-Walkable (client ∷ client ∷ []) server
      server-IsValid

-- Behind the header of the transfer.
abbrev headless : Server InputBuffer
headless = record server { conn = record (server.conn) { input = drop 20 submit_out } }

-- The device has three bytes for the transfer.
abbrev server_with_data : Server InputBuffer
server_with_data = record server { gadget = record gadget { dev = loaded } }

answers_now : (complete_pending_urbs bulk_device 2000 server_with_data).0 ≡ true
unfolding complete_pending_urbs take replicate
answers_now = refl

complete_pending_urbs-Answers_example :
    let s' = (complete_pending_urbs bulk_device 2000 server_with_data).1 in
    (out : List ℕ) × Answers 2000 (waiting_urb ∷ []) s'.pending_urbs out
    × (s'.conn.output ≡ [] ++ out)
complete_pending_urbs-Answers_example =
    complete_pending_urbs-Answers bulk_device 2000 server_with_data
      (server-IsValid.0, server-IsValid.1, server-IsValid.2, server-IsValid.3, λ ep. omega arith)
      answers_now

-- The bulk device's one interface descriptor is at 9.
transmit_devlist_response_lem_example :
    transmit_devlist_response bulk_device server
    ≡ some (write (devlist_reply bulk_device (9 ∷ [])) server)
transmit_devlist_response_lem_example =
    transmit_devlist_response_lem bulk_device (9 ∷ []) server refl
      (next_here (omega arith) (omega arith) refl, tt)
