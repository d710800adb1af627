-- ===== src/Worker.antt =====
-- src/lib/usbip_server.c: how Ctrl-C stops the server, and the thread that serves one client after another.
pub mod Interrupts
pub mod Clients
pub mod Sockets
mod Tests
use usbip_server.Prelude.{
  ℕ, zero, suc, ◌+◌, ◌-◌, Bool, true, false, Option, none, some, List, [], ◌∷◌, ◌==◌, if◌then◌else◌,
}
use usbip_server.Device.Api.{UsbDevice}
use mathlib.Core.Option
use usbip_server.Device.Buffers.{stop}
use usbip_server.Protocol.Conn.{Conn}
use usbip_server.Protocol.State.{Server}
use usbip_server.Protocol.Serve.{process_imported_device, process_cmd}

-- `keep_running` and `panic_counter`, the flag `stop_server` that `tcpip_server_stop` sets, and whether
-- the program has left by `_exit`.
pub record Run : Type 0 where
  pub keep_running : ℕ
  pub panic_counter : ℕ
  pub stop_server : Bool
  pub exited : Bool

-- The values that the variables start with.
abbrev pub started : Run
started = record { keep_running = 3; panic_counter = 0; stop_server = false; exited = false }

-- The handler of SIGINT
unfoldable pub int_handler : Run → Run
int_handler r =
    if r.keep_running == 0
    then (let panics = r.panic_counter + 1 in
        record r { panic_counter = panics; exited = panics == 5 })
    else (let running = r.keep_running - 1 in
        if running == 0
        then record r { keep_running = running; stop_server = true }
        else record r { keep_running = running })

-- Ctrl-C `n` times; after `_exit` nothing handles it.
unfoldable pub ctrl_c : ℕ → Run → Run
unfolding int_handler
ctrl_c zero r = r
ctrl_c (suc n) r = let r' = ctrl_c n r in if r'.exited then r' else int_handler r'

-- `usbip_server_stop`, before it waits for the thread.
unfoldable pub usbip_server_stop : Run → Run
usbip_server_stop r = record r { keep_running = 0; stop_server = true }

unfoldable pub usbip_server_interrupted : Run → Bool
usbip_server_interrupted r = r.keep_running == 0

-- One round of serving a client: whether `tcpip_server_wait_for_data` finds data, and the times that
-- `now_us` returns.
pub record Round : Type 0 where
  pub ready : Bool
  pub submit_now : ℕ
  pub complete_now : ℕ

-- A client that `tcpip_server_wait_for_client` accepts, with the rounds before `keep_running` is 0.
pub record Client : Type 0 where
  pub conn : Conn
  pub rounds : List Round

module _ {A : Type 0} (usb : UsbDevice A) where
  -- One pass of the inner loop: true to disconnect.
  unfoldable pub process_round : Round → Server A → Option (Bool × Server A)
  process_round r s =
      if s.device_imported
      then some (process_imported_device usb r.ready r.submit_now r.complete_now s)
      else process_cmd usb s

  -- The inner loop: whether the client is disconnected, or `keep_running` is 0.
  unfoldable pub serve_client : List Round → Server A → Option (Bool × Server A)
  serve_client [] s = some (false, s)
  serve_client (r ∷ rounds) s = elim (process_round r s) [
    | none ↦ none
    | some (disconnect, s') ↦ if disconnect then some (true, s') else serve_client rounds s'
  ]

  -- The loop of `usbip_server_worker_thread`, for the clients that connect.
  unfoldable pub serve_clients : List Client → Server A → Option (Server A)
  serve_clients [] s = some s
  serve_clients (c ∷ clients) s = elim (serve_client c.rounds (record s { conn = c.conn })) [
    | none ↦ none
    | some (disconnected, s') ↦ if disconnected then serve_clients clients s' else some s'
  ]

  -- `usbip_device_stop`, on the server's state.
  unfoldable pub usbip_device_stop : Server A → Server A
  unfolding stop
  usbip_device_stop s = let g = s.gadget in record s { gadget = record g { dev = stop g.dev } }

  -- The worker thread: the clients, and then the device is stopped.
  unfoldable pub usbip_server_worker_thread : List Client → Server A → Option (Server A)
  usbip_server_worker_thread clients s = Option.map usbip_device_stop (serve_clients clients s)
