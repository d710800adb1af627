-- ===== src/Worker/Sockets.antt =====
-- Starting and ending in src/lib/usbip_server.c, with the sockets of src/lib/tcpip_server.c.
pub mod Life
use usbip_server.Prelude.{ℕ, Bool, true, false, Option, none, some, List, [], ◌∷◌, if◌then◌else◌}
use mathlib.Core.Option
use usbip_server.Device.Api.{UsbDevice}
use usbip_server.Protocol.State.{Server}
use usbip_server.Tcpip.Sockets.{
  Sockets, tcpip_server_close, tcpip_server_close_client, open_descriptor, Opening,
  tcpip_server_open, Knock, tcpip_server_wait_for_client,
}
use usbip_server.Worker.{Client, serve_client, usbip_device_stop}

-- The values that the variables start with.
abbrev pub no_sockets : Sockets
no_sockets = record { server_socket = none; client_socket = none; descriptors = [] }

-- "127.0.0.1"
abbrev pub usbip_default_bind_address : List ℕ
usbip_default_bind_address = 49 ∷ 50 ∷ 55 ∷ 46 ∷ 48 ∷ 46 ∷ 48 ∷ 46 ∷ 49 ∷ []

-- What `eventfd` returns, the value of USBIP_BIND_ADDRESS, and whether `pthread_create` succeeds.
pub record Startup : Type 0 where
  pub event_fd : Option ℕ
  pub bind_address : Option (List ℕ)
  pub opening : Opening
  pub thread_created : Bool

-- `usbip_device_init`
unfoldable pub usbip_device_init : Option ℕ → Sockets → Bool × Sockets
usbip_device_init none s = (false, s)
usbip_device_init (some fd) s =
    (true, record s { descriptors = open_descriptor (some fd) s.descriptors })

abbrev pub address_or_default : Option (List ℕ) → List ℕ
address_or_default none = usbip_default_bind_address
address_or_default (some address) = address

-- `usbip_server_start`. `inet_pton` says whether the text is an address.
unfoldable pub usbip_server_start : (inet_pton : List ℕ → Bool) → Startup → Sockets → Bool × Sockets
unfolding usbip_device_init tcpip_server_open
usbip_server_start inet_pton o s =
    let (status, initialised) = usbip_device_init o.event_fd s in
    let (status', opened) =
      tcpip_server_open o.opening (inet_pton (address_or_default o.bind_address)) initialised in
    if status
    then if status' then (o.thread_created, opened) else (false, opened)
    else (false, initialised)

-- One pass of the outer loop: who is there, and what a client that is accepted does.
pub record Visit : Type 0 where
  pub knock : Knock
  pub client : Client

module _ {A : Type 0} (usb : UsbDevice A) where
  -- The loop of `usbip_server_worker_thread`.
  unfoldable pub worker_loop : List Visit → Sockets → Server A → Option (Sockets × Server A)
  unfolding tcpip_server_wait_for_client tcpip_server_close_client serve_client
  worker_loop [] t s = some (t, s)
  worker_loop (v ∷ visits) t s =
      let (connected, t') = tcpip_server_wait_for_client v.knock t in
      elim connected [
        | false ↦ worker_loop visits t' s
        | true ↦ elim (serve_client usb v.client.rounds (record s { conn = v.client.conn })) [
          | none ↦ none
          | some (disconnected, s') ↦
              let t'' = tcpip_server_close_client t' in
              elim disconnected [ true ↦ worker_loop visits t'' s' | false ↦ some (t'', s') ]
        ]
      ]

  unfoldable pub worker_thread : List Visit → Sockets → Server A → Option (Sockets × Server A)
  unfolding worker_loop usbip_device_stop tcpip_server_close
  worker_thread visits t s =
      Option.map
        (λ (end : Sockets × Server A). (tcpip_server_close end.0, usbip_device_stop usb end.1))
        (worker_loop visits t s)

  -- The server from its start to the end of its thread.
  unfoldable pub serve :
      (List ℕ → Bool) → Startup → List Visit → Sockets → Server A → Option (Sockets × Server A)
  unfolding usbip_server_start worker_thread
  serve inet_pton o visits t s =
      let (status, t') = usbip_server_start inet_pton o t in
      if status then worker_thread visits t' s else some (t', s)
