-- ===== src/Worker/Sockets/Life.antt =====
-- What the sockets of src/lib/usbip_server.c are over the life of the server.
use usbip_server.Prelude.{
  ℕ, zero, suc, ◌≡◌, ◌≢◌, inl, inr, refl, sym, ap, ◌∙◌, Bool, true, false, Option, none, some, List,
  [], ◌∷◌, arith, if◌then◌else◌, if_split, Bool-cases, Option-cases, All,
}
use mathlib.Core.Option
use usbip_server.Device.Api.{UsbDevice}
use usbip_server.Protocol.State.{Server}
use usbip_server.Protocol.State.Invariant.{IsValid}
use usbip_server.Protocol.Operations.Ends.{Walkable}
use usbip_server.Tcpip.Sockets.{
  Sockets, tcpip_server_close, tcpip_server_close_client, open_descriptor, tcpip_server_open, Knock,
  no_client, arrived, tcpip_server_wait_for_client,
}
use usbip_server.Tcpip.Sockets.Owned.{
  Owns, close_client-Owns, wait_for_client-Owns, Opened, open-Owns, all_closed, no_client_left,
}
use usbip_server.Worker.{Client, serve_clients, usbip_device_stop, usbip_server_worker_thread}
use usbip_server.Worker.Clients.{serve_client-Served}
use usbip_server.Worker.Sockets.{
  no_sockets, Startup, usbip_device_init, address_or_default, usbip_server_start, Visit,
  worker_loop, worker_thread, serve,
}

-- The clients that are accepted.
abbrev pub accepted : List Visit → List Client
accepted [] = []
accepted (v ∷ visits) =
    if (tcpip_server_wait_for_client v.knock no_sockets).0
    then v.client ∷ accepted visits
    else accepted visits

-- Standard input is open, so `accept` returns another descriptor than 0.
abbrev pub NotStdin : Visit → Type 0
NotStdin v = v.knock ≢ arrived (some 0)

-- No client's socket is open.
abbrev Idle : List ℕ → Sockets → Type 0
Idle others t = Owns others t × (t.client_socket ≡ none)

wait_same :
    (k : Knock) (t : Sockets)
    → (tcpip_server_wait_for_client k t).0 ≡ (tcpip_server_wait_for_client k no_sockets).0
unfolding tcpip_server_wait_for_client
wait_same no_client t = refl
wait_same (arrived none) t = refl
wait_same (arrived (some fd)) t = refl

-- A client that is not accepted leaves no socket.
wait_fails :
    (others : List ℕ) (k : Knock) (t : Sockets)
    → k ≢ arrived (some 0)
    → Idle others t
    → (tcpip_server_wait_for_client k t).0 ≡ false
    → Idle others (tcpip_server_wait_for_client k t).1
unfolding tcpip_server_wait_for_client
wait_fails others no_client t ne i alone = i
wait_fails others (arrived none) t ne i alone =
    (wait_for_client-Owns others (arrived none) t i.1 i.0, refl)
wait_fails others (arrived (some zero)) t ne i alone = absurd (ne refl)
wait_fails others (arrived (some (suc fd))) t ne i alone = absurd (ground arith)

module _ {A : Type 0} (usb : UsbDevice A) (walk : Walkable usb.config_desc) (others : List ℕ) where
  -- The loop serves the clients that are accepted, and closes each.
  worker_loop-Idle :
      (visits : List Visit) (t : Sockets) (s : Server A)
      → All NotStdin visits
      → IsValid s
      → Idle others t
      → (t' : Sockets) × (s' : Server A) × (worker_loop usb visits t s ≡ some (t', s'))
        × (serve_clients usb (accepted visits) s ≡ some s')
        × Idle others t'
  unfolding worker_loop serve_clients
  worker_loop-Idle [] t s none_zero v i = (t, s, refl, refl, i)
  worker_loop-Idle (visit ∷ visits) t s none_zero v i =
      elim (Bool-cases (tcpip_server_wait_for_client visit.knock t).0) [
        | inl connected ↦
            let ((disconnected, s'), e, (v', free)) =
              serve_client-Served usb walk visit.client.rounds
                (record s { conn = visit.client.conn }) v in
            let closed : Idle others (tcpip_server_close_client now) = (
              close_client-Owns others now (wait_for_client-Owns others visit.knock t i.1 i.0),
              no_client_left now,
            ) in
            let chosen = ap clients_if (sym (wait_same visit.knock t) ∙ connected) in
            elim (Bool-cases disconnected) [
              | inl out ↦
                  let (t'', s'', e', e'', i'') =
                    worker_loop-Idle visits (tcpip_server_close_client now) s' none_zero.1 v'
                      closed in
                  (
                    t'',
                    s'',
                    rw (worker_loop, connected, e, out) e',
                    chosen ∙ rw (serve_clients, e, out) e'',
                    i'',
                  )
              | inr on ↦ (
                tcpip_server_close_client now,
                s',
                rw (worker_loop, connected, e, on) refl,
                chosen ∙ rw (serve_clients, e, on) refl,
                closed,
              )
            ]
        | inr alone ↦
            let (t', s', e, e', i') =
              worker_loop-Idle visits (tcpip_server_wait_for_client visit.knock t).1 s none_zero.1 v
                (wait_fails others visit.knock t none_zero.0 i alone) in
            (
              t',
              s',
              rw (worker_loop, alone) e,
              ap clients_if (sym (wait_same visit.knock t) ∙ alone) ∙ e',
              i',
            )
      ]
    where
      now : Sockets
      now = (tcpip_server_wait_for_client visit.knock t).1

      clients_if : Bool → Option (Server A)
      clients_if b =
          serve_clients usb (if b then visit.client ∷ accepted visits else accepted visits) s

  -- The thread that opens and closes sockets does what `usbip_server_worker_thread` does for the clients
  -- that are accepted, and at its end it has closed all of its sockets, provided that `accept` never
  -- returns 0 and that the device's configuration has the interfaces that it announces.
  pub worker_thread_lem :
      (visits : List Visit) (t : Sockets) (s : Server A)
      → All NotStdin visits
      → IsValid s
      → Owns others t
      → t.client_socket ≡ none
      → (t' : Sockets) × (s' : Server A) × (worker_thread usb visits t s ≡ some (t', s'))
        × (usbip_server_worker_thread usb (accepted visits) s ≡ some s')
        × (t'.descriptors ≡ others)
  unfolding worker_thread usbip_server_worker_thread
  worker_thread_lem visits t s none_zero v owned free =
      let (t', s', e, e', i) = worker_loop-Idle visits t s none_zero v (owned, free) in
      (
        tcpip_server_close t',
        usbip_device_stop usb s',
        ap (Option.map _) e,
        ap (Option.map (usbip_device_stop usb)) e',
        all_closed others t' i.0 i.1,
      )

module _ (inet_pton : List ℕ → Bool) (o : Startup) where
  -- Starting opens the listening socket only if all goes well.
  start-Opened :
      o.thread_created ≡ true
      → Opened (open_descriptor o.event_fd []) (usbip_server_start inet_pton o no_sockets)
  unfolding usbip_server_start usbip_device_init
  start-Opened created = elim (Option-cases o.event_fd) [
    | inl e ↦ rw e (refl, refl, λ _. refl)
    | inr (fd, e) ↦
        let s = record no_sockets { descriptors = fd ∷ [] } in
        let is_address = inet_pton (address_or_default o.bind_address) in
        let (owned, free, shut) = open-Owns (fd ∷ []) o.opening is_address s refl refl refl in
        rw e (
          if_split {A = Bool × Sockets} (Opened (fd ∷ []))
            (tcpip_server_open o.opening is_address s).0 (λ ok. (owned, free, λ off. cc))
            (λ failed. (owned, free, λ _. shut failed)))
  ]

  module _ {A : Type 0} (usb : UsbDevice A) (walk : Walkable usb.config_desc) where
    -- No socket is left open: however starting fails, or else when the thread comes to its end after
    -- any clients and rounds without one, the only descriptor that is open is the event's, provided that
    -- `pthread_create` succeeds, that `accept` never returns 0 and that the device's configuration has
    -- the interfaces that it announces.
    pub serve_lem :
        (visits : List Visit) (s : Server A)
        → o.thread_created ≡ true
        → All NotStdin visits
        → IsValid s
        → (t' : Sockets) × (s' : Server A) × (serve usb inet_pton o visits no_sockets s
            ≡ some (t', s'))
          × (t'.descriptors ≡ open_descriptor o.event_fd [])
    unfolding serve
    serve_lem visits s created none_zero v =
        let (owned, free, shut) = start-Opened created in
        elim (Bool-cases (usbip_server_start inet_pton o no_sockets).0) [
          | inl on ↦
              let (t', s', e, e', closed) =
                worker_thread_lem usb walk (open_descriptor o.event_fd []) visits
                  (usbip_server_start inet_pton o no_sockets).1 s none_zero v owned free in
              (t', s', rw on e, closed)
          | inr off ↦ (
            (usbip_server_start inet_pton o no_sockets).1,
            s,
            rw off refl,
            owned ∙ rw (free, shut off) refl,
          )
        ]
