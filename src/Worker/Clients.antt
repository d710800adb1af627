-- ===== src/Worker/Clients.antt =====
-- The clients of `usbip_server_worker_thread` of src/lib/usbip_server.c, one after another.
use usbip_server.Prelude.{
  ℕ, ◌≡◌, refl, Bool, true, false, not, ◌&&◌, Option, none, some, List, [], ◌∷◌, ◌==◌, arith,
  if◌then◌else◌, if_elim, Bool-cases, inl, inr, ap, ◌∙◌,
}
use mathlib.Core.Option
use mathlib.Core.Path.{subst}
use mathlib.Core.Option.{some-injective}
use usbip_server.Device.Api.{UsbDevice}
use usbip_server.Protocol.Messages.{OpReqHead, read_op_req_head}
use usbip_server.Device.Buffers.{stop, must_wait}
use usbip_server.Protocol.State.{Server, read}
use usbip_server.Protocol.State.Invariant.{IsValid}
use usbip_server.Protocol.Operations.{usbip_protocol_version, transmit_devlist_response}
use usbip_server.Protocol.Operations.Safety.{Returned, transmit_devlist_response-keeps}
use usbip_server.Protocol.Operations.Ends.{Walkable}
use usbip_server.Protocol.Serve.{
  import_device, process_operation, stay_if_imported, process_cmd, process_imported_device,
  lose_connection,
}
use usbip_server.Protocol.Serve.Safety.{process_imported_device-IsValid}
use usbip_server.Protocol.Serve.Ends.{process_cmd-Ends}
use usbip_server.Worker.{
  Round, Client, process_round, serve_client, serve_clients, usbip_device_stop,
  usbip_server_worker_thread,
}

module _ {A : Type 0} (usb : UsbDevice A) where
  -- A client that is disconnected leaves no device imported.
  abbrev Released : Bool × Server A → Type 0
  Released r = r.0 ≡ true → r.1.device_imported ≡ false

  abbrev Unimported : Server A → Type 0
  Unimported s = s.device_imported ≡ false

  not-true : (b : Bool) → not b ≡ true → b ≡ false
  not-true true h = cc
  not-true false h = refl

  abbrev Leaves : Option (Bool × Server A) → Type 0
  Leaves none = Unit
  Leaves (some r) = Released (not (r.0 && r.1.device_imported), r.1)

  Leaves-Unimported : (o : Option (Bool × Server A)) → Returned Unimported o → Leaves o
  Leaves-Unimported none h = tt
  Leaves-Unimported (some r) h = λ done. h

  Leaves-imported : (s : Server A) → Leaves (some (import_device usb s))
  unfolding import_device
  Leaves-imported s done = not-true (import_device usb s).1.device_imported done

  Released-if :
      (status : Bool) (kept lost : Server A)
      → Unimported lost
      → Released (if status then (false, kept) else (true, lost))
  Released-if true kept lost h = λ off. cc
  Released-if false kept lost h = λ _. h

  process_operation-Released : (s : Server A) → Unimported s → Leaves (process_operation usb s)
  unfolding process_operation
  process_operation-Released s h =
      if_elim {A = Option (Bool × Server A)} Leaves (r.0 && head.version == usbip_protocol_version)
        (if_elim {A = Option (Bool × Server A)} Leaves (head.command_code == 0x8005)
          (Leaves-Unimported (transmit_devlist_response usb r.2) (
            transmit_devlist_response-keeps usb Unimported
              (λ m only s u. (ap (λ (x : Server A). x.device_imported) (only s) ∙ u)) r.2 h))
          (if_elim {A = Option (Bool × Server A)} Leaves (head.command_code == 0x8003)
            (if_elim {A = Bool × Server A} (λ x. Leaves (some x)) (read 32 r.2).0
              (Leaves-imported (read 32 r.2).2) (λ done. h))
            (λ done. h)))
        (λ done. h)
    where
      r : Bool × List ℕ × Server A
      r = read 8 s

      head : OpReqHead
      head = read_op_req_head r.1

  process_cmd-Released :
      (s : Server A) (r : Bool × Server A) → Unimported s → process_cmd usb s ≡ some r → Released r
  unfolding process_cmd stay_if_imported
  process_cmd-Released s r h e = mapped (process_operation usb s) (process_operation-Released s h) e
    where
      mapped :
          (o : Option (Bool × Server A))
          → Leaves o
          → Option.map stay_if_imported o ≡ some r
          → Released r
      mapped none h e = cc
      mapped (some r') h e = subst Released (some-injective _ _ e) h

  process_imported_device-Released :
      (ready : Bool) (submit_now complete_now : ℕ) (s : Server A)
      → Released (process_imported_device usb ready submit_now complete_now s)
  unfolding process_imported_device lose_connection
  process_imported_device-Released ready submit_now complete_now s = Released-if _ _ _ refl

  abbrev pub Served : Bool × Server A → Type 0
  Served r = IsValid r.1 × Released r

  module _ (walk : Walkable usb.config_desc) where
    process_round-Served :
        (r : Round) (s : Server A)
        → IsValid s
        → (out : Bool × Server A) × (process_round usb r s ≡ some out) × Served out
    unfolding process_round
    process_round-Served r s v = elim (Bool-cases s.device_imported) [
      | inl on ↦ (
        process_imported_device usb r.ready r.submit_now r.complete_now s,
        ap choose on,
        (
          process_imported_device-IsValid usb r.ready r.submit_now r.complete_now s v,
          process_imported_device-Released r.ready r.submit_now r.complete_now s,
        ),
      )
      | inr off ↦
          let (out, e, v') = process_cmd-Ends usb s walk v in
          (out, ap choose off ∙ e, (v', process_cmd-Released s out off e))
    ]
      where
        choose : Bool → Option (Bool × Server A)
        choose imported =
            if imported
            then some (process_imported_device usb r.ready r.submit_now r.complete_now s)
            else process_cmd usb s

    -- Whatever a client sends in any number of rounds, and whatever the device's callbacks do, serving it
    -- comes to an end that keeps the invariant of the protocol's state, and a client that is disconnected
    -- leaves no device imported, for a device whose configuration has the interfaces that it announces.
    pub serve_client-Served :
        (rounds : List Round) (s : Server A)
        → IsValid s
        → (out : Bool × Server A) × (serve_client usb rounds s ≡ some out) × Served out
    unfolding serve_client
    serve_client-Served [] s v = ((false, s), refl, (v, λ off. cc))
    serve_client-Served (r ∷ rounds) s v =
        let ((disconnect, s'), e, (v', free)) = process_round-Served r s v in
        elim (Bool-cases disconnect) [
          | inl out ↦ ((true, s'), rw (serve_client, e, out) refl, (v', λ _. free out))
          | inr on ↦
              let (out, e', h) = serve_client-Served rounds s' v' in
              (out, rw (serve_client, e, on) e', h)
        ]

    serve_clients-IsValid :
        (clients : List Client) (s : Server A)
        → IsValid s
        → (s' : Server A) × (serve_clients usb clients s ≡ some s') × IsValid s'
    unfolding serve_clients
    serve_clients-IsValid [] s v = (s, refl, v)
    serve_clients-IsValid (c ∷ clients) s v =
        let ((disconnected, s'), e, (v', free)) =
          serve_client-Served c.rounds (record s { conn = c.conn }) v in
        elim (Bool-cases disconnected) [
          | inl out ↦
              let (s'', e', v'') = serve_clients-IsValid clients s' v' in
              (s'', rw (serve_clients, e, out) e', v'')
          | inr on ↦ (s', rw (serve_clients, e, on) refl, v')
        ]

    -- The server thread serves any clients one after another until it is told to stop, whatever they
    -- send: it comes to an end and keeps the invariant of the protocol's state, and after it no call of
    -- `usbip_device_transmit` waits, for a device whose configuration has the interfaces that it announces.
    pub usbip_server_worker_thread_lem :
        (clients : List Client) (s : Server A)
        → IsValid s
        → (s' : Server A) × (usbip_server_worker_thread usb clients s ≡ some s')
          × IsValid s'
          × ((may_wait : Bool) (ep : ℕ) → must_wait may_wait ep s'.gadget.dev ≡ false)
    unfolding usbip_server_worker_thread usbip_device_stop must_wait stop
    usbip_server_worker_thread_lem clients s v =
        let (s', e, v') = serve_clients-IsValid clients s v in
        (
          usbip_device_stop usb s',
          ap (Option.map (usbip_device_stop usb)) e,
          (v'.0, v'.1, v'.2, v'.3, λ ep. omega arith),
          λ may_wait ep. ground arith,
        )
