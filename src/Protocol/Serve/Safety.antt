-- ===== src/Protocol/Serve/Safety.antt =====
-- The calls of the server thread to src/lib/usbip_protocol.c and the protocol's invariant.
use usbip_server.Prelude.{
  ℕ, Bool, true, false, ◌&&◌, Option, none, some, List, arith, ◌==◌, if◌then◌else◌, if_elim,
}
use mathlib.Core.Option
use usbip_server.Device.Api.{UsbDevice}
use usbip_server.Device.Buffers.{clear_event}
use usbip_server.Device.Buffers.Capacity.{Fits, transmit_now-Fits, reset_buffers-Fits}
use usbip_server.Device.Control.Preserve.{reset-keeps}
use usbip_server.Protocol.Messages.{HeaderBasic, OpReqHead, read_header_basic, read_op_req_head}
use usbip_server.Protocol.State.{Server, read}
use usbip_server.Protocol.State.Invariant.{IsValid, ConnOnly-IsValid, read-IsValid}
use usbip_server.Protocol.Submit.Safety.Iso.{Safe}
use usbip_server.Protocol.Submit.Safety.{process_submit-IsValid}
use usbip_server.Protocol.Unlink.Safety.{process_unlink-IsValid}
use usbip_server.Protocol.Complete.{complete_pending_urbs}
use usbip_server.Protocol.Complete.Safety.{complete_pending_urbs-IsValid}
use usbip_server.Protocol.Operations.{transmit_import_response, usbip_protocol_version}
use usbip_server.Protocol.Operations.Safety.{
  Returned, transmit_import_response-ConnOnly, transmit_devlist_response-keeps,
}
use usbip_server.Protocol.Serve.{
  process_imported_cmd, lose_connection, process_imported_device, import_device, process_operation,
  stay_if_imported, process_cmd,
}

module _ {A : Type 0} (usb : UsbDevice A) where
  pub process_imported_cmd-Safe :
      (now : ℕ) (s : Server A) → IsValid s → Safe (process_imported_cmd usb now s)
  unfolding process_imported_cmd
  process_imported_cmd-Safe now s v =
      if_elim {A = Bool × Server A} Safe r.0
        (if_elim {A = Bool × Server A} Safe (h.command == 1)
          (process_submit-IsValid usb now h.seqnum h.ep h.direction r.2 v')
          (if_elim {A = Bool × Server A} Safe (h.command == 2)
            (process_unlink-IsValid h.seqnum r.2 v') v'))
        v'
    where
      r : Bool × List ℕ × Server A
      r = read 20 s

      h : HeaderBasic
      h = read_header_basic r.1

      v' : IsValid r.2
      v' = read-IsValid 20 s v

  lose_connection-IsValid : (s : Server A) → IsValid s → IsValid (lose_connection usb s)
  unfolding lose_connection
  lose_connection-IsValid s v = (
    (omega arith, tt),
    v.1,
    v.2,
    v.3,
    reset-keeps Fits transmit_now-Fits usb s.gadget (reset_buffers-Fits s.gadget.dev),
  )

  -- Whatever the client sends, whatever the device's callbacks do and whichever step fails, one round
  -- of serving an imported device keeps the invariant: at most 32 transfers are pending, each with its
  -- buffer and packets in bounds and none an OUT transfer that is not isochronous, the time to wait is
  -- above 0 and at most 500 ms, `rx_buffer` and `tx_buffer` are not written past their 64 KB, and no
  -- endpoint buffer holds more than 512 bytes.
  pub process_imported_device-IsValid :
      (ready : Bool) (submit_now complete_now : ℕ) (s : Server A)
      → IsValid s
      → IsValid (process_imported_device usb ready submit_now complete_now s).1
  unfolding process_imported_device clear_event
  process_imported_device-IsValid ready submit_now complete_now s v =
      if_elim {A = Bool × Server A} Safe done.0 completed (lose_connection-IsValid done.1 completed)
    where
      handled : Bool × Server A
      handled = if ready then process_imported_cmd usb submit_now s else (true, s)

      cleared : Server A
      cleared = record (handled.1) {
        gadget = record (handled.1.gadget) { dev = clear_event handled.1.gadget.dev };
      }

      done : Bool × Server A
      done = if handled.0 then complete_pending_urbs usb complete_now cleared else (false, cleared)

      kept : IsValid handled.1
      kept = if_elim {A = Bool × Server A} Safe ready (process_imported_cmd-Safe submit_now s v) v

      completed : IsValid done.1
      completed =
          if_elim {A = Bool × Server A} Safe handled.0
            (complete_pending_urbs-IsValid usb complete_now cleared kept) kept

  import_device-Safe : (s : Server A) → IsValid s → Safe (import_device usb s)
  unfolding import_device
  import_device-Safe s v =
      ConnOnly-IsValid (transmit_import_response usb) (transmit_import_response-ConnOnly usb) _ (
        (omega arith, tt),
        (omega arith, omega arith),
        v.2,
        v.3,
        reset-keeps Fits transmit_now-Fits usb s.gadget (reset_buffers-Fits s.gadget.dev),
      )

  process_operation-Returned :
      (s : Server A) → IsValid s → Returned IsValid (process_operation usb s)
  unfolding process_operation
  process_operation-Returned s v =
      if_elim {A = Option (Bool × Server A)} (Returned IsValid)
        (r.0 && head.version == usbip_protocol_version)
        (if_elim {A = Option (Bool × Server A)} (Returned IsValid) (head.command_code == 0x8005)
          (transmit_devlist_response-keeps usb IsValid (λ m. ConnOnly-IsValid m) r.2 v')
          (if_elim {A = Option (Bool × Server A)} (Returned IsValid) (head.command_code == 0x8003)
            (if_elim {A = Bool × Server A} Safe busid.0 (import_device-Safe busid.2 v'') v'') v'))
        v'
    where
      r : Bool × List ℕ × Server A
      r = read 8 s

      head : OpReqHead
      head = read_op_req_head r.1

      v' : IsValid r.2
      v' = read-IsValid 8 s v

      busid : Bool × List ℕ × Server A
      busid = read 32 r.2

      v'' : IsValid busid.2
      v'' = read-IsValid 32 r.2 v'

  -- An operation, a device list, an import or anything else, keeps the invariant of the protocol's
  -- state if it returns.
  pub process_cmd-IsValid : (s : Server A) → IsValid s → Returned IsValid (process_cmd usb s)
  unfolding process_cmd
  process_cmd-IsValid s v = map_keeps (process_operation usb s) (process_operation-Returned s v)
    where
      map_keeps :
          (o : Option (Bool × Server A))
          → Returned IsValid o
          → Returned IsValid (Option.map stay_if_imported o)
      map_keeps none h = tt
      map_keeps (some r) h = h
