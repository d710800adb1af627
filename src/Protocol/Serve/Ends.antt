-- ===== src/Protocol/Serve/Ends.antt =====
-- `usbip_protocol_process_cmd` of src/lib/usbip_protocol.c: when it returns.
use usbip_server.Prelude.{ℕ, ◌≡◌, refl, Bool, ◌&&◌, Option, some, ◌==◌, if_elim, ap, List}
use mathlib.Core.Option
use mathlib.Core.Path.{subst}
use usbip_server.Device.Api.{UsbDevice}
use usbip_server.Protocol.Messages.{OpReqHead, read_op_req_head}
use usbip_server.Protocol.State.{Server, read}
use usbip_server.Protocol.State.Invariant.{IsValid}
use usbip_server.Protocol.Operations.{usbip_protocol_version}
use usbip_server.Protocol.Operations.Safety.{Returned}
use usbip_server.Protocol.Operations.Ends.{Walkable, Ends, transmit_devlist_response-Ends}
use usbip_server.Protocol.Serve.{process_operation, stay_if_imported, process_cmd}
use usbip_server.Protocol.Serve.Safety.{process_cmd-IsValid}

module _ {A : Type 0} (usb : UsbDevice A) where
  process_operation-Ends :
      (s : Server A) → Walkable usb.config_desc → Ends usb (process_operation usb s)
  unfolding process_operation
  process_operation-Ends s walk =
      if_elim {A = Option (Bool × Server A)} (Ends usb)
        (r.0 && head.version == usbip_protocol_version)
        (if_elim {A = Option (Bool × Server A)} (Ends usb) (head.command_code == 0x8005)
          (transmit_devlist_response-Ends usb r.2 walk)
          (if_elim {A = Option (Bool × Server A)} (Ends usb) (head.command_code == 0x8003) (_, refl)
            (_, refl)))
        (_, refl)
    where
      r : Bool × List ℕ × Server A
      r = read 8 s

      head : OpReqHead
      head = read_op_req_head r.1

  -- Every operation of the client, a device list, an import or anything else, comes to an end and keeps
  -- the invariant of the protocol's state, for a device whose configuration has the interfaces that it
  -- announces.
  pub process_cmd-Ends :
      (s : Server A)
      → Walkable usb.config_desc
      → IsValid s
      → (r : Bool × Server A) × (process_cmd usb s ≡ some r) × IsValid r.1
  unfolding process_cmd
  process_cmd-Ends s walk v =
      let (r, e) = process_operation-Ends s walk in
      let e' : process_cmd usb s ≡ some (stay_if_imported r) = ap (Option.map stay_if_imported) e in
      (stay_if_imported r, e', subst (Returned IsValid) e' (process_cmd-IsValid usb s v))
