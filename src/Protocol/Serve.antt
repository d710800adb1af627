-- ===== src/Protocol/Serve.antt =====
-- `usbip_protocol_process_cmd` and `usbip_protocol_process_imported_device` of
-- src/lib/usbip_protocol.c, which the server thread calls in turn.
pub mod Safety
pub mod Ends
pub mod Rounds
use usbip_server.Prelude.{
  ℕ, Bool, true, false, not, ◌&&◌, Option, none, some, [], ◌==◌, if◌then◌else◌,
}
use mathlib.Core.Option
use usbip_server.Device.Api.{UsbDevice}
use usbip_server.Device.Buffers.{clear_event}
use usbip_server.Device.Control.{reset}
use usbip_server.Protocol.Messages.{read_header_basic, read_op_req_head}
use usbip_server.Protocol.State.{Server, Step, wait_timeout_default, read}
use usbip_server.Protocol.Endpoints.{load_endpoints}
use usbip_server.Protocol.Submit.{process_submit}
use usbip_server.Protocol.Unlink.{process_unlink}
use usbip_server.Protocol.Complete.{complete_pending_urbs}
use usbip_server.Protocol.Operations.{
  usbip_protocol_version, transmit_devlist_response, transmit_import_response,
}

-- `disconnect`, from the `status` of the operation.
unfoldable pub stay_if_imported : {A : Type 0} → Bool × Server A → Bool × Server A
stay_if_imported r = (not (r.0 && r.1.device_imported), r.1)

module _ {A : Type 0} (usb : UsbDevice A) where
  -- `process_imported_cmd`. USBIP_CMD_SUBMIT is 1, USBIP_CMD_UNLINK is 2.
  unfoldable pub process_imported_cmd : ℕ → Step A
  unfolding read read_header_basic process_submit process_unlink
  process_imported_cmd now s =
      let (status, bytes, s') = read 20 s in
      let h = read_header_basic bytes in
      if status
      then (if h.command == 1
          then process_submit usb now h.seqnum h.ep h.direction s'
          else if h.command == 2
          then process_unlink h.seqnum s'
          else (false, s'))
      else (false, s')

  -- The connection is lost.
  unfoldable pub lose_connection : Server A → Server A
  unfolding reset
  lose_connection s = record s {
    device_imported = false;
    pending_urbs = [];
    gadget = reset usb s.gadget;
  }

  -- `usbip_protocol_process_imported_device`: true to disconnect. `ready` is what
  -- `tcpip_server_wait_for_data` returns; `submit_now` and `complete_now` are the times that `now_us`
  -- returns while the command is handled and when the pending transfers are gone through.
  unfoldable pub process_imported_device : Bool → ℕ → ℕ → Step A
  unfolding process_imported_cmd clear_event complete_pending_urbs lose_connection
  process_imported_device ready submit_now complete_now s =
      let (status, s') = if ready then process_imported_cmd submit_now s else (true, s) in
      let cleared =
        let g = s'.gadget in record s' { gadget = record g { dev = clear_event g.dev } } in
      let (status', s'') =
        if status then complete_pending_urbs usb complete_now cleared else (false, cleared) in
      if status' then (false, s'') else (true, lose_connection s'')

  -- OP_REQ_IMPORT: a new host starts with a freshly reset device.
  unfoldable pub import_device : Step A
  unfolding load_endpoints reset transmit_import_response
  import_device s =
      let (imported, s') = transmit_import_response usb (record s {
        pending_urbs = [];
        wait_timeout_us = wait_timeout_default;
        endpoints = load_endpoints usb.config_desc;
        gadget = reset usb s.gadget;
      }) in
      (true, record s' { device_imported = imported })

  -- The operation's `status`, and `none` where the device list does not end or reads a byte behind the
  -- configuration. OP_REQ_DEVLIST is 0x8005 and OP_REQ_IMPORT is 0x8003, which is followed by a bus id of 32 bytes.
  unfoldable pub process_operation : Server A → Option (Bool × Server A)
  unfolding read read_op_req_head transmit_devlist_response import_device
  process_operation s =
      let (status, bytes, s') = read 8 s in
      let head = read_op_req_head bytes in
      if status && head.version == usbip_protocol_version
      then (if head.command_code == 0x8005
          then transmit_devlist_response usb s'
          else if head.command_code == 0x8003
          then (let (status', busid, s'') = read 32 s' in
              some (if status' then import_device s'' else (false, s'')))
          else some (false, s'))
      else some (false, s')

  -- `usbip_protocol_process_cmd`: true to disconnect.
  unfoldable pub process_cmd : Server A → Option (Bool × Server A)
  unfolding process_operation stay_if_imported
  process_cmd s = Option.map stay_if_imported (process_operation s)
