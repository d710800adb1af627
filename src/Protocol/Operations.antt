-- ===== src/Protocol/Operations.antt =====
-- Operations before a device is imported: the replies to OP_REQ_DEVLIST and OP_REQ_IMPORT of
-- src/lib/usbip_protocol.c.
pub mod Safety
pub mod Ends
pub mod Listing
pub mod Bytes
pub mod Chain
use usbip_server.Prelude.{
  ℕ, zero, suc, ◌+◌, Bool, true, false, not, ◌&&◌, ◌||◌, leb, length, Option, none, some, List, ltb,
  ◌==◌, if◌then◌else◌, byte, le16,
}
use usbip_server.Prelude.Loop.{while}
use usbip_server.Device.Api.{UsbDevice}
use usbip_server.Protocol.Messages.{
  be32, codes, op_rep_head_bytes, device_id_bytes, device_descriptor_bytes,
  interface_descriptor_bytes,
}
use usbip_server.Protocol.State.{Server, Step, ◌>>◌, write}

abbrev pub usbip_protocol_version : ℕ
usbip_protocol_version = 0x0111

-- The variables of the loop of `get_next_interface_idx`. `found` is its `break`, and `outside` says that it
-- has read a byte behind the configuration, which is undefined in C.
pub record Search : Type 0 where
  pub idx : ℕ
  pub desc_size : ℕ
  pub found : Bool
  pub outside : Bool

unfoldable pub searching : List ℕ → Search → Bool
searching config w = not w.outside && not w.found && ltb w.idx (le16 config 2)

unfoldable pub search_next : List ℕ → Search → Search
search_next config w =
    let idx' = w.idx + w.desc_size in
    let outside' = leb (length config) (idx' + 1) in
    if byte config (idx' + 1) == 4
    then record { idx = idx'; desc_size = w.desc_size; found = true; outside = outside' }
    else record { idx = idx'; desc_size = byte config idx'; found = false; outside = outside' }

-- `get_next_interface_idx`. `none`: a byte behind the configuration is read, or the loop does not end, for
-- it stands at a descriptor of length 0. Every other round moves on by a byte at least, so the rounds
-- suffice.
unfoldable pub get_next_interface_idx : List ℕ → ℕ → Option ℕ
unfolding while searching search_next
get_next_interface_idx config start_idx =
    let w = while (le16 config 2 + 1) (searching config) (search_next config) (record {
      idx = start_idx;
      desc_size = byte config start_idx;
      found = false;
      outside = leb (length config) start_idx;
    }) in
    if searching config w || w.outside then none else some w.idx

module _ {A : Type 0} where
  -- `transmit_response_head`
  unfoldable pub transmit_response_head : ℕ → Step A
  unfolding write op_rep_head_bytes
  transmit_response_head response_code = write (
      op_rep_head_bytes
        (record { version = usbip_protocol_version; reply_code = response_code; status = 0 }))

  -- `transmit_number_of_devices`
  unfoldable pub transmit_number_of_devices : ℕ → Step A
  unfolding write be32
  transmit_number_of_devices n = write (be32 n)

  -- `transmit_device_id`. USB_SPEED_HIGH is 3.
  unfoldable pub transmit_device_id : Step A
  unfolding write device_id_bytes
  transmit_device_id = write (
      device_id_bytes (record {
        path = codes "sys/usb/virtual_device";
        bus_id = codes "1-1";
        busnum = 2;
        devnum = 3;
        speed = 3;
      }))

module _ {A : Type 0} (usb : UsbDevice A) where
  -- `transmit_device`
  unfoldable pub transmit_device : Step A
  unfolding write device_descriptor_bytes
  transmit_device = write (
      device_descriptor_bytes (record {
        id_vendor = le16 usb.device_desc 8;
        id_product = le16 usb.device_desc 10;
        bcd_device = le16 usb.device_desc 12;
        b_device_class = byte usb.device_desc 4;
        b_device_sub_class = byte usb.device_desc 5;
        b_device_protocol = byte usb.device_desc 6;
        b_configuration_value = byte usb.config_desc 5;
        b_num_configurations = byte usb.device_desc 17;
        b_num_interfaces = byte usb.config_desc 4;
      }))

  -- One interface of the list.
  unfoldable pub transmit_interface : ℕ → Step A
  unfolding write interface_descriptor_bytes
  transmit_interface iface_idx = write (
      interface_descriptor_bytes (record {
        b_interface_class = byte usb.config_desc (iface_idx + 5);
        b_interface_sub_class = byte usb.config_desc (iface_idx + 6);
        b_interface_protocol = byte usb.config_desc (iface_idx + 7);
      }))

  -- The loop over the interfaces, with the rounds left. The search comes before the test of `status`,
  -- so it is made once after a failed write too.
  unfoldable pub transmit_interfaces : ℕ → ℕ → Bool × Server A → Option (Bool × Server A)
  unfolding get_next_interface_idx transmit_interface
  transmit_interfaces zero iface_idx r = some r
  transmit_interfaces (suc n) iface_idx r =
      elim (get_next_interface_idx usb.config_desc iface_idx) [
        | none ↦ none
        | some i ↦
            let r' = if r.0 then transmit_interface i r.1 else r in
            elim (r'.0) [ true ↦ transmit_interfaces n i r' | false ↦ some r' ]
      ]

  -- `transmit_devlist_response`. OP_REP_DEVLIST is 5.
  unfoldable pub transmit_devlist_response : Server A → Option (Bool × Server A)
  unfolding transmit_response_head transmit_number_of_devices transmit_device_id transmit_device
      transmit_interfaces
  transmit_devlist_response s = transmit_interfaces (byte usb.config_desc 4) 0 (
      (transmit_response_head 5
          >> transmit_number_of_devices 1
          >> transmit_device_id
          >> transmit_device)
        s)

  -- `transmit_import_response`. OP_REP_IMPORT is 3.
  unfoldable pub transmit_import_response : Step A
  unfolding transmit_response_head transmit_device_id transmit_device
  transmit_import_response = transmit_response_head 3 >> transmit_device_id >> transmit_device
