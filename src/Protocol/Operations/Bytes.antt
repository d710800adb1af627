-- ===== src/Protocol/Operations/Bytes.antt =====
-- The reply to an import, `transmit_import_response` of src/lib/usbip_protocol.c, as bytes.
use usbip_server.Prelude.{ℕ, ◌≡◌, refl, List, ◌++◌, byte, le16, length, replicate}
use usbip_server.Device.Api.{UsbDevice}
use usbip_server.Protocol.Messages.{
  codes, op_rep_head_bytes, device_id_bytes, device_descriptor_bytes,
}
use usbip_server.Protocol.State.{Server, write, ◌>>◌}
use usbip_server.Protocol.Reply.Bytes.{write->>}
use usbip_server.Protocol.Operations.{
  usbip_protocol_version, transmit_response_head, transmit_device_id, transmit_device,
  transmit_import_response,
}

-- The one device that is exported.
abbrev pub exported_id : List ℕ
unfolding device_id_bytes
exported_id = device_id_bytes (record {
  path = codes "sys/usb/virtual_device";
  bus_id = codes "1-1";
  busnum = 2;
  devnum = 3;
  speed = 3;
})

module _ {A : Type 0} (usb : UsbDevice A) where
  -- Its descriptor's fields.
  abbrev pub exported_device : List ℕ
  unfolding device_descriptor_bytes
  exported_device = device_descriptor_bytes (record {
    id_vendor = le16 usb.device_desc 8;
    id_product = le16 usb.device_desc 10;
    bcd_device = le16 usb.device_desc 12;
    b_device_class = byte usb.device_desc 4;
    b_device_sub_class = byte usb.device_desc 5;
    b_device_protocol = byte usb.device_desc 6;
    b_configuration_value = byte usb.config_desc 5;
    b_num_configurations = byte usb.device_desc 17;
    b_num_interfaces = byte usb.config_desc 4;
  })

  -- OP_REP_IMPORT: the head, the one device that is exported, and its descriptor's fields.
  unfoldable pub import_reply : List ℕ
  unfolding op_rep_head_bytes device_id_bytes device_descriptor_bytes
  import_reply =
      op_rep_head_bytes (record { version = usbip_protocol_version; reply_code = 3; status = 0 })
      ++ (exported_id ++ exported_device)

  -- The reply to an import is written as one message of 320 bytes.
  pub transmit_import_response_lem :
      (s : Server A)
      → (transmit_import_response usb s ≡ write import_reply s) × (length import_reply ≡ 320)
  unfolding transmit_import_response transmit_response_head transmit_device_id transmit_device
      import_reply replicate
  transmit_import_response_lem s = (
    write->> _ _ (transmit_device_id >> transmit_device usb) s
        (write->> exported_id _ (transmit_device usb) (transmit_response_head 3 s).1 refl),
    refl,
  )
