-- ===== src/Protocol/Messages.antt =====
-- The messages of src/lib/usbip_protocol_definitions.h as bytes on the wire. All fields are big endian:
-- `SWAP32` on a field of a packed struct writes or reads it so.
pub mod RoundTrip
use Prim.Native.Char.{code}
use Prim.Native.String.{String}
use usbip_server.Prelude.{
  ℕ, ◌+◌, ◌-◌, ◌*◌, ◌/◌, ◌%◌, ◌^◌, List, [], ◌∷◌, ◌++◌, length, take, drop, replicate, byte,
}

-- `SWAP16` and `SWAP32` of a field that is written
unfoldable pub be16 : ℕ → List ℕ
be16 x = x / 2 ^ 8 % 256 ∷ x % 256 ∷ []

unfoldable pub be32 : ℕ → List ℕ
be32 x = x / 2 ^ 24 % 256 ∷ x / 2 ^ 16 % 256 ∷ x / 2 ^ 8 % 256 ∷ x % 256 ∷ []

-- `SWAP16` and `SWAP32` of a field that was read, at its offset in the struct
unfoldable pub be16_at : List ℕ → ℕ → ℕ
be16_at d i = byte d i * 2 ^ 8 + byte d (i + 1)

unfoldable pub be32_at : List ℕ → ℕ → ℕ
be32_at d i = byte d i * 2 ^ 24 + byte d (i + 1) * 2 ^ 16 + byte d (i + 2) * 2 ^ 8 + byte d (i + 3)

-- `op_req_head_t`
pub record OpReqHead : Type 0 where
  pub version : ℕ
  pub command_code : ℕ

unfoldable pub read_op_req_head : List ℕ → OpReqHead
unfolding be16_at
read_op_req_head d = record { version = be16_at d 0; command_code = be16_at d 2 }

-- `usbip_header_basic_t`
pub record HeaderBasic : Type 0 where
  pub command : ℕ
  pub seqnum : ℕ
  pub devid : ℕ
  pub direction : ℕ
  pub ep : ℕ

unfoldable pub read_header_basic : List ℕ → HeaderBasic
unfolding be32_at
read_header_basic d = record {
  command = be32_at d 0;
  seqnum = be32_at d 4;
  devid = be32_at d 8;
  direction = be32_at d 12;
  ep = be32_at d 16;
}

unfoldable pub header_basic_bytes : HeaderBasic → List ℕ
unfolding be32
header_basic_bytes h =
    be32 h.command ++ be32 h.seqnum ++ be32 h.devid ++ be32 h.direction ++ be32 h.ep

-- `usbip_cmd_submit_t`
pub record CmdSubmit : Type 0 where
  pub transfer_flags : ℕ
  pub transfer_buffer_length : ℕ
  pub start_frame : ℕ
  pub number_of_packets : ℕ
  pub interval : ℕ
  pub setup : List ℕ

unfoldable pub read_cmd_submit : List ℕ → CmdSubmit
unfolding be32_at
read_cmd_submit d = record {
  transfer_flags = be32_at d 0;
  transfer_buffer_length = be32_at d 4;
  start_frame = be32_at d 8;
  number_of_packets = be32_at d 12;
  interval = be32_at d 16;
  setup = take 8 (drop 20 d);
}

-- `usbip_ret_submit_t`, `padding` is 0
pub record RetSubmit : Type 0 where
  pub status : ℕ
  pub actual_length : ℕ
  pub start_frame : ℕ
  pub number_of_packets : ℕ
  pub error_count : ℕ

unfoldable pub ret_submit_bytes : RetSubmit → List ℕ
unfolding be32
ret_submit_bytes r =
    be32 r.status
    ++ be32 r.actual_length
    ++ be32 r.start_frame
    ++ be32 r.number_of_packets
    ++ be32 r.error_count
    ++ replicate 8 0

-- `usbip_iso_packet_descriptor_t`
pub record IsoPacketDescriptor : Type 0 where
  pub offset : ℕ
  pub length : ℕ
  pub actual_length : ℕ
  pub status : ℕ

unfoldable pub iso_packet_descriptor_bytes : IsoPacketDescriptor → List ℕ
unfolding be32
iso_packet_descriptor_bytes p =
    be32 p.offset ++ be32 p.length ++ be32 p.actual_length ++ be32 p.status

-- `usbip_cmd_unlink_t`, its one field
unfoldable pub read_unlink_seqnum : List ℕ → ℕ
unfolding be32_at
read_unlink_seqnum d = be32_at d 0

-- `usbip_ret_unlink_t`
unfoldable pub ret_unlink_bytes : ℕ → List ℕ
unfolding be32
ret_unlink_bytes status = be32 status ++ replicate 24 0

-- `op_rep_head_t`
pub record OpRepHead : Type 0 where
  pub version : ℕ
  pub reply_code : ℕ
  pub status : ℕ

unfoldable pub op_rep_head_bytes : OpRepHead → List ℕ
unfolding be16 be32
op_rep_head_bytes h = be16 h.version ++ be16 h.reply_code ++ be32 h.status

-- The bytes of a text, and a text in a `char` array of `size` bytes that is zero behind it.
abbrev pub codes : String → List ℕ
codes String.[] = []
codes (String.◌∷◌ c s) = code c ∷ codes s

unfoldable pub char_array : ℕ → List ℕ → List ℕ
char_array size text = text ++ replicate (size - length text) 0

-- `usbip_device_id_t`
pub record DeviceId : Type 0 where
  pub path : List ℕ
  pub bus_id : List ℕ
  pub busnum : ℕ
  pub devnum : ℕ
  pub speed : ℕ

unfoldable pub device_id_bytes : DeviceId → List ℕ
unfolding be32 char_array
device_id_bytes d =
    char_array 256 d.path
    ++ char_array 32 d.bus_id
    ++ be32 d.busnum
    ++ be32 d.devnum
    ++ be32 d.speed

-- `usbip_device_descriptor_t`
pub record DeviceDescriptor : Type 0 where
  pub id_vendor : ℕ
  pub id_product : ℕ
  pub bcd_device : ℕ
  pub b_device_class : ℕ
  pub b_device_sub_class : ℕ
  pub b_device_protocol : ℕ
  pub b_configuration_value : ℕ
  pub b_num_configurations : ℕ
  pub b_num_interfaces : ℕ

unfoldable pub device_descriptor_bytes : DeviceDescriptor → List ℕ
unfolding be16
device_descriptor_bytes d =
    be16 d.id_vendor
    ++ be16 d.id_product
    ++ be16 d.bcd_device
    ++ d.b_device_class ∷ d.b_device_sub_class ∷ d.b_device_protocol ∷ []
    ++ d.b_configuration_value ∷ d.b_num_configurations ∷ d.b_num_interfaces ∷ []

-- `usbip_interface_descriptor_t`
pub record InterfaceDescriptor : Type 0 where
  pub b_interface_class : ℕ
  pub b_interface_sub_class : ℕ
  pub b_interface_protocol : ℕ

unfoldable pub interface_descriptor_bytes : InterfaceDescriptor → List ℕ
interface_descriptor_bytes i =
    i.b_interface_class ∷ i.b_interface_sub_class ∷ i.b_interface_protocol ∷ 0 ∷ []
