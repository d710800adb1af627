-- ===== src/Protocol/Reply.antt =====
-- `transmit_ret_submit` and `transmit_iso_ret_submit` of src/lib/usbip_protocol.c.
pub mod Bounds
pub mod Frame
pub mod Bytes
pub mod Iso
use usbip_server.Prelude.{
  ℕ, ◌+◌, ◌-◌, ◌%◌, Bool, true, not, ◌&&◌, List, [], ◌∷◌, ltb, ◌==◌, if◌then◌else◌, length,
  write_at, u32_mod, u64_mod,
}
use mathlib.Core.List.{flat_map}
use usbip_server.Device.Api.{UsbDevice}
use usbip_server.Device.Control.{iso_in}
use usbip_server.Protocol.Messages.{
  IsoPacketDescriptor, header_basic_bytes, ret_submit_bytes, iso_packet_descriptor_bytes,
}
use usbip_server.Protocol.State.{IsoPacket, PendingUrb, Server, Step, ◌>>◌, write, write_tx_buffer}

-- `(uint32_t)EP_STALL`, -32, and `(uint32_t)URB_UNLINKED`, -104
abbrev pub ep_stall : ℕ
ep_stall = u32_mod - 32

abbrev pub urb_unlinked : ℕ
urb_unlinked = u32_mod - 104

-- A reply's basic header: only `command` and `seqnum` are set. USBIP_RET_SUBMIT is 3, USBIP_RET_UNLINK 4.
abbrev pub reply_header : ℕ → ℕ → List ℕ
reply_header command seqnum =
    header_basic_bytes
      (record { command = command; seqnum = seqnum; devid = 0; direction = 0; ep = 0 })

module _ {A : Type 0} where
  abbrev pub succeed : Step A
  succeed s = (true, s)

  -- `transmit_ret_submit`
  unfoldable pub transmit_ret_submit : ℕ → ℕ → ℕ → Bool → Step A
  unfolding write write_tx_buffer header_basic_bytes ret_submit_bytes
  transmit_ret_submit seqnum urb_status actual_length send_data =
      write (reply_header 3 seqnum)
      >> write (
          ret_submit_bytes (record {
            status = urb_status;
            actual_length = actual_length;
            start_frame = 0;
            number_of_packets = 0xffff_ffff;
            error_count = 0;
          }))
      >> (if send_data && ltb 0 actual_length then write_tx_buffer actual_length else succeed)

-- `max_length` of a packet, behind `total_length` bytes. `space` is a `size_t` difference.
unfoldable pub packet_room : PendingUrb → IsoPacket → ℕ → ℕ
packet_room urb p total_length =
    let space = (u64_mod + urb.transfer_buffer_length - total_length) % u64_mod in
    if ltb p.length space then p.length else space

module _ {A : Type 0} (usb : UsbDevice A) where
  -- The data of one packet: its length, taken from the device for an IN transfer and put behind the
  -- `total_length` bytes before it.
  unfoldable pub packet_data : PendingUrb → IsoPacket → ℕ → Server A → ℕ × Server A
  unfolding iso_in packet_room
  packet_data urb p total_length s =
      if urb.direction == 0
      then (p.length, s)
      else (let (bytes, g) = iso_in usb urb.ep (packet_room urb p total_length) s.gadget in
          (
            length bytes,
            record s { gadget = g; tx_buffer = write_at total_length bytes s.tx_buffer },
          ))

  -- The loop over the packets: the total length, and the descriptors to send.
  unfoldable pub collect_packets :
      PendingUrb → List IsoPacket → ℕ → Server A → ℕ × List IsoPacketDescriptor × Server A
  unfolding packet_data
  collect_packets urb [] total_length s = (total_length, [], s)
  collect_packets urb (p ∷ packets) total_length s =
      let (actual_length', s') = packet_data urb p total_length s in
      let (total, descriptors, s'') =
        collect_packets urb packets (total_length + actual_length') s' in
      (
        total,
        record {
          offset = p.offset;
          length = p.length;
          actual_length = actual_length' % u32_mod;
          status = 0;
        }
            ∷ descriptors,
        s'',
      )

  -- What is written once the packets are collected.
  unfoldable pub write_iso_reply : PendingUrb → ℕ → List IsoPacketDescriptor → Step A
  unfolding write write_tx_buffer header_basic_bytes ret_submit_bytes iso_packet_descriptor_bytes
  write_iso_reply urb total_length descriptors =
      write (reply_header 3 urb.seqnum)
      >> write (
          ret_submit_bytes (record {
            status = 0;
            actual_length = total_length % u32_mod;
            start_frame = urb.start_frame;
            number_of_packets = urb.number_of_packets;
            error_count = 0;
          }))
      >> (if not (urb.direction == 0) && ltb 0 total_length
          then write_tx_buffer total_length
          else succeed)
      >> (if ltb 0 urb.number_of_packets
          then write (flat_map iso_packet_descriptor_bytes descriptors)
          else succeed)

  -- `transmit_iso_ret_submit`
  unfoldable pub transmit_iso_ret_submit : PendingUrb → Step A
  unfolding collect_packets write_iso_reply
  transmit_iso_ret_submit urb s =
      let (total_length, descriptors, s') = collect_packets urb urb.packets 0 s in
      write_iso_reply urb total_length descriptors s'
