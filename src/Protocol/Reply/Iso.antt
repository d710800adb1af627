-- ===== src/Protocol/Reply/Iso.antt =====
-- The reply to an isochronous transfer, `transmit_iso_ret_submit` of src/lib/usbip_protocol.c, as bytes.
pub mod Packets
pub mod Sent
use usbip_server.Prelude.{
  ℕ, zero, suc, ◌+◌, ◌%◌, ◌≤◌, ◌≡◌, ◌≢◌, ◌⊎◌, inl, inr, refl, sym, ap, ◌∙◌, Bool, true, false, not,
  ◌&&◌, List, [], ◌∷◌, ◌++◌, arith, ltb, ◌==◌, ==_iff, if◌then◌else◌, Bool-cases, length, take,
  joined, lengths, write_at, length-write_at, take-write_at, length-append, append_assoc,
  append-nil, u32_mod,
}
use mathlib.Core.List.{flat_map}
use usbip_server.Device.Api.{UsbDevice}
use usbip_server.Device.Control.{Gadget, iso_in}
use usbip_server.Protocol.Messages.{
  IsoPacketDescriptor, ret_submit_bytes, iso_packet_descriptor_bytes,
}
use usbip_server.Protocol.State.{
  IsoPacket, PendingUrb, Server, Step, ◌>>◌, write, write_tx_buffer, usbip_max_packet_size,
}
use usbip_server.Protocol.State.Invariant.{UrbIsValid}
use usbip_server.Protocol.Reply.{
  reply_header, succeed, packet_room, packet_data, collect_packets, write_iso_reply,
  transmit_iso_ret_submit,
}
use usbip_server.Protocol.Reply.Bounds.{packet_room-le, not_out, iso_in-length-le}
use usbip_server.Protocol.Reply.Bytes.{write->>, write_if, write_nothing}

-- The descriptors of packets for which this many bytes were transferred.
abbrev pub descriptors : List IsoPacket → List ℕ → List IsoPacketDescriptor
descriptors [] ns = []
descriptors (p ∷ packets) [] = []
descriptors (p ∷ packets) (n ∷ ns) =
    record { offset = p.offset; length = p.length; actual_length = n % u32_mod; status = 0 }
    ∷ descriptors packets ns

abbrev pub packet_lengths : List IsoPacket → List ℕ
packet_lengths [] = []
packet_lengths (p ∷ packets) = p.length ∷ packet_lengths packets

abbrev pub sum : List ℕ → ℕ
sum [] = 0
sum (n ∷ ns) = n + sum ns

-- One piece of data for each packet, none longer than its packet.
abbrev pub Fill : List (List ℕ) → List IsoPacket → Type 0
Fill [] [] = Unit
Fill [] (p ∷ packets) = ⊥
Fill (bytes ∷ pieces) [] = ⊥
Fill (bytes ∷ pieces) (p ∷ packets) = (length bytes ≤ p.length) × Fill pieces packets

-- USBIP_RET_SUBMIT of an isochronous transfer: `total` bytes in all, the data that is sent with it, and
-- the descriptors of the packets.
unfoldable pub iso_reply : PendingUrb → ℕ → List ℕ → List IsoPacketDescriptor → List ℕ
iso_reply urb total bytes ds =
    reply_header 3 urb.seqnum
    ++ (ret_submit_bytes (record {
      status = 0;
      actual_length = total % u32_mod;
      start_frame = urb.start_frame;
      number_of_packets = urb.number_of_packets;
      error_count = 0;
    })
        ++ (bytes ++ flat_map iso_packet_descriptor_bytes ds))

-- What answers an isochronous transfer. OUT: the bytes of all its packets, and no data. IN: pieces of
-- data for the packets, which follow each other without gaps, and how long each is.
abbrev pub IsoAnswer : PendingUrb → List ℕ → Type 0
IsoAnswer urb reply =
    (urb.direction ≡ 0)
      × (reply
          ≡ iso_reply urb (sum (packet_lengths urb.packets)) []
              (descriptors urb.packets (packet_lengths urb.packets)))
    ⊎ (urb.direction ≢ 0)
      × (pieces : List (List ℕ)) × Fill pieces urb.packets
      × (length (joined pieces) ≤ urb.transfer_buffer_length)
      × (reply
          ≡ iso_reply urb (length (joined pieces)) (joined pieces)
              (descriptors urb.packets (lengths pieces)))
