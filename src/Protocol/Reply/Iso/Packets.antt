-- ===== src/Protocol/Reply/Iso/Packets.antt =====
-- The packets of `transmit_iso_ret_submit` of src/lib/usbip_protocol.c are filled one behind the other.
use usbip_server.Prelude.{
  ℕ, ◌+◌, ◌%◌, ◌≤◌, ◌≡◌, refl, sym, ap, ◌∙◌, true, false, List, [], ◌∷◌, ◌++◌, arith, ◌==◌, length,
  take, joined, lengths, write_at, length-write_at, take-write_at, length-append, append_assoc,
  append-nil, u32_mod,
}
use usbip_server.Device.Api.{UsbDevice}
use usbip_server.Device.Control.{Gadget, iso_in}
use usbip_server.Protocol.State.{IsoPacket, PendingUrb, Server, usbip_max_packet_size}
use usbip_server.Protocol.Reply.{packet_room, collect_packets}
use usbip_server.Protocol.Reply.Bounds.{packet_room-le, iso_in-length-le}
use usbip_server.Protocol.Reply.Iso.{descriptors, packet_lengths, sum, Fill}

packet_room-le_packet :
    (urb : PendingUrb) (p : IsoPacket) (total : ℕ) → packet_room urb p total ≤ p.length
unfolding packet_room
packet_room-le_packet urb p total = ground arith

module _ {A : Type 0} (usb : UsbDevice A) where
  -- An OUT transfer's packets take all their bytes.
  pub collect-out :
      (urb : PendingUrb) (packets : List IsoPacket) (total : ℕ) (s : Server A)
      → (urb.direction == 0) ≡ true
      → collect_packets usb urb packets total s
        ≡ (total + sum (packet_lengths packets), descriptors packets (packet_lengths packets), s)
  unfolding collect_packets
  collect-out urb [] total s out = let same : total + 0 ≡ total = omega arith in rw same refl
  collect-out urb (p ∷ packets) total s out =
      let same : total + p.length + sum (packet_lengths packets)
          ≡ total + (p.length + sum (packet_lengths packets)) =
        omega arith in
      rw (out, collect-out urb packets (total + p.length) s out, same) refl

  -- The data of the packets of an IN transfer stands in `tx_buffer` piece after piece.
  pub collect-in :
      (urb : PendingUrb) (packets : List IsoPacket) (total : ℕ) (s : Server A)
      → (urb.direction == 0) ≡ false
      → urb.transfer_buffer_length ≤ usbip_max_packet_size
      → length s.tx_buffer ≡ usbip_max_packet_size
      → total ≤ urb.transfer_buffer_length
      → let (total', ds, s') = collect_packets usb urb packets total s in
        (pieces : List (List ℕ)) × Fill pieces packets
        × (ds ≡ descriptors packets (lengths pieces))
        × (total' ≡ total + length (joined pieces))
        × (total' ≤ urb.transfer_buffer_length)
        × (take total' s'.tx_buffer ≡ take total s.tx_buffer ++ joined pieces)
        × (s' ≡ record s { gadget = s'.gadget; tx_buffer = s'.tx_buffer })
  unfolding collect_packets
  collect-in urb [] total s in_ fits room le =
      ([], tt, refl, omega arith, le, sym (append-nil _), refl)
  collect-in urb (p ∷ packets) total s in_ fits room le =
      let (pieces, fill, ds, total', le', taken, frame) =
        collect-in urb packets (total + length bytes)
          (record s { gadget = sent.1; tx_buffer = write_at total bytes s.tx_buffer }) in_ fits
          (length-write_at total bytes s.tx_buffer (omega (arith, inside, fits, room)) ∙ room)
          (omega (arith, inside)) in
      rw in_ (
        bytes ∷ pieces,
        (omega (arith, short, packet_room-le_packet urb p total), fill),
        ap
            (λ ds.
              record {
                offset = p.offset;
                length = p.length;
                actual_length = length bytes % u32_mod;
                status = 0;
              }
              ∷ ds)
            ds,
        omega (arith, total', length-append bytes (joined pieces)),
        le',
        taken
            ∙ ap (λ xs. xs ++ joined pieces)
                (take-write_at total (total + length bytes) bytes s.tx_buffer
                  (omega (arith, le, fits, room)) refl)
            ∙ append_assoc (take total s.tx_buffer) bytes (joined pieces),
        frame,
      )
    where
      sent : List ℕ × Gadget A
      sent = iso_in usb urb.ep (packet_room urb p total) s.gadget

      bytes : List ℕ
      bytes = sent.0

      short : length bytes ≤ packet_room urb p total
      short = iso_in-length-le usb urb.ep (packet_room urb p total) s.gadget

      inside : total + length bytes ≤ urb.transfer_buffer_length
      inside = omega (arith, short, packet_room-le urb p total fits le)
