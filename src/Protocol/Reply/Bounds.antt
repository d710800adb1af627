-- ===== src/Protocol/Reply/Bounds.antt =====
-- Replies of src/lib/usbip_protocol.c and the bounds of `tx_buffer`.
use usbip_server.Prelude.{
  ℕ, ◌+◌, ◌%◌, ◌≤◌, ◌≡◌, ◌≢◌, Bool, false, List, [], ◌∷◌, arith, ◌==◌, ==_iff, Bool-cases,
  Option-cases, inl, inr, length, length-take, length-write_at,
}
use usbip_server.Device.Api.{UsbDevice}
use usbip_server.Device.Buffers.{run}
use usbip_server.Device.Buffers.Capacity.{Fits, transmit_now-Fits}
use usbip_server.Device.Control.{Gadget, iso_in}
use usbip_server.Device.Control.Preserve.{iso_in-keeps}
use usbip_server.Protocol.State.{
  IsoPacket, PendingUrb, Server, usbip_max_packet_size, write, write_tx_buffer,
}
use usbip_server.Protocol.State.Invariant.{IsValid, ConnOnly, ConnOnly-IsValid}
use usbip_server.Protocol.Messages.{IsoPacketDescriptor}
use usbip_server.Protocol.Reply.{
  transmit_ret_submit, packet_room, packet_data, collect_packets, write_iso_reply,
  transmit_iso_ret_submit,
}

module _ {A : Type 0} where
  pub transmit_ret_submit-ConnOnly :
      (seqnum urb_status n : ℕ) (send : Bool)
      → ConnOnly {A = A} (transmit_ret_submit seqnum urb_status n send)
  unfolding transmit_ret_submit write write_tx_buffer
  transmit_ret_submit-ConnOnly seqnum urb_status n send s = ground arith

-- The bytes so far fit the transfer's buffer; for an OUT transfer this says nothing.
abbrev pub TotalFits : PendingUrb → ℕ → Type 0
TotalFits urb total = urb.direction ≢ 0 → total ≤ urb.transfer_buffer_length

pub packet_room-le :
    (urb : PendingUrb) (p : IsoPacket) (total : ℕ)
    → urb.transfer_buffer_length ≤ usbip_max_packet_size
    → total ≤ urb.transfer_buffer_length
    → total + packet_room urb p total ≤ urb.transfer_buffer_length
unfolding packet_room
packet_room-le urb p total fits h = ground arith

pub not_out : {d : ℕ} → d ≡ 0 → ¬ ((d == 0) ≡ false)
not_out e h = ground arith

module _ {A : Type 0} (usb : UsbDevice A) where
  pub iso_in-length-le : (ep n : ℕ) (g : Gadget A) → length (iso_in usb ep n g).0 ≤ n
  unfolding iso_in
  iso_in-length-le ep n g = elim (Option-cases usb.iso_in_callback) [
    | inl e ↦ rw e (omega arith)
    | inr (callback, e) ↦
        rw e (omega (arith, length-take n ((run (callback g.app (ep % 256) n) g.dev).0.1)))
  ]

  packet_data-IsValid :
      (urb : PendingUrb) (p : IsoPacket) (total : ℕ) (s : Server A)
      → urb.transfer_buffer_length ≤ usbip_max_packet_size
      → TotalFits urb total
      → IsValid s
      → IsValid (packet_data usb urb p total s).1
        × TotalFits urb (total + (packet_data usb urb p total s).0)
  unfolding packet_data
  packet_data-IsValid urb p total s fits h v = elim (Bool-cases (urb.direction == 0)) [
    | inl out ↦ rw out (v, λ ne. absurd (ne ((==_iff urb.direction 0).0 out)))
    | inr in_ ↦
        let room = packet_room-le urb p total fits (h (λ e. not_out e in_)) in
        let sent = iso_in-length-le urb.ep (packet_room urb p total) s.gadget in
        let bytes = (iso_in usb urb.ep (packet_room urb p total) s.gadget).0 in
        rw in_ (
          (
            v.0,
            v.1,
            v.2,
            omega (arith, v.3, room, sent, length-write_at total bytes s.tx_buffer),
            iso_in-keeps Fits transmit_now-Fits usb urb.ep (packet_room urb p total) s.gadget v.4,
          ),
          λ ne. omega (arith, room, sent),
        )
  ]

  pub write_iso_reply-ConnOnly :
      (urb : PendingUrb) (total : ℕ) (ds : List IsoPacketDescriptor)
      → ConnOnly (write_iso_reply usb urb total ds)
  unfolding write_iso_reply write write_tx_buffer
  write_iso_reply-ConnOnly urb total ds s = ground arith

  pub collect_packets-IsValid :
      (urb : PendingUrb) (packets : List IsoPacket) (total : ℕ) (s : Server A)
      → urb.transfer_buffer_length ≤ usbip_max_packet_size
      → TotalFits urb total
      → IsValid s
      → IsValid (collect_packets usb urb packets total s).2
        × TotalFits urb (collect_packets usb urb packets total s).0
  unfolding collect_packets
  collect_packets-IsValid urb [] total s fits h v = (v, h)
  collect_packets-IsValid urb (p ∷ packets) total s fits h v =
      let (v', h') = packet_data-IsValid urb p total s fits h v in
      collect_packets-IsValid urb packets (total + (packet_data usb urb p total s).0)
        (packet_data usb urb p total s).1 fits h' v'

  pub transmit_iso_ret_submit-IsValid :
      (urb : PendingUrb) (s : Server A)
      → urb.transfer_buffer_length ≤ usbip_max_packet_size
      → IsValid s
      → IsValid (transmit_iso_ret_submit usb urb s).1
  unfolding transmit_iso_ret_submit
  transmit_iso_ret_submit-IsValid urb s fits v =
      let (total, ds, s') = collect_packets usb urb urb.packets 0 s in
      ConnOnly-IsValid (write_iso_reply usb urb total ds) (write_iso_reply-ConnOnly urb total ds) s'
        (collect_packets-IsValid urb urb.packets 0 s fits (λ ne. omega arith) v).0
