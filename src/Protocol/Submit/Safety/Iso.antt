-- ===== src/Protocol/Submit/Safety/Iso.antt =====
-- Isochronous transfers, `process_iso_submit` of src/lib/usbip_protocol.c, and the protocol's invariant.
use usbip_server.Prelude.{
  ℕ, zero, suc, ◌*◌, ◌≤◌, ◌≡◌, Bool, Option, some, List, [], ◌∷◌, arith, ltb, ltb→ge, ◌==◌,
  ==-false→ne, true≢false, if_elim, if_split, if◌then◌else◌, Option-cases, inl, inr, length, All,
  drop,
}
use usbip_server.Device.Api.{UsbDevice}
use usbip_server.Device.Buffers.Capacity.{Fits, transmit_now-Fits}
use usbip_server.Device.Control.Preserve.{receive-keeps}
use usbip_server.Protocol.Messages.{CmdSubmit}
use usbip_server.Protocol.State.{
  IsoPacket, PendingUrb, Server, usbip_max_packet_size, max_pending_urbs, max_iso_packets, read,
}
use usbip_server.Protocol.State.Invariant.{
  PacketFits, UrbIsValid, IsValid, ConnOnly-IsValid, UrbsValid-append, read-IsValid,
}
use usbip_server.Protocol.Reply.Bounds.{
  transmit_ret_submit-ConnOnly, transmit_iso_ret_submit-IsValid,
}
use usbip_server.Protocol.Reply.{transmit_ret_submit}
use usbip_server.Protocol.Submit.{
  read_packets, receive_packets, queue_iso, iso_urb, queue_or_transmit, process_iso_submit,
}

-- The packets that are accepted are as many as announced, each within the transfer buffer.
pub read_packets-fit :
    (n len : ℕ) (d : List ℕ) {packets : List IsoPacket}
    → read_packets n len d ≡ some packets
    → (length packets ≡ n) × All (PacketFits len) packets
unfolding read_packets
read_packets-fit zero len d e = ground arith
read_packets-fit (suc n) len d e = elim (Option-cases (read_packets n len (drop 16 d))) [
  | inl f ↦ ground arith
  | inr (ps, f) ↦ ground (arith, read_packets-fit n len (drop 16 d) f)
]

module _ {A : Type 0} where
  -- The invariant of the state in a result.
  abbrev pub Safe : Bool × Server A → Type 0
  Safe r = IsValid r.1

  pub ret_submit-Safe :
      (seqnum status n : ℕ) (send : Bool) (s : Server A)
      → IsValid s
      → Safe (transmit_ret_submit seqnum status n send s)
  ret_submit-Safe seqnum status n send s v =
      ConnOnly-IsValid (transmit_ret_submit seqnum status n send)
        (transmit_ret_submit-ConnOnly seqnum status n send) s v

module _ {A : Type 0} (usb : UsbDevice A) where
  pub receive_packets-IsValid :
      (ep : ℕ) (packets : List IsoPacket) (s : Server A)
      → IsValid s
      → IsValid (receive_packets usb ep packets s)
  unfolding receive_packets
  receive_packets-IsValid ep [] s v = v
  receive_packets-IsValid ep (p ∷ packets) s v = receive_packets-IsValid ep packets _ (
      if_elim {A = Server A} IsValid (ltb 0 p.length)
        (v.0, v.1, v.2, v.3, receive-keeps Fits transmit_now-Fits usb ep _ s.gadget v.4) v)

  queue_or_transmit-Safe :
      (urb : PendingUrb) (s : Server A)
      → UrbIsValid urb
      → IsValid s
      → Safe (queue_or_transmit usb urb s)
  unfolding queue_or_transmit
  queue_or_transmit-Safe urb s u v =
      if_split {A = Bool × Server A} Safe (length s.pending_urbs == max_pending_urbs)
        (λ full. transmit_iso_ret_submit-IsValid usb urb s u.buffer_fits v)
        (λ room.
          (UrbsValid-append s.pending_urbs urb v.0 (==-false→ne _ _ room) u, v.1, v.2, v.3, v.4))

  -- The time at which it completes is no part of a transfer's validity.
  pub set_complete_us-IsValid :
      (t : ℕ) (urb : PendingUrb) → UrbIsValid urb → UrbIsValid (record urb { complete_us = t })
  set_complete_us-IsValid t urb u = record {
    buffer_fits = u.buffer_fits;
    packets_count = u.packets_count;
    packets_fit = u.packets_fit;
    packets_inside = u.packets_inside;
    only_in_waits = u.only_in_waits;
  }

  queue_iso-Safe :
      (now : ℕ) (urb : PendingUrb) (s : Server A)
      → UrbIsValid urb
      → IsValid s
      → Safe (queue_iso usb now urb s)
  unfolding queue_iso
  queue_iso-Safe now urb s u v = queue_or_transmit-Safe _ _ (set_complete_us-IsValid _ urb u) v

  pub process_iso_submit-Safe :
      (now seqnum ep direction : ℕ) (cmd : CmdSubmit) (s : Server A)
      → cmd.transfer_buffer_length ≤ usbip_max_packet_size
      → IsValid s
      → Safe (process_iso_submit usb now seqnum ep direction cmd s)
  unfolding process_iso_submit iso_urb
  process_iso_submit-Safe now seqnum ep direction cmd s fits v =
      if_split {A = Bool × Server A} Safe (ltb max_iso_packets cmd.number_of_packets) (λ many. v)
        (λ few.
          if_split {A = Bool × Server A} Safe r.0
            (λ ok. elim (Option-cases packets) [
              | inl e ↦ rw e v'
              | inr (ps, e) ↦ rw e (
                  queue_iso-Safe now (iso_urb seqnum ep direction cmd ps)
                    (if direction == 0 then receive_packets usb ep ps r.2 else r.2)
                    (record {
                      buffer_fits = fits;
                      packets_count = (read_packets-fit n len r.1 e).0;
                      packets_fit = ltb→ge _ _ few;
                      packets_inside = (read_packets-fit n len r.1 e).1;
                      only_in_waits = λ f. absurd (true≢false f);
                    })
                    (if_elim {A = Server A} IsValid (direction == 0)
                      (receive_packets-IsValid ep ps r.2 v') v'))
            ])
            (λ failed. v'))
    where
      n : ℕ
      n = cmd.number_of_packets

      len : ℕ
      len = cmd.transfer_buffer_length

      r : Bool × List ℕ × Server A
      r = read (n * 16) s

      v' : IsValid r.2
      v' = read-IsValid (n * 16) s v

      packets : Option (List IsoPacket)
      packets = read_packets n len r.1
