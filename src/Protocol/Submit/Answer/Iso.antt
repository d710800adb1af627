-- ===== src/Protocol/Submit/Answer/Iso.antt =====
-- What becomes of an isochronous transfer, `process_iso_submit` of src/lib/usbip_protocol.c.
use usbip_server.Prelude.{
  drop, ◌*◌, ◌≤◌, ◌≡◌, ℕ, refl, Bool, List, [], ◌∷◌, ltb, ltb→ge, ◌==◌, ==_iff, true≢false,
  Option-cases, if◌then◌else◌, if_elim, if_split, inl, inr, take, length,
}
use usbip_server.Device.Api.{UsbDevice}
use usbip_server.Device.Control.{receive}
use usbip_server.Protocol.Messages.{CmdSubmit}
use usbip_server.Protocol.State.{
  PendingUrb, IsoPacket, set_endpoint, Server, slot, read, usbip_max_packet_size, max_pending_urbs,
  max_iso_packets,
}
use usbip_server.Protocol.State.Invariant.{UrbIsValid, IsValid, read-IsValid}
use usbip_server.Protocol.Reply.Iso.Sent.{transmit_iso_ret_submit_lem}
use usbip_server.Protocol.Submit.{
  read_packets, receive_packets, queue_iso, queue_or_transmit, stream_complete_us, iso_urb,
  process_iso_submit,
}
use usbip_server.Protocol.Submit.Safety.Iso.{
  read_packets-fit, receive_packets-IsValid, set_complete_us-IsValid,
}
use usbip_server.Protocol.Submit.Outcome.{
  Transfer, transfer_of, Same, Same-Same, Outcome, Same-Outcome, submitted,
}

module _ {A : Type 0} (usb : UsbDevice A) where
  receive_packets-Same :
      (ep : ℕ) (packets : List IsoPacket) (s : Server A) → Same s (receive_packets usb ep packets s)
  unfolding receive_packets
  receive_packets-Same ep [] s = record { output = refl; room = refl; pending_urbs = refl }
  receive_packets-Same ep (p ∷ packets) s =
      if_elim {A = Server A} (λ s'. Same s (receive_packets usb ep packets s')) (ltb 0 p.length)
        (Same-Same s given (receive_packets usb ep packets given)
          (record { output = refl; room = refl; pending_urbs = refl })
          (receive_packets-Same ep packets given))
        (receive_packets-Same ep packets s)
    where
      given : Server A
      given = record s {
        gadget = receive usb ep (take p.length (drop p.offset s.rx_buffer)) s.gadget;
      }

  queue_iso-Outcome :
      (now : ℕ) (urb : PendingUrb) (s : Server A)
      → UrbIsValid urb
      → length s.tx_buffer ≡ usbip_max_packet_size
      → Outcome (transfer_of urb) s (queue_iso usb now urb s)
  unfolding queue_iso queue_or_transmit
  queue_iso-Outcome now urb s u room =
      if_split {A = Bool × Server A} (Outcome (transfer_of urb) s)
        (length s.pending_urbs == max_pending_urbs)
        (λ full.
          let (reply, answer, g, tx, sent) =
            transmit_iso_ret_submit_lem usb timed placed (set_complete_us-IsValid usb done_us urb u)
              room in
          inr (
            inr (
              inr (record {
                urb = timed;
                is_it = refl;
                reply = reply;
                before = record placed { gadget = g; tx_buffer = tx };
                answer = answer;
                written = sent;
                is_full = (==_iff _ _).0 full;
                unchanged = record { output = refl; room = refl; pending_urbs = refl };
              }))))
        (λ _. inr (
          inr (
            inl (record {
              urb = timed;
              is_it = refl;
              goes_on = refl;
              output = refl;
              pending_urbs = refl;
            }))))
    where
      i : ℕ
      i = slot urb.direction urb.ep

      done_us : ℕ
      done_us = stream_complete_us now urb.number_of_packets (s.endpoints i)

      timed : PendingUrb
      timed = record urb { complete_us = done_us }

      placed : Server A
      placed = record s {
        endpoints = set_endpoint s.endpoints i (record (s.endpoints i) { stream_end_us = done_us });
      }

  pub process_iso_submit-Outcome :
      (now seqnum ep direction : ℕ) (cmd : CmdSubmit) (s : Server A)
      → cmd.transfer_buffer_length ≤ usbip_max_packet_size
      → IsValid s
      → Outcome
          (submitted seqnum ep direction cmd)
          s
          (process_iso_submit usb now seqnum ep direction cmd s)
  unfolding process_iso_submit read iso_urb
  process_iso_submit-Outcome now seqnum ep direction cmd s fits v =
      if_split {A = Bool × Server A} (Outcome t s) (ltb max_iso_packets n)
        (λ many. inl (record {
          ends = refl;
          unchanged = record { output = refl; room = refl; pending_urbs = refl };
        }))
        (λ few.
          if_elim {A = Bool × Server A} (Outcome t s) r.0
            (elim (Option-cases (read_packets n cmd.transfer_buffer_length r.1)) [
              | inl e ↦ rw e (inl (record { ends = refl; unchanged = same }))
              | inr (ps, e) ↦ rw e (
                  Same-Outcome t s (accepted ps) _ (accepted-Same ps) (
                    queue_iso-Outcome now (iso_urb seqnum ep direction cmd ps) (accepted ps)
                      (record {
                        buffer_fits = fits;
                        packets_count = (read_packets-fit n cmd.transfer_buffer_length r.1 e).0;
                        packets_fit = ltb→ge _ _ few;
                        packets_inside = (read_packets-fit n cmd.transfer_buffer_length r.1 e).1;
                        only_in_waits = λ f. absurd (true≢false f);
                      })
                      (room ps)))
            ])
            (inl (record { ends = refl; unchanged = same })))
    where
      t : Transfer
      t = submitted seqnum ep direction cmd

      n : ℕ
      n = cmd.number_of_packets

      r : Bool × List ℕ × Server A
      r = read (n * 16) s

      same : Same s r.2
      same = record { output = refl; room = refl; pending_urbs = refl }

      accepted : List IsoPacket → Server A
      accepted packets = if direction == 0 then receive_packets usb ep packets r.2 else r.2

      accepted-Same : (packets : List IsoPacket) → Same s (accepted packets)
      accepted-Same packets =
          if_elim {A = Server A} (Same s) (direction == 0)
            (Same-Same s r.2 (receive_packets usb ep packets r.2) same
              (receive_packets-Same ep packets r.2))
            same

      room :
          (packets : List IsoPacket) → length (accepted packets).tx_buffer ≡ usbip_max_packet_size
      room packets =
          let v' = read-IsValid (n * 16) s v in
          if_elim {A = Server A} (λ s'. length s'.tx_buffer ≡ usbip_max_packet_size)
            (direction == 0) ((receive_packets-IsValid usb ep packets r.2 v').3) (v'.3)
