-- ===== src/Protocol/Submit/Answer.antt =====
-- What becomes of a transfer that a client submits, `process_submit` of src/lib/usbip_protocol.c.
mod Direct
mod Iso
use usbip_server.Prelude.{
  Option, none, some, arith, drop, ◌*◌, ◌≤◌, ◌≡◌, ◌≢◌, ℕ, refl, ap, ◌∙◌, Bool, true, false, not,
  ◌&&◌, List, [], ◌∷◌, ltb, ltb→ge, ◌==◌, ==_iff, ==-false→ne, true≢false, Option-cases,
  if◌then◌else◌, if_elim, if_split, inl, inr, take, take-write_at, length,
}
use usbip_server.Device.Api.{UsbDevice}
use usbip_server.Device.Buffers.{fetch_control_reply}
use usbip_server.Device.Control.{Gadget, control, receive}
use usbip_server.Protocol.Conn
use usbip_server.Protocol.Messages.{CmdSubmit, read_cmd_submit}
use usbip_server.Protocol.State.{
  PendingUrb, IsoPacket, set_endpoint, Server, slot, read, read_rx_buffer, usbip_max_packet_size,
  max_pending_urbs, max_iso_packets,
}
use usbip_server.Protocol.State.Invariant.{
  UrbIsValid, IsValid, read-IsValid, read_rx_buffer-IsValid,
}
use usbip_server.Protocol.Reply.{ep_stall}
use usbip_server.Protocol.Reply.Iso.Sent.{no_bytes, transmit_iso_ret_submit_lem}
use usbip_server.Protocol.Submit.{
  read_packets, receive_packets, queue_iso, queue_or_transmit, stream_complete_us, iso_urb,
  process_iso_submit, perform_control, process_control, process_out, process_in, in_urb,
  dispatch_submit, accept_submit, process_submit,
}
use usbip_server.Protocol.Submit.Safety.{length-control_reply-le}
use usbip_server.Protocol.Submit.Safety.Iso.{
  read_packets-fit, receive_packets-IsValid, set_complete_us-IsValid,
}
use usbip_server.Protocol.Submit.Outcome.{
  Transfer, transfer_of, Told, stalled, taken_whole, given, no_room, Same, Same-Same, Outcome,
  Same-Outcome, transmit-Outcome, submitted,
}
use usbip_server.Protocol.Submit.Answer.Direct.{
  process_control-Outcome, process_out-Outcome, process_in-Outcome,
}
use usbip_server.Protocol.Submit.Answer.Iso.{process_iso_submit-Outcome}

module _ {A : Type 0} (usb : UsbDevice A) where
  dispatch_submit-Outcome :
      (now seqnum ep direction : ℕ) (cmd : CmdSubmit) (s : Server A)
      → cmd.transfer_buffer_length ≤ usbip_max_packet_size
      → IsValid s
      → Outcome
          (submitted seqnum ep direction cmd)
          s
          (dispatch_submit usb now seqnum ep direction cmd s)
  unfolding dispatch_submit
  dispatch_submit-Outcome now seqnum ep direction cmd s fits v =
      if_elim {A = Bool × Server A} (Outcome (submitted seqnum ep direction cmd) s)
        (not (ep == 0) && (s.endpoints (slot direction ep)).transfer_type == 1)
        (process_iso_submit-Outcome usb now seqnum ep direction cmd s fits v)
        (if_split {A = Bool × Server A} (Outcome (submitted seqnum ep direction cmd) s) (ep == 0)
          (λ zero_. rw ((==_iff ep 0).0 zero_) (process_control-Outcome usb seqnum direction cmd s))
          (λ other.
            if_split {A = Bool × Server A} (Outcome (submitted seqnum ep direction cmd) s)
              (direction == 0)
              (λ out. rw ((==_iff direction 0).0 out) (process_out-Outcome usb seqnum ep cmd s))
              (λ in_.
                process_in-Outcome usb seqnum ep direction cmd s (==-false→ne _ _ other)
                  (==-false→ne _ _ in_))))

  accept_submit-Outcome :
      (now seqnum ep direction : ℕ) (cmd : CmdSubmit) (s : Server A)
      → IsValid s
      → Outcome
          (submitted seqnum ep direction cmd)
          s
          (accept_submit usb now seqnum ep direction cmd s)
  unfolding accept_submit read_rx_buffer
  accept_submit-Outcome now seqnum ep direction cmd s v =
      if_split {A = Bool × Server A} (Outcome t s) (ltb usbip_max_packet_size len)
        (λ long. inl (record {
          ends = refl;
          unchanged = record { output = refl; room = refl; pending_urbs = refl };
        }))
        (λ fits.
          if_elim {A = Bool × Server A} (Outcome t s) (direction == 0)
            (if_elim {A = Bool × Server A} (Outcome t s) r.0
              (Same-Outcome t s r.1 (dispatch_submit usb now seqnum ep direction cmd r.1) same (
                dispatch_submit-Outcome now seqnum ep direction cmd r.1 (ltb→ge _ _ fits)
                  (read_rx_buffer-IsValid len s (ltb→ge _ _ fits) v)))
              (inl (record { ends = refl; unchanged = same })))
            (dispatch_submit-Outcome now seqnum ep direction cmd s (ltb→ge _ _ fits) v))
    where
      t : Transfer
      t = submitted seqnum ep direction cmd

      len : ℕ
      len = cmd.transfer_buffer_length

      r : Bool × Server A
      r = read_rx_buffer len s

      same : Same s r.1
      same = record { output = refl; room = refl; pending_urbs = refl }

  pub process_submit-Outcome :
      (now seqnum ep direction : ℕ) (s : Server A)
      → IsValid s
      → Outcome
          (submitted seqnum ep direction (read_cmd_submit (take 28 s.conn.input)))
          s
          (process_submit usb now seqnum ep direction s)
  unfolding process_submit read Conn.read
  process_submit-Outcome now seqnum ep direction s v =
      if_elim {A = Bool × Server A} (Outcome t s) r.0
        (Same-Outcome t s r.2 (accept_submit usb now seqnum ep direction (read_cmd_submit r.1) r.2)
          same
          (accept_submit-Outcome now seqnum ep direction (read_cmd_submit r.1) r.2
            (read-IsValid 28 s v)))
        (inl (record { ends = refl; unchanged = same }))
    where
      t : Transfer
      t = submitted seqnum ep direction (read_cmd_submit (take 28 s.conn.input))

      r : Bool × List ℕ × Server A
      r = read 28 s

      same : Same s r.2
      same = record { output = refl; room = refl; pending_urbs = refl }
