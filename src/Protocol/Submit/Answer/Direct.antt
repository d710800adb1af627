-- ===== src/Protocol/Submit/Answer/Direct.antt =====
-- What becomes of a control, bulk or interrupt transfer, in `process_submit` of src/lib/usbip_protocol.c.
use usbip_server.Prelude.{
  arith, ◌≤◌, ◌≡◌, ◌≢◌, ℕ, refl, ap, ◌∙◌, Bool, true, false, List, [], ltb, ◌==◌, ==_iff,
  ==-false→ne, if◌then◌else◌, if_elim, if_split, inl, inr, take, take-write_at, length,
}
use usbip_server.Device.Api.{UsbDevice}
use usbip_server.Device.Buffers.{fetch_control_reply}
use usbip_server.Device.Control.{Gadget, control}
use usbip_server.Protocol.Messages.{CmdSubmit}
use usbip_server.Protocol.State.{Server, max_pending_urbs}
use usbip_server.Protocol.Reply.{ep_stall}
use usbip_server.Protocol.Reply.Iso.Sent.{no_bytes}
use usbip_server.Protocol.Submit.{perform_control, process_control, process_out, process_in, in_urb}
use usbip_server.Protocol.Submit.Safety.{length-control_reply-le}
use usbip_server.Protocol.Submit.Outcome.{
  Transfer, stalled, taken_whole, given, no_room, Same, Outcome, transmit-Outcome, submitted,
}

module _ {A : Type 0} (usb : UsbDevice A) where
  perform_control-Same :
      (direction : ℕ) (cmd : CmdSubmit) (s : Server A)
      → Same s (perform_control usb direction cmd s).2
  unfolding perform_control
  perform_control-Same direction cmd s =
      if_elim {A = Bool × ℕ × Server A} (λ r. Same s r.2) (direction == 1)
        (record { output = refl; room = refl; pending_urbs = refl })
        (record { output = refl; room = refl; pending_urbs = refl })

  -- The reply to a control IN request is what was put into `tx_buffer`, no more than was asked for.
  perform_control-given :
      (direction : ℕ) (cmd : CmdSubmit) (s : Server A)
      → let (halted, n, s') = perform_control usb direction cmd s in
        (bytes : List ℕ) × (n ≡ length bytes)
        × (length bytes ≤ cmd.transfer_buffer_length)
        × ((if ltb 0 n then take n s'.tx_buffer else []) ≡ bytes)
  unfolding perform_control take
  perform_control-given direction cmd s =
      if_elim {A = Bool × ℕ × Server A}
        (λ r.
          (bytes : List ℕ) × (r.1 ≡ length bytes)
          × (length bytes ≤ cmd.transfer_buffer_length)
          × ((if ltb 0 r.1 then take r.1 r.2.tx_buffer else []) ≡ bytes))
        (direction == 1)
        (
          reply,
          refl,
          length-control_reply-le cmd.transfer_buffer_length g.dev,
          ap (λ bs. if ltb 0 (length reply) then bs else [])
                (take-write_at 0 (length reply) reply s.tx_buffer (omega arith) (omega arith))
              ∙ no_bytes reply,
        )
        ([], refl, omega arith, refl)
    where
      g : Gadget A
      g = (control usb cmd.setup s.rx_buffer cmd.transfer_buffer_length s.gadget).1

      reply : List ℕ
      reply = (fetch_control_reply cmd.transfer_buffer_length g.dev).1

  pub process_control-Outcome :
      (seqnum direction : ℕ) (cmd : CmdSubmit) (s : Server A)
      → Outcome (submitted seqnum 0 direction cmd) s (process_control usb seqnum direction cmd s)
  unfolding process_control
  process_control-Outcome seqnum direction cmd s =
      if_elim {A = Bool × Server A} (Outcome t s) r.0
        (transmit-Outcome t ep_stall 0 false [] s r.2 same (stalled refl) refl)
        (if_split {A = Bool × Server A} (Outcome t s) (direction == 0)
          (λ out.
            transmit-Outcome t 0 cmd.transfer_buffer_length false [] s r.2 same
              (taken_whole ((==_iff direction 0).0 out)) refl)
          (λ in_.
            let (bytes, n, le, sent) = perform_control-given direction cmd s in
            transmit-Outcome t 0 r.1 true bytes s r.2 same
              (rw n (given bytes refl (==-false→ne _ _ in_) le)) sent))
    where
      t : Transfer
      t = submitted seqnum 0 direction cmd

      r : Bool × ℕ × Server A
      r = perform_control usb direction cmd s

      same : Same s r.2
      same = perform_control-Same direction cmd s

  pub process_out-Outcome :
      (seqnum ep : ℕ) (cmd : CmdSubmit) (s : Server A)
      → Outcome
          (submitted seqnum ep 0 cmd)
          s
          (process_out usb seqnum ep cmd.transfer_buffer_length s)
  unfolding process_out
  process_out-Outcome seqnum ep cmd s =
      transmit-Outcome (submitted seqnum ep 0 cmd) 0 cmd.transfer_buffer_length false [] s _
        (if_elim {A = Server A} (Same s) (ltb 0 cmd.transfer_buffer_length)
          (record { output = refl; room = refl; pending_urbs = refl })
          (record { output = refl; room = refl; pending_urbs = refl }))
        (taken_whole refl) refl

  pub process_in-Outcome :
      (seqnum ep direction : ℕ) (cmd : CmdSubmit) (s : Server A)
      → ep ≢ 0
      → direction ≢ 0
      → Outcome
          (submitted seqnum ep direction cmd)
          s
          (process_in usb seqnum ep direction cmd.transfer_buffer_length s)
  unfolding process_in in_urb
  process_in-Outcome seqnum ep direction cmd s other in_ =
      let t = submitted seqnum ep direction cmd in
      if_split {A = Bool × Server A} (Outcome t s) (length s.pending_urbs == max_pending_urbs)
        (λ full.
          transmit-Outcome t 0 0 true [] s s
            (record { output = refl; room = refl; pending_urbs = refl })
            (no_room other in_ ((==_iff _ _).0 full)) refl)
        (λ _. inr (
          inr (
            inl (record {
              urb = in_urb seqnum ep direction cmd.transfer_buffer_length;
              is_it = refl;
              goes_on = refl;
              output = refl;
              pending_urbs = refl;
            }))))
