-- ===== src/Protocol/Submit/Safety.antt =====
-- `process_submit` of src/lib/usbip_protocol.c and the protocol's invariant, path by path.
pub mod Iso
use usbip_server.Prelude.{
  ℕ, zero, suc, ◌*◌, ◌≤◌, ◌≡◌, ◌≢◌, refl, Bool, true, false, not, ◌&&◌, Option, some, List, [], ◌∷◌,
  arith, ltb, ltb→ge, ◌==◌, ==-false→ne, true≢false, if_elim, if_split, if◌then◌else◌, Option-cases,
  inl, inr, length, All, length-take, length-write_at, drop,
}
use usbip_server.Device.Api.{UsbDevice}
use usbip_server.Device.Buffers.{DeviceState, fetch_control_reply, fetch_ep_data}
use usbip_server.Device.Buffers.Capacity.{
  Fits, transmit_now-Fits, begin_request-Fits, fetch_control_reply-Fits,
}
use usbip_server.Device.Control.{Gadget, control}
use usbip_server.Device.Control.Preserve.{KeptByRequest, control-keeps, receive-keeps}
use usbip_server.Protocol.Messages.{CmdSubmit, read_cmd_submit}
use usbip_server.Protocol.State.{
  IsoPacket, PendingUrb, Server, usbip_max_packet_size, max_pending_urbs, max_iso_packets, slot,
  read, read_rx_buffer,
}
use usbip_server.Protocol.State.Invariant.{
  PacketFits, UrbIsValid, IsValid, ConnOnly-IsValid, UrbsValid-append, read-IsValid,
  read_rx_buffer-IsValid,
}
use usbip_server.Protocol.Reply.Bounds.{
  transmit_ret_submit-ConnOnly, transmit_iso_ret_submit-IsValid,
}
use usbip_server.Protocol.Reply.{ep_stall, transmit_ret_submit}
use usbip_server.Protocol.Submit.{
  read_packets, receive_packets, queue_iso, iso_urb, in_urb, accept_submit, queue_or_transmit,
  perform_control, process_iso_submit, process_control, process_out, process_in, dispatch_submit,
  process_submit,
}
use usbip_server.Protocol.Submit.Safety.Iso.{Safe, ret_submit-Safe, process_iso_submit-Safe}

-- A reply is no longer than the host asks for.
pub length-control_reply-le : (n : ℕ) (d : DeviceState) → length (fetch_control_reply n d).1 ≤ n
unfolding fetch_control_reply fetch_ep_data
length-control_reply-le n d = omega (arith, length-take n (d.endpoint_data 0))

Fits-kept : KeptByRequest Fits
Fits-kept = record {
  by_transmit = transmit_now-Fits;
  by_begin = begin_request-Fits;
  by_configure = λ v s h. h;
}

module _ {A : Type 0} (usb : UsbDevice A) where
  perform_control-IsValid :
      (direction : ℕ) (cmd : CmdSubmit) (s : Server A)
      → cmd.transfer_buffer_length ≤ usbip_max_packet_size
      → IsValid s
      → IsValid (perform_control usb direction cmd s).2
  unfolding perform_control
  perform_control-IsValid direction cmd s fits v =
      if_elim {A = Bool × ℕ × Server A} (λ r. IsValid r.2) (direction == 1)
        (
          v.0,
          v.1,
          v.2,
          omega
              (arith, v.3, length-write_at 0 sent.1 s.tx_buffer, length-control_reply-le len g.dev),
          fetch_control_reply-Fits len g.dev kept,
        )
        (v.0, v.1, v.2, v.3, kept)
    where
      len : ℕ
      len = cmd.transfer_buffer_length

      g : Gadget A
      g = (control usb cmd.setup s.rx_buffer len s.gadget).1

      kept : Fits g.dev
      kept = control-keeps Fits Fits-kept usb cmd.setup s.rx_buffer len s.gadget v.4

      sent : Bool × List ℕ × DeviceState
      sent = fetch_control_reply len g.dev

  process_control-Safe :
      (seqnum direction : ℕ) (cmd : CmdSubmit) (s : Server A)
      → cmd.transfer_buffer_length ≤ usbip_max_packet_size
      → IsValid s
      → Safe (process_control usb seqnum direction cmd s)
  unfolding process_control
  process_control-Safe seqnum direction cmd s fits v =
      if_elim {A = Bool × Server A} Safe r.0 (ret_submit-Safe seqnum ep_stall 0 false r.2 v') (
        if_elim {A = Bool × Server A} Safe (direction == 0)
          (ret_submit-Safe seqnum 0 cmd.transfer_buffer_length false r.2 v')
          (ret_submit-Safe seqnum 0 r.1 true r.2 v'))
    where
      r : Bool × ℕ × Server A
      r = perform_control usb direction cmd s

      v' : IsValid r.2
      v' = perform_control-IsValid direction cmd s fits v

  process_out-Safe :
      (seqnum ep n : ℕ) (s : Server A) → IsValid s → Safe (process_out usb seqnum ep n s)
  unfolding process_out
  process_out-Safe seqnum ep n s v = ret_submit-Safe seqnum 0 n false _ (
      if_elim {A = Server A} IsValid (ltb 0 n)
        (v.0, v.1, v.2, v.3, receive-keeps Fits transmit_now-Fits usb ep _ s.gadget v.4) v)

  process_in-Safe :
      (seqnum ep direction n : ℕ) (s : Server A)
      → n ≤ usbip_max_packet_size
      → direction ≢ 0
      → IsValid s
      → Safe (process_in usb seqnum ep direction n s)
  unfolding process_in in_urb
  process_in-Safe seqnum ep direction n s fits in_ v =
      if_split {A = Bool × Server A} Safe (length s.pending_urbs == max_pending_urbs)
        (λ full. ret_submit-Safe seqnum 0 0 true s v)
        (λ room. (
          UrbsValid-append s.pending_urbs (in_urb seqnum ep direction n) v.0 (==-false→ne _ _ room)
              (record {
                buffer_fits = fits;
                packets_count = refl;
                packets_fit = omega arith;
                packets_inside = tt;
                only_in_waits = λ f. in_;
              }),
          v.1,
          v.2,
          v.3,
          v.4,
        ))

  dispatch_submit-Safe :
      (now seqnum ep direction : ℕ) (cmd : CmdSubmit) (s : Server A)
      → cmd.transfer_buffer_length ≤ usbip_max_packet_size
      → IsValid s
      → Safe (dispatch_submit usb now seqnum ep direction cmd s)
  unfolding dispatch_submit
  dispatch_submit-Safe now seqnum ep direction cmd s fits v =
      if_elim {A = Bool × Server A} Safe
        (not (ep == 0) && (s.endpoints (slot direction ep)).transfer_type == 1)
        (process_iso_submit-Safe usb now seqnum ep direction cmd s fits v)
        (if_elim {A = Bool × Server A} Safe (ep == 0)
          (process_control-Safe seqnum direction cmd s fits v)
          (if_split {A = Bool × Server A} Safe (direction == 0)
            (λ out. process_out-Safe seqnum ep cmd.transfer_buffer_length s v)
            (λ in_.
              process_in-Safe seqnum ep direction cmd.transfer_buffer_length s fits
                (==-false→ne _ _ in_) v)))

  accept_submit-Safe :
      (now seqnum ep direction : ℕ) (cmd : CmdSubmit) (s : Server A)
      → IsValid s
      → Safe (accept_submit usb now seqnum ep direction cmd s)
  unfolding accept_submit
  accept_submit-Safe now seqnum ep direction cmd s v =
      if_split {A = Bool × Server A} Safe (ltb usbip_max_packet_size len) (λ long. v)
        (λ fits.
          if_elim {A = Bool × Server A} Safe (direction == 0)
            (if_elim {A = Bool × Server A} Safe r.0
              (dispatch_submit-Safe now seqnum ep direction cmd r.1 (ltb→ge _ _ fits) (filled fits))
              (filled fits))
            (dispatch_submit-Safe now seqnum ep direction cmd s (ltb→ge _ _ fits) v))
    where
      len : ℕ
      len = cmd.transfer_buffer_length

      r : Bool × Server A
      r = read_rx_buffer len s

      filled : ltb usbip_max_packet_size len ≡ false → IsValid r.1
      filled fits = read_rx_buffer-IsValid len s (ltb→ge _ _ fits) v

  pub process_submit-IsValid :
      (now seqnum ep direction : ℕ) (s : Server A)
      → IsValid s
      → Safe (process_submit usb now seqnum ep direction s)
  unfolding process_submit
  process_submit-IsValid now seqnum ep direction s v =
      if_elim {A = Bool × Server A} Safe r.0
        (accept_submit-Safe now seqnum ep direction (read_cmd_submit r.1) r.2 (read-IsValid 28 s v))
        (read-IsValid 28 s v)
    where
      r : Bool × List ℕ × Server A
      r = read 28 s
