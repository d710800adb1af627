-- ===== src/Protocol/Serve/Rounds/Pass.antt =====
-- A pass of `complete_pending_urbs` of src/lib/usbip_protocol.c takes nothing from the connection.
use usbip_server.Prelude.{
  ℕ, ◌+◌, ◌-◌, ◌≡◌, refl, ◌∙◌, true, arith, ltb, is_empty, if_elim, length, write_at, u64_mod, ◌%◌,
}
use usbip_server.Device.Api.{UsbDevice}
use usbip_server.Device.Buffers.{fetch_ep_data}
use usbip_server.Prelude.Loop.{while_inv}
use usbip_server.Protocol.State.{PendingUrb, Server, slot, set_endpoint, wait_timeout_default}
use usbip_server.Protocol.Unlink.{remove_pending_urb}
use usbip_server.Protocol.Complete.{
  Pass, due_us, more, skip_urb, poll_urb, finish_iso, complete_urb, complete_next,
  complete_pending_urbs,
}
use usbip_server.Protocol.Complete.Safety.{
  get_urb-lt, more-lt, remaining, complete_next-some, complete_next-falls,
}
use usbip_server.Protocol.Serve.Rounds.Input.{
  transmit_ret_submit-Leaves, transmit_iso_ret_submit-Leaves,
}

module _ {A : Type 0} (usb : UsbDevice A) (now : ℕ) where
  -- The same input is left.
  abbrev Same : Pass A → Pass A → Type 0
  Same p q = q.server.conn.input ≡ p.server.conn.input

  poll_urb-Same : (urb : PendingUrb) (p : Pass A) → Same p (poll_urb now urb p)
  unfolding poll_urb
  poll_urb-Same urb p =
      let s = p.server in
      let (bytes, dev') = fetch_ep_data urb.ep urb.transfer_buffer_length s.gadget.dev in
      let i = slot 1 urb.ep in
      if_elim {A = Pass A} (Same p) (is_empty bytes) refl (
        transmit_ret_submit-Leaves urb.seqnum 0 (length bytes) true (record s {
          gadget = record (s.gadget) { dev = dev' };
          tx_buffer = write_at 0 bytes s.tx_buffer;
          endpoints = set_endpoint s.endpoints i (record (s.endpoints i) {
            next_poll_us = (now + (s.endpoints i).interval_us) % u64_mod;
          });
          pending_urbs = remove_pending_urb p.idx s.pending_urbs;
        }))

  complete_urb-Same : (urb : PendingUrb) (p : Pass A) → Same p (complete_urb usb now urb p)
  unfolding complete_urb finish_iso skip_urb
  complete_urb-Same urb p =
      let due = due_us urb p.server.endpoints in
      if_elim {A = Pass A} (Same p) (ltb now due)
        (if_elim {A = Server A} (λ s. s.conn.input ≡ p.server.conn.input)
          (ltb (due - now) p.server.wait_timeout_us) refl refl)
        (if_elim {A = Pass A} (Same p) urb.isochronous
          (transmit_iso_ret_submit-Leaves usb urb p.server) (poll_urb-Same urb p))

  pub complete_pending_urbs-input :
      (s : Server A) → (complete_pending_urbs usb now s).1.conn.input ≡ s.conn.input
  unfolding complete_pending_urbs
  complete_pending_urbs-input s =
      (while_inv remaining more (complete_next usb now) (λ p. p.server.conn.input ≡ s.conn.input)
        (λ p h go_on.
          let (urb, e) = get_urb-lt p.server.pending_urbs p.idx (more-lt p go_on) in
          rw (complete_next-some usb now p e) (complete_urb-Same urb p ∙ h))
        (complete_next-falls usb now) (length s.pending_urbs + 1) first (omega arith) refl).0
    where
      first : Pass A
      first = record {
        status = true;
        idx = 0;
        server = record s { wait_timeout_us = wait_timeout_default };
      }
