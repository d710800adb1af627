-- ===== src/Protocol/Complete/Answers/Whole.antt =====
-- A pass of `complete_pending_urbs` of src/lib/usbip_protocol.c answers transfers or leaves them.
use usbip_server.Prelude.{
  ℕ, ◌+◌, ◌-◌, ◌≤◌, ◌≡◌, inl, inr, refl, sym, ap, true, false, some, List, [], ◌∷◌, ◌++◌, arith,
  ltb, ltb→ge, if_split, is_empty, length, take, write_at, take-write_at, u64_mod, append-nil,
  length-append, ◌%◌,
}
use usbip_server.Prelude.Loop.{while, while_inv}
use usbip_server.Device.Api.{UsbDevice}
use usbip_server.Device.Buffers.{fetch_ep_data}
use usbip_server.Protocol.State.{
  Endpoint, PendingUrb, Server, wait_timeout_default, slot, set_endpoint,
}
use usbip_server.Protocol.State.Invariant.{UrbIsValid, IsValid}
use usbip_server.Protocol.Reply.Bytes.{ret_submit_reply}
use usbip_server.Protocol.Reply.Iso.Sent.{transmit_iso_ret_submit_lem}
use usbip_server.Protocol.Reply.Frame.{transmit_iso_ret_submit-Serves}
use usbip_server.Protocol.Unlink.{remove_pending_urb}
use usbip_server.Protocol.Complete.{
  Pass, get_urb, due_us, more, skip_urb, poll_urb, finish_iso, complete_urb, complete_next,
  complete_pending_urbs,
}
use usbip_server.Protocol.Complete.Safety.{
  get_urb-lt, get_urb-All, more-lt, remaining, length-fetch-le, ret_submit-pending,
  complete_next-some, complete_next-falls, complete_next-IsValid,
}
use usbip_server.Protocol.Complete.Answers.{Answers, no_urbs}
use usbip_server.Protocol.Complete.Answers.Progress.{
  Progress, leave, answer, output_of, ret_submit-output, not_empty,
}

module _ {A : Type 0} (now : ℕ) (s : Server A) (urb : PendingUrb) (p : Pass A)
    (e : get_urb p.server.pending_urbs p.idx ≡ some urb) (pr : Progress now s p) where
  skip_urb-Progress : (due : ℕ) → Progress now s (skip_urb now due p)
  unfolding skip_urb
  skip_urb-Progress due =
      if_split {A = Server A}
        (λ t. Progress now s (record { status = p.status; idx = p.idx + 1; server = t }))
        (ltb (due - now) p.server.wait_timeout_us) (λ _. leave now s urb p _ e pr refl refl refl)
        (λ _. leave now s urb p _ e pr refl refl refl)

  poll_urb-Progress :
      urb.isochronous ≡ false
      → (poll_urb now urb p).status ≡ true
      → Progress now s (poll_urb now urb p)
  unfolding poll_urb take
  poll_urb-Progress async =
      if_split {A = Pass A} (λ q. q.status ≡ true → Progress now s q) (is_empty bytes)
        (λ _ ok. leave now s urb p _ e pr refl refl refl)
        (λ some_bytes ok.
          answer now s urb p _ e pr (ret_submit_reply urb.seqnum 0 (length bytes) bytes)
            (inr (
              async,
              bytes,
              not_empty bytes some_bytes,
              length-fetch-le urb.ep urb.transfer_buffer_length p.server.gadget.dev,
              refl,
            ))
            refl (ret_submit-pending urb.seqnum (length bytes) completed)
            (ret_submit-output urb.seqnum bytes completed (not_empty bytes some_bytes)
              (take-write_at 0 (length bytes) bytes p.server.tx_buffer (omega arith) (omega arith))
              ok))
    where
      bytes : List ℕ
      bytes = (fetch_ep_data urb.ep urb.transfer_buffer_length p.server.gadget.dev).0

      completed : Server A
      completed =
          let s = p.server in
          let i = slot 1 urb.ep in
          record s {
            gadget = record (s.gadget) {
              dev = (fetch_ep_data urb.ep urb.transfer_buffer_length s.gadget.dev).1;
            };
            endpoints = set_endpoint s.endpoints i (record (s.endpoints i) {
              next_poll_us = (now + (s.endpoints i).interval_us) % u64_mod;
            });
            pending_urbs = remove_pending_urb p.idx s.pending_urbs;
            tx_buffer = write_at 0 bytes s.tx_buffer;
          }

no_more : (urbs : List PendingUrb) → length urbs ≡ 0 → urbs ≡ []
no_more [] e = refl
no_more (urb ∷ urbs) e = absurd (omega arith)

complete_us-le :
    (urb : PendingUrb) (endpoints : ℕ → Endpoint) {now : ℕ}
    → urb.isochronous ≡ true
    → due_us urb endpoints ≤ now
    → urb.complete_us ≤ now
unfolding due_us
complete_us-le urb endpoints iso h = ground arith

module _ {A : Type 0} (usb : UsbDevice A) (now : ℕ) (s : Server A) where
  finish_iso-Progress :
      (urb : PendingUrb) (p : Pass A)
      → get_urb p.server.pending_urbs p.idx ≡ some urb
      → UrbIsValid urb
      → IsValid p.server
      → urb.isochronous ≡ true
      → urb.complete_us ≤ now
      → Progress now s p
      → (finish_iso usb urb p).status ≡ true
      → Progress now s (finish_iso usb urb p)
  unfolding finish_iso
  finish_iso-Progress urb p e u v iso due pr ok =
      let (reply, is_answer, g, tx, same) = transmit_iso_ret_submit_lem usb urb p.server u v.3 in
      answer now s urb p _ e pr reply (inl (iso, due, is_answer)) refl
        (ap (λ (x : Server A). remove_pending_urb p.idx x.pending_urbs)
          (transmit_iso_ret_submit-Serves usb urb p.server))
        (output_of reply (record (p.server) { gadget = g; tx_buffer = tx }) same ok)

  complete_urb-Progress :
      (urb : PendingUrb) (p : Pass A)
      → get_urb p.server.pending_urbs p.idx ≡ some urb
      → UrbIsValid urb
      → IsValid p.server
      → Progress now s p
      → (complete_urb usb now urb p).status ≡ true
      → Progress now s (complete_urb usb now urb p)
  unfolding complete_urb
  complete_urb-Progress urb p e u v pr =
      if_split {A = Pass A} (λ q. q.status ≡ true → Progress now s q) (ltb now due)
        (λ late ok. skip_urb-Progress now s urb p e pr due)
        (λ due_now.
          if_split {A = Pass A} (λ q. q.status ≡ true → Progress now s q) urb.isochronous
            (λ iso.
              finish_iso-Progress urb p e u v iso
                (complete_us-le urb p.server.endpoints iso (ltb→ge _ _ due_now)) pr)
            (λ async. poll_urb-Progress now s urb p e pr async))
    where
      due : ℕ
      due = due_us urb p.server.endpoints

  more-status : (p : Pass A) → more p ≡ true → p.status ≡ true
  unfolding more
  more-status p h = ground arith

  -- The invariant of the loop.
  abbrev Inv : Pass A → Type 0
  Inv p = IsValid p.server × (p.status ≡ true → Progress now s p)

  complete_next-Inv : (p : Pass A) → Inv p → more p ≡ true → Inv (complete_next usb now p)
  complete_next-Inv p (v, pr) h =
      let (urb, e) = get_urb-lt p.server.pending_urbs p.idx (more-lt p h) in
      (
        complete_next-IsValid usb now p v h,
        rw (complete_next-some usb now p e) (
            complete_urb-Progress urb p e
              (get_urb-All UrbIsValid p.server.pending_urbs p.idx v.0.1 e) v
              (pr (more-status p h))),
      )

  at_end :
      (p : Pass A)
      → p.status ≡ true
      → more p ≡ false
      → Progress now s p
      → (out : List ℕ) × Answers now s.pending_urbs p.server.pending_urbs out
        × (p.server.conn.output ≡ s.conn.output ++ out)
  unfolding more
  at_end p ok over pr = (
    pr.out,
    rw (pr.together, pr.pending, none_left, append-nil pr.gone_by, append-nil pr.left) pr.answers,
    pr.sent,
  )
    where
      end : length p.server.pending_urbs ≤ p.idx
      end = ground arith

      none_left : pr.rest ≡ []
      none_left =
          no_more pr.rest
            (omega (arith, end, pr.here, ap length pr.pending, length-append pr.left pr.rest))

  -- When a pass over the pending transfers succeeds, each transfer that was pending is answered exactly
  -- once or is still pending, the oldest first, and nothing else is sent. A bulk or interrupt transfer is
  -- answered with data that fits its buffer, an isochronous one with the data or the lengths of its
  -- packets, and never before its time.
  pub complete_pending_urbs-Answers :
      IsValid s
      → (complete_pending_urbs usb now s).0 ≡ true
      → let s' = (complete_pending_urbs usb now s).1 in
        (out : List ℕ) × Answers now s.pending_urbs s'.pending_urbs out
        × (s'.conn.output ≡ s.conn.output ++ out)
  unfolding complete_pending_urbs
  complete_pending_urbs-Answers v ok = at_end last ok (result.1) (result.0.1 ok)
    where
      first : Pass A
      first = record {
        status = true;
        idx = 0;
        server = record s { wait_timeout_us = wait_timeout_default };
      }

      last : Pass A
      last = while (length s.pending_urbs + 1) more (complete_next usb now) first

      begin : Progress now s first
      begin = record {
        gone_by = [];
        left = [];
        rest = s.pending_urbs;
        out = [];
        together = refl;
        pending = refl;
        here = refl;
        answers = no_urbs;
        sent = sym (append-nil s.conn.output);
      }

      result : Inv last × (more last ≡ false)
      result =
          while_inv remaining more (complete_next usb now) Inv complete_next-Inv
            (complete_next-falls usb now) (length s.pending_urbs + 1) first (omega arith)
            ((v.0, omega arith, v.2, v.3, v.4), λ _. begin)
