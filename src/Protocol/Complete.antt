-- ===== src/Protocol/Complete.antt =====
-- `complete_pending_urbs` of src/lib/usbip_protocol.c: pending transfers that are due, oldest first.
pub mod Answers
pub mod Safety
pub mod Settled
use usbip_server.Prelude.{
  ℕ, zero, suc, ◌+◌, ◌-◌, ◌%◌, Bool, true, ◌&&◌, Option, none, some, List, [], ◌∷◌, ltb,
  if◌then◌else◌, is_empty, length, write_at, u64_mod,
}
use usbip_server.Prelude.Loop.{while}
use usbip_server.Device.Api.{UsbDevice}
use usbip_server.Device.Buffers.{fetch_ep_data}
use usbip_server.Protocol.State.{
  Endpoint, PendingUrb, Server, wait_timeout_default, slot, set_endpoint,
}
use usbip_server.Protocol.Reply.{transmit_ret_submit, transmit_iso_ret_submit}
use usbip_server.Protocol.Unlink.{remove_pending_urb}

-- `pending_urbs[idx]`
unfoldable pub get_urb : List PendingUrb → ℕ → Option PendingUrb
get_urb [] i = none
get_urb (urb ∷ urbs) zero = some urb
get_urb (urb ∷ urbs) (suc i) = get_urb urbs i

-- The loop's variables.
pub record Pass (A : Type 0) : Type 0 where
  pub status : Bool
  pub idx : ℕ
  pub server : Server A

-- When a transfer may complete. `endpoints[1]` are the IN endpoints.
unfoldable pub due_us : PendingUrb → (ℕ → Endpoint) → ℕ
due_us urb endpoints =
    if urb.isochronous then urb.complete_us else (endpoints (slot 1 urb.ep)).next_poll_us

module _ {A : Type 0} where
  unfoldable pub more : Pass A → Bool
  more p = p.status && ltb p.idx (length p.server.pending_urbs)

  -- Not polled yet: make sure to wake up when it is.
  unfoldable pub skip_urb : ℕ → ℕ → Pass A → Pass A
  skip_urb now due p = record {
    status = p.status;
    idx = p.idx + 1;
    server =
        let s = p.server in
        if ltb (due - now) s.wait_timeout_us then record s { wait_timeout_us = due - now } else s;
  }

  -- The endpoint's data, if it has some, completes the transfer.
  unfoldable pub poll_urb : ℕ → PendingUrb → Pass A → Pass A
  unfolding fetch_ep_data remove_pending_urb transmit_ret_submit
  poll_urb now urb p =
      let s = p.server in
      let g = s.gadget in
      let (bytes, dev') = fetch_ep_data urb.ep urb.transfer_buffer_length g.dev in
      let i = slot 1 urb.ep in
      let endpoint = s.endpoints i in
      let fetched = record s {
        gadget = record g { dev = dev' };
        tx_buffer = write_at 0 bytes s.tx_buffer;
      } in
      if is_empty bytes
      then record { status = p.status; idx = p.idx + 1; server = fetched }
      else (let r = transmit_ret_submit urb.seqnum 0 (length bytes) true (record fetched {
        endpoints =
            set_endpoint s.endpoints i
              (record endpoint { next_poll_us = (now + endpoint.interval_us) % u64_mod });
        pending_urbs = remove_pending_urb p.idx s.pending_urbs;
      }) in
          record { status = r.0; idx = p.idx; server = r.1 })

module _ {A : Type 0} (usb : UsbDevice A) where
  unfoldable pub finish_iso : PendingUrb → Pass A → Pass A
  unfolding transmit_iso_ret_submit remove_pending_urb
  finish_iso urb p =
      let (status', s) = transmit_iso_ret_submit usb urb p.server in
      record {
        status = status';
        idx = p.idx;
        server = record s { pending_urbs = remove_pending_urb p.idx s.pending_urbs };
      }

  unfoldable pub complete_urb : ℕ → PendingUrb → Pass A → Pass A
  unfolding due_us skip_urb finish_iso poll_urb
  complete_urb now urb p =
      let due = due_us urb p.server.endpoints in
      if ltb now due
      then skip_urb now due p
      else if urb.isochronous
      then finish_iso urb p
      else poll_urb now urb p

  -- One round. The loop's test rules out that there is no transfer at `idx`.
  unfoldable pub complete_next : ℕ → Pass A → Pass A
  unfolding get_urb complete_urb
  complete_next now p = elim (get_urb p.server.pending_urbs p.idx) [
    | none ↦ p
    | some urb ↦ complete_urb now urb p
  ]

  unfoldable pub complete_pending_urbs : ℕ → Server A → Bool × Server A
  unfolding while more complete_next
  complete_pending_urbs now s =
      let p = while (length s.pending_urbs + 1) more (complete_next now) (record {
        status = true;
        idx = 0;
        server = record s { wait_timeout_us = wait_timeout_default };
      }) in
      (p.status, p.server)
