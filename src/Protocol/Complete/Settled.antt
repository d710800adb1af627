-- ===== src/Protocol/Complete/Settled.antt =====
-- What a pass of `complete_pending_urbs` of src/lib/usbip_protocol.c leaves for the next one.
pub mod Waits
use usbip_server.Prelude.{
  some, write_at, u64_mod, ◌%◌, take_all, ℕ, zero, suc, ◌+◌, ◌-◌, ◌≤◌, ◌<◌, ◌≡◌, ◌⊎◌, inl, inr,
  refl, sym, ap, true, false, List, [], ◌∷◌, arith, ltb, ltb→lt, ltb→ge, if_split, is_empty, length,
  take, drop, All, All-map, low_bits,
}
use usbip_server.Device.Api.{UsbDevice}
use usbip_server.Device.Buffers.{DeviceState, transmit_store, transmit_now, fetch_ep_data}
use usbip_server.Device.Control.Preserve.{KeptByTransmit}
use usbip_server.Protocol.State.{
  Endpoint, PendingUrb, Server, Step, wait_timeout_default, slot, set_endpoint,
}
use usbip_server.Protocol.State.Invariant.{ConnOnly}
use usbip_server.Protocol.Reply.{transmit_ret_submit, transmit_iso_ret_submit}
use usbip_server.Protocol.Reply.Bounds.{transmit_ret_submit-ConnOnly}
use usbip_server.Protocol.Reply.Frame.{
  transmit_iso_ret_submit-Serves, transmit_iso_ret_submit-keeps,
}
use usbip_server.Protocol.Complete.Safety.{
  get_urb-lt, more-lt, remaining, complete_next-some, complete_next-falls,
}
use usbip_server.Prelude.Loop.{while, while_inv}
use usbip_server.Protocol.Unlink.{remove_pending_urb}
use usbip_server.Protocol.Complete.{
  Pass, get_urb, due_us, more, skip_urb, poll_urb, finish_iso, complete_urb, complete_next,
  complete_pending_urbs,
}
use mathlib.Core.Path.{subst}
use mathlib.Core.Option.{some-injective}
use usbip_server.Protocol.Complete.Settled.Waits.{
  NoData, SettledBy, Settled, transmit_now-NoData, fetch-NoData, polled-NoData,
  take-remove_pending_urb, All-take_next, wait-Settled, device-Settled, poll-Settled,
}

-- The transfers that a pass has gone by are settled.
abbrev pub AllSettled : {A : Type 0} → ℕ → Pass A → Type 0
AllSettled now p = All (Settled now p.server) (take p.idx p.server.pending_urbs)

ConnOnly-AllSettled :
    {A : Type 0} (now i : ℕ) (m : Step A) (s : Server A)
    → ConnOnly m
    → All (Settled now s) (take i s.pending_urbs)
    → All (Settled now (m s).1) (take i (m s).1.pending_urbs)
ConnOnly-AllSettled now i m s c h = rw (c s) h

module _ {A : Type 0} (now : ℕ) (urb : PendingUrb) (p : Pass A) where
  module _ (e : get_urb p.server.pending_urbs p.idx ≡ some urb) (h : AllSettled now p) where
    next_idx : p.idx + 1 ≡ suc p.idx
    next_idx = omega arith

    skip_urb-AllSettled :
        now < due_us urb p.server.endpoints
        → AllSettled now (skip_urb now (due_us urb p.server.endpoints) p)
    unfolding skip_urb
    skip_urb-AllSettled late =
        if_split {A = Server A} (λ t. All (Settled now t) (take (p.idx + 1) t.pending_urbs))
          (ltb wait p.server.wait_timeout_us)
          (λ sooner. rw next_idx (
            All-take_next (SettledBy now wait p.server.endpoints p.server.gadget.dev) p.idx
              p.server.pending_urbs e (inl (late, omega arith))
              (All-map (Settled now p.server)
                (SettledBy now wait p.server.endpoints p.server.gadget.dev)
                (take p.idx p.server.pending_urbs)
                (λ u.
                  wait-Settled now p.server.wait_timeout_us wait p.server.endpoints
                    p.server.gadget.dev u (omega (arith, ltb→lt _ _ sooner)))
                h)))
          (λ later. rw next_idx (
            All-take_next (Settled now p.server) p.idx p.server.pending_urbs e
              (inl (late, ltb→ge _ _ later)) h))
      where
        wait : ℕ
        wait = due_us urb p.server.endpoints - now

    module _ (async : urb.isochronous ≡ false) (due : due_us urb p.server.endpoints ≤ now) where
      poll_urb-AllSettled : AllSettled now (poll_urb now urb p)
      unfolding poll_urb
      poll_urb-AllSettled =
          if_split {A = Pass A} (AllSettled now) (is_empty bytes)
            (λ none_yet. rw next_idx (
              All-take_next (SettledBy now timeout p.server.endpoints fetched) p.idx
                p.server.pending_urbs e (inr (async, polled-NoData urb dev none_yet))
                (All-map (Settled now p.server) (SettledBy now timeout p.server.endpoints fetched)
                  (take p.idx p.server.pending_urbs)
                  (λ u.
                    device-Settled now timeout p.server.endpoints dev fetched u
                      (fetch-NoData u urb.ep urb.transfer_buffer_length dev))
                  h)))
            (λ some_bytes.
              ConnOnly-AllSettled now p.idx (transmit_ret_submit urb.seqnum 0 (length bytes) true)
                completed (transmit_ret_submit-ConnOnly urb.seqnum 0 (length bytes) true)
                (rw (take-remove_pending_urb p.idx p.server.pending_urbs) (
                  All-map (Settled now p.server)
                    (SettledBy now timeout
                      (set_endpoint p.server.endpoints i
                        (record (p.server.endpoints i) { next_poll_us = next }))
                      fetched)
                    (take p.idx p.server.pending_urbs)
                    (λ u.
                      poll-Settled now timeout next urb.transfer_buffer_length p.server.endpoints
                        dev urb u async due)
                    h)))
        where
          dev : DeviceState
          dev = p.server.gadget.dev

          timeout : ℕ
          timeout = p.server.wait_timeout_us

          bytes : List ℕ
          bytes = (fetch_ep_data urb.ep urb.transfer_buffer_length dev).0

          fetched : DeviceState
          fetched = (fetch_ep_data urb.ep urb.transfer_buffer_length dev).1

          i : ℕ
          i = slot 1 urb.ep

          next : ℕ
          next = (now + (p.server.endpoints i).interval_us) % u64_mod

          completed : Server A
          completed = record (p.server) {
            gadget = record (p.server.gadget) { dev = fetched };
            endpoints =
                set_endpoint p.server.endpoints i
                  (record (p.server.endpoints i) { next_poll_us = next });
            pending_urbs = remove_pending_urb p.idx p.server.pending_urbs;
            tx_buffer = write_at 0 bytes p.server.tx_buffer;
          }

module _ {A : Type 0} (usb : UsbDevice A) (now : ℕ) where
  finish_iso-AllSettled :
      (urb : PendingUrb) (p : Pass A) → AllSettled now p → AllSettled now (finish_iso usb urb p)
  unfolding finish_iso
  finish_iso-AllSettled urb p h =
      let s = (transmit_iso_ret_submit usb urb p.server).1 in
      rw
        (
          take-remove_pending_urb p.idx s.pending_urbs,
          transmit_iso_ret_submit-Serves usb urb p.server,
        )
        (All-map (Settled now p.server)
          (SettledBy now p.server.wait_timeout_us p.server.endpoints s.gadget.dev)
          (take p.idx p.server.pending_urbs)
          (λ u.
            device-Settled now p.server.wait_timeout_us p.server.endpoints p.server.gadget.dev
              s.gadget.dev u
              (transmit_iso_ret_submit-keeps usb (NoData u) (transmit_now-NoData u) urb p.server))
          h)

  complete_urb-AllSettled :
      (urb : PendingUrb) (p : Pass A)
      → get_urb p.server.pending_urbs p.idx ≡ some urb
      → AllSettled now p
      → AllSettled now (complete_urb usb now urb p)
  unfolding complete_urb
  complete_urb-AllSettled urb p e h =
      if_split {A = Pass A} (AllSettled now) (ltb now (due_us urb p.server.endpoints))
        (λ late. skip_urb-AllSettled now urb p e h (ltb→lt _ _ late))
        (λ due.
          if_split {A = Pass A} (AllSettled now) urb.isochronous
            (λ _. finish_iso-AllSettled urb p h)
            (λ async. poll_urb-AllSettled now urb p e h async (ltb→ge _ _ due)))

  complete_next-AllSettled :
      (p : Pass A) → AllSettled now p → more p ≡ true → AllSettled now (complete_next usb now p)
  complete_next-AllSettled p h go_on =
      let (urb, e) = get_urb-lt p.server.pending_urbs p.idx (more-lt p go_on) in
      rw (complete_next-some usb now p e) (complete_urb-AllSettled urb p e h)

  none_gone_by : (p : Pass A) → p.idx ≡ 0 → AllSettled now p
  unfolding take
  none_gone_by p e = rw e tt

  left_by_end :
      (p : Pass A)
      → p.status ≡ true
      → more p ≡ false
      → AllSettled now p
      → All (Settled now p.server) p.server.pending_urbs
  unfolding more
  left_by_end p ok over h =
      let end : length p.server.pending_urbs ≤ p.idx = ground arith in
      rw (← take_all p.idx p.server.pending_urbs end) h

  -- No wake-up is missed: when a pass over the pending transfers succeeds, each that is still pending
  -- either may not complete yet, and the next wait is over by the time it may, or is a bulk or interrupt
  -- transfer for which its endpoint has no data, unless the event that ends the next wait is set. (A transfer
  -- of no bytes, or one whose endpoint number is 0 modulo 16, may be left although there is data.)
  pub complete_pending_urbs-Settled :
      (s : Server A)
      → (complete_pending_urbs usb now s).0 ≡ true
      → let s' = (complete_pending_urbs usb now s).1 in All (Settled now s') s'.pending_urbs
  unfolding complete_pending_urbs
  complete_pending_urbs-Settled s ok = left_by_end last ok (result.1) (result.0)
    where
      first : Pass A
      first = record {
        status = true;
        idx = 0;
        server = record s { wait_timeout_us = wait_timeout_default };
      }

      last : Pass A
      last = while (length s.pending_urbs + 1) more (complete_next usb now) first

      result : AllSettled now last × (more last ≡ false)
      result =
          while_inv remaining more (complete_next usb now) (AllSettled now)
            (λ p h t. complete_next-AllSettled p h t) (complete_next-falls usb now)
            (length s.pending_urbs + 1) first (omega arith) (none_gone_by first refl)
