-- ===== src/Protocol/Complete/Safety.antt =====
-- The loop of `complete_pending_urbs` of src/lib/usbip_protocol.c: its measure and the protocol's
-- invariant.
use usbip_server.Prelude.{
  ℕ, zero, suc, ◌+◌, ◌-◌, ◌≤◌, ◌<◌, ◌≡◌, refl, ap, true, some, List, [], ◌∷◌, arith, ltb, ltb→lt,
  if_elim, if_split, is_empty, length, All, length-take, length-write_at, write_at, low_bits,
}
use mathlib.Core.Path.{subst}
use mathlib.Core.Option.{some-injective}
use usbip_server.Prelude.Loop.{Falls, while_inv}
use usbip_server.Device.Api.{UsbDevice}
use usbip_server.Device.Buffers.{DeviceState, fetch_ep_data}
use usbip_server.Device.Buffers.Capacity.{Fits, fetch_ep_data-Fits}
use usbip_server.Protocol.State.{PendingUrb, Server, usbip_max_packet_size}
use usbip_server.Protocol.State.Invariant.{UrbIsValid, IsValid, ConnOnly-IsValid}
use usbip_server.Protocol.Reply.{transmit_ret_submit}
use usbip_server.Protocol.Reply.Bounds.{
  transmit_ret_submit-ConnOnly, transmit_iso_ret_submit-IsValid,
}
use usbip_server.Protocol.Reply.Frame.{transmit_iso_ret_submit-Serves}
use usbip_server.Protocol.Unlink.{remove_pending_urb}
use usbip_server.Protocol.Unlink.Safety.{remove_pending_urb-UrbsValid}
use usbip_server.Protocol.Complete.{
  Pass, get_urb, due_us, more, skip_urb, poll_urb, finish_iso, complete_urb, complete_next,
  complete_pending_urbs,
}

pub get_urb-lt :
    (urbs : List PendingUrb) (i : ℕ)
    → i < length urbs
    → (urb : PendingUrb) × (get_urb urbs i ≡ some urb)
unfolding get_urb
get_urb-lt [] i h = absurd (omega arith)
get_urb-lt (urb ∷ urbs) zero h = (urb, refl)
get_urb-lt (urb ∷ urbs) (suc i) h = get_urb-lt urbs i (omega arith)

pub get_urb-All {ℓ} :
    (P : PendingUrb → Type ℓ) (urbs : List PendingUrb) (i : ℕ) {urb : PendingUrb}
    → All P urbs
    → get_urb urbs i ≡ some urb
    → P urb
unfolding get_urb
get_urb-All P [] i h e = cc
get_urb-All P (u ∷ urbs) zero h e = subst P (some-injective _ _ e) h.0
get_urb-All P (u ∷ urbs) (suc i) h e = get_urb-All P urbs i h.1 e

pub length-remove_pending_urb_lt :
    (urbs : List PendingUrb) (i : ℕ)
    → i < length urbs
    → suc (length (remove_pending_urb i urbs)) ≡ length urbs
unfolding remove_pending_urb
length-remove_pending_urb_lt [] i h = absurd (omega arith)
length-remove_pending_urb_lt (urb ∷ urbs) zero h = refl
length-remove_pending_urb_lt (urb ∷ urbs) (suc i) h =
    ap suc (length-remove_pending_urb_lt urbs i (omega arith))

pub length-fetch-le : (ep n : ℕ) (d : DeviceState) → length (fetch_ep_data ep n d).0 ≤ n
unfolding fetch_ep_data
length-fetch-le ep n d = omega (arith, length-take n (d.endpoint_data (low_bits ep 4)))

module _ {A : Type 0} where
  -- The transfers that the loop has still to look at.
  abbrev pub remaining : Pass A → ℕ
  remaining p = length p.server.pending_urbs - p.idx

  pub more-lt : (p : Pass A) → more p ≡ true → p.idx < length p.server.pending_urbs
  unfolding more
  more-lt p h = ground arith

  pub ret_submit-pending :
      (seqnum n : ℕ) (s : Server A)
      → (transmit_ret_submit seqnum 0 n true s).1.pending_urbs ≡ s.pending_urbs
  ret_submit-pending seqnum n s =
      ap (λ (x : Server A). x.pending_urbs) (transmit_ret_submit-ConnOnly seqnum 0 n true s)

  poll_urb-falls :
      (now : ℕ) (urb : PendingUrb) (p : Pass A)
      → p.idx < length p.server.pending_urbs
      → remaining (poll_urb now urb p) < remaining p
  unfolding poll_urb
  poll_urb-falls now urb p h =
      if_elim {A = Pass A} (λ q. remaining q < remaining p)
        (is_empty (fetch_ep_data urb.ep urb.transfer_buffer_length p.server.gadget.dev).0)
        (omega arith)
        (omega (
          arith,
          ap length (ret_submit-pending urb.seqnum _ _),
          length-remove_pending_urb_lt p.server.pending_urbs p.idx h,
        ))

  poll_urb-IsValid :
      (now : ℕ) (urb : PendingUrb) (p : Pass A)
      → urb.transfer_buffer_length ≤ usbip_max_packet_size
      → IsValid p.server
      → IsValid (poll_urb now urb p).server
  unfolding poll_urb
  poll_urb-IsValid now urb p fits v =
      if_elim {A = Pass A} (λ q. IsValid q.server) (is_empty bytes) (v.0, v.1, v.2, room, kept)
        (ConnOnly-IsValid (transmit_ret_submit urb.seqnum 0 (length bytes) true)
          (transmit_ret_submit-ConnOnly urb.seqnum 0 (length bytes) true) _
          (remove_pending_urb-UrbsValid p.idx p.server.pending_urbs v.0, v.1, v.2, room, kept))
    where
      len : ℕ
      len = urb.transfer_buffer_length

      dev : DeviceState
      dev = p.server.gadget.dev

      bytes : List ℕ
      bytes = (fetch_ep_data urb.ep len dev).0

      kept : Fits (fetch_ep_data urb.ep len dev).1
      kept = fetch_ep_data-Fits urb.ep len dev v.4

      room : length (write_at 0 bytes p.server.tx_buffer) ≡ usbip_max_packet_size
      room =
          omega
            (arith, v.3, length-write_at 0 bytes p.server.tx_buffer, length-fetch-le urb.ep len dev)

  skip_urb-falls :
      (now due : ℕ) (p : Pass A)
      → p.idx < length p.server.pending_urbs
      → remaining (skip_urb now due p) < remaining p
  unfolding skip_urb
  skip_urb-falls now due p h =
      if_elim {A = Server A} (λ t. length t.pending_urbs - (p.idx + 1) < remaining p)
        (ltb (due - now) p.server.wait_timeout_us) (omega arith) (omega arith)

  skip_urb-IsValid :
      (now due : ℕ) (p : Pass A)
      → now < due
      → IsValid p.server
      → IsValid (skip_urb now due p).server
  unfolding skip_urb
  skip_urb-IsValid now due p late v =
      if_split {A = Server A} IsValid (ltb (due - now) p.server.wait_timeout_us)
        (λ sooner. (v.0, omega (arith, v.1, ltb→lt _ _ sooner), v.2, v.3, v.4)) (λ later. v)

module _ {A : Type 0} (usb : UsbDevice A) where
  finish_iso-falls :
      (urb : PendingUrb) (p : Pass A)
      → p.idx < length p.server.pending_urbs
      → remaining (finish_iso usb urb p) < remaining p
  unfolding finish_iso
  finish_iso-falls urb p h =
      let same =
        ap (λ (x : Server A). x.pending_urbs) (transmit_iso_ret_submit-Serves usb urb p.server) in
      rw same (omega (arith, length-remove_pending_urb_lt p.server.pending_urbs p.idx h))

  complete_urb-falls :
      (now : ℕ) (urb : PendingUrb) (p : Pass A)
      → p.idx < length p.server.pending_urbs
      → remaining (complete_urb usb now urb p) < remaining p
  unfolding complete_urb
  complete_urb-falls now urb p h =
      if_elim {A = Pass A} (λ q. remaining q < remaining p)
        (ltb now (due_us urb p.server.endpoints))
        (skip_urb-falls now (due_us urb p.server.endpoints) p h)
        (if_elim {A = Pass A} (λ q. remaining q < remaining p) urb.isochronous
          (finish_iso-falls urb p h) (poll_urb-falls now urb p h))

  pub complete_next-some :
      (now : ℕ) (p : Pass A) {urb : PendingUrb}
      → get_urb p.server.pending_urbs p.idx ≡ some urb
      → complete_next usb now p ≡ complete_urb usb now urb p
  unfolding complete_next
  complete_next-some now p e = rw (e, complete_next)

  -- Every round removes a transfer or goes on to the next one.
  pub complete_next-falls : (now : ℕ) → Falls (remaining {A = A}) more (complete_next usb now)
  unfolding complete_next
  complete_next-falls now p h =
      let (urb, e) = get_urb-lt p.server.pending_urbs p.idx (more-lt p h) in
      rw (complete_next-some now p e) (complete_urb-falls now urb p (more-lt p h))

  complete_urb-IsValid :
      (now : ℕ) (urb : PendingUrb) (p : Pass A)
      → UrbIsValid urb
      → IsValid p.server
      → IsValid (complete_urb usb now urb p).server
  unfolding complete_urb finish_iso
  complete_urb-IsValid now urb p u v =
      if_split {A = Pass A} (λ q. IsValid q.server) (ltb now due)
        (λ late. skip_urb-IsValid now due p (ltb→lt _ _ late) v)
        (λ _.
          if_elim {A = Pass A} (λ q. IsValid q.server) urb.isochronous
            (let w = transmit_iso_ret_submit-IsValid usb urb p.server u.buffer_fits v in
              (remove_pending_urb-UrbsValid p.idx _ w.0, w.1, w.2, w.3, w.4))
            (poll_urb-IsValid now urb p u.buffer_fits v))
    where
      due : ℕ
      due = due_us urb p.server.endpoints

  pub complete_next-IsValid :
      (now : ℕ) (p : Pass A)
      → IsValid p.server
      → more p ≡ true
      → IsValid (complete_next usb now p).server
  unfolding complete_next
  complete_next-IsValid now p v h =
      let (urb, e) = get_urb-lt p.server.pending_urbs p.idx (more-lt p h) in
      rw (complete_next-some now p e) (
        complete_urb-IsValid now urb p (get_urb-All UrbIsValid p.server.pending_urbs p.idx v.0.1 e)
          v)

  -- The pass ends at the end of the list or with the connection lost, and keeps the invariant.
  pub complete_pending_urbs-IsValid :
      (now : ℕ) (s : Server A) → IsValid s → IsValid (complete_pending_urbs usb now s).1
  unfolding complete_pending_urbs
  complete_pending_urbs-IsValid now s v =
      (while_inv remaining more (complete_next usb now) (λ p. IsValid p.server)
        (λ p h t. complete_next-IsValid now p h t) (complete_next-falls now)
        (length s.pending_urbs + 1) _ (omega arith) (v.0, omega arith, v.2, v.3, v.4)).0
