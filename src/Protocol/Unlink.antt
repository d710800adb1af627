-- ===== src/Protocol/Unlink.antt =====
-- The list of pending transfers and USBIP_CMD_UNLINK, `process_unlink` of src/lib/usbip_protocol.c.
pub mod Safety
pub mod Removal
pub mod Answer
use usbip_server.Prelude.{
  ℕ, zero, suc, Bool, false, not, ◌&&◌, ◌||◌, Option, none, some, List, [], ◌∷◌, ◌==◌,
  if◌then◌else◌,
}
use usbip_server.Protocol.Messages.{read_unlink_seqnum, header_basic_bytes, ret_unlink_bytes}
use usbip_server.Protocol.State.{PendingUrb, Server, Step, ◌>>◌, slot, set_endpoint, read, write}
use usbip_server.Protocol.Reply.{urb_unlinked, reply_header}

-- `has_pending_iso_urbs`
unfoldable pub has_pending_iso_urbs : ℕ → ℕ → List PendingUrb → Bool
has_pending_iso_urbs ep direction [] = false
has_pending_iso_urbs ep direction (urb ∷ urbs) =
    (urb.isochronous && urb.ep == ep && urb.direction == direction)
    || has_pending_iso_urbs ep direction urbs

-- `remove_pending_urb`
unfoldable pub remove_pending_urb : ℕ → List PendingUrb → List PendingUrb
remove_pending_urb i [] = []
remove_pending_urb zero (urb ∷ urbs) = urbs
remove_pending_urb (suc i) (urb ∷ urbs) = urb ∷ remove_pending_urb i urbs

-- The index of the first transfer with this number, and the transfer.
unfoldable pub find_urb : ℕ → List PendingUrb → Option (ℕ × PendingUrb)
find_urb seqnum [] = none
find_urb seqnum (urb ∷ urbs) =
    let rest = find_urb seqnum urbs in
    if urb.seqnum == seqnum
    then some (0, urb)
    else elim rest [ none ↦ none | some (i, found) ↦ some (suc i, found) ]

module _ {A : Type 0} where
  -- The body of the loop, for the transfer at `i` that has the number.
  unfoldable pub unlink_found : ℕ → PendingUrb → Server A → Server A
  unfolding remove_pending_urb has_pending_iso_urbs
  unlink_found i urb s =
      let urbs = remove_pending_urb i s.pending_urbs in
      let j = slot urb.direction urb.ep in
      record s {
        pending_urbs = urbs;
        endpoints =
            if urb.isochronous && not (has_pending_iso_urbs urb.ep urb.direction urbs)
            then set_endpoint s.endpoints j (record (s.endpoints j) { stream_end_us = 0 })
            else s.endpoints;
      }

  -- The loop: the status to report, and the state.
  unfoldable pub unlink : ℕ → Server A → ℕ × Server A
  unfolding find_urb unlink_found
  unlink seqnum s = elim (find_urb seqnum s.pending_urbs) [
    | none ↦ (0, s)
    | some (i, urb) ↦ (urb_unlinked, unlink_found i urb s)
  ]

  -- `process_unlink`
  unfoldable pub process_unlink : ℕ → Step A
  unfolding read write read_unlink_seqnum unlink header_basic_bytes ret_unlink_bytes
  process_unlink seqnum s =
      let (status, bytes, s') = read 28 s in
      if status
      then (let (unlink_status, s'') = unlink (read_unlink_seqnum bytes) s' in
          (write (reply_header 4 seqnum) >> write (ret_unlink_bytes unlink_status)) s'')
      else (false, s')
