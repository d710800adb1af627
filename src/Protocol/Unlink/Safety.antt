-- ===== src/Protocol/Unlink/Safety.antt =====
-- The list of pending transfers of src/lib/usbip_protocol.c and the protocol's invariant.
use usbip_server.Prelude.{
  ℕ, zero, suc, ◌≤◌, Bool, List, [], ◌∷◌, arith, if_elim, Option-elim, length, All,
}
use usbip_server.Protocol.Messages.{read_unlink_seqnum}
use usbip_server.Protocol.State.{PendingUrb, Server, ◌>>◌, read, write}
use usbip_server.Protocol.State.Invariant.{
  UrbIsValid, UrbsValid, IsValid, ConnOnly, ConnOnly-IsValid, read-IsValid,
}
use usbip_server.Protocol.Reply.{reply_header}
use usbip_server.Protocol.Messages.{ret_unlink_bytes}
use usbip_server.Protocol.Unlink.{remove_pending_urb, find_urb, unlink, process_unlink}

pub length-remove_pending_urb :
    (i : ℕ) (urbs : List PendingUrb) → length (remove_pending_urb i urbs) ≤ length urbs
unfolding remove_pending_urb
length-remove_pending_urb i [] = omega arith
length-remove_pending_urb zero (urb ∷ urbs) = omega arith
length-remove_pending_urb (suc i) (urb ∷ urbs) = omega (arith, length-remove_pending_urb i urbs)

pub remove_pending_urb-All {ℓ} :
    (P : PendingUrb → Type ℓ) (i : ℕ) (urbs : List PendingUrb)
    → All P urbs
    → All P (remove_pending_urb i urbs)
unfolding remove_pending_urb
remove_pending_urb-All P i [] h = tt
remove_pending_urb-All P zero (urb ∷ urbs) h = h.1
remove_pending_urb-All P (suc i) (urb ∷ urbs) h = (h.0, remove_pending_urb-All P i urbs h.1)

pub remove_pending_urb-UrbsValid :
    (i : ℕ) (urbs : List PendingUrb) → UrbsValid urbs → UrbsValid (remove_pending_urb i urbs)
remove_pending_urb-UrbsValid i urbs v = (
  omega (arith, v.0, length-remove_pending_urb i urbs),
  remove_pending_urb-All UrbIsValid i urbs v.1,
)

module _ {A : Type 0} where
  unlink-IsValid : (seqnum : ℕ) (s : Server A) → IsValid s → IsValid (unlink seqnum s).1
  unfolding unlink
  unlink-IsValid seqnum s v =
      Option-elim {B = ℕ × Server A} (λ r. IsValid r.1) (find_urb seqnum s.pending_urbs) v
        (λ found. (remove_pending_urb-UrbsValid found.0 s.pending_urbs v.0, v.1, v.2, v.3, v.4))

  ret_unlink-ConnOnly :
      (seqnum status : ℕ)
      → ConnOnly {A = A} (write (reply_header 4 seqnum) >> write (ret_unlink_bytes status))
  unfolding write
  ret_unlink-ConnOnly seqnum status s = ground arith

  pub process_unlink-IsValid :
      (seqnum : ℕ) (s : Server A) → IsValid s → IsValid (process_unlink seqnum s).1
  unfolding process_unlink
  process_unlink-IsValid seqnum s v =
      if_elim {A = Bool × Server A} (λ r. IsValid r.1) r.0
        (ConnOnly-IsValid (write (reply_header 4 seqnum) >> write (ret_unlink_bytes u.0))
          (ret_unlink-ConnOnly seqnum u.0) u.1 (unlink-IsValid _ r.2 v'))
        v'
    where
      r : Bool × List ℕ × Server A
      r = read 28 s

      v' : IsValid r.2
      v' = read-IsValid 28 s v

      u : ℕ × Server A
      u = unlink (read_unlink_seqnum r.1) r.2
