-- ===== src/Protocol/Complete/Answers/Progress.antt =====
-- How far a pass of `complete_pending_urbs` of src/lib/usbip_protocol.c has come.
use usbip_server.Prelude.{
  ℕ, ◌+◌, ◌<◌, ◌≡◌, refl, sym, ap, ◌∙◌, Bool, true, false, some, List, [], ◌∷◌, ◌++◌, arith, ltb,
  leb→le, is_empty, length, take, take_all, append_assoc, length-append,
}
use mathlib.Core.Option.{some-injective}
use usbip_server.Protocol.Conn
use usbip_server.Protocol.State.{PendingUrb, Server, write}
use usbip_server.Protocol.Reply.{transmit_ret_submit}
use usbip_server.Protocol.Reply.Bytes.{ret_submit_reply, transmit_ret_submit_lem}
use usbip_server.Protocol.Unlink.{remove_pending_urb}
use usbip_server.Protocol.Complete.{Pass, get_urb}
use usbip_server.Protocol.Complete.Answers.{Answer, Answers, left_pending, answered}

get_urb-append :
    (left rest : List PendingUrb) → get_urb (left ++ rest) (length left) ≡ get_urb rest 0
unfolding get_urb
get_urb-append [] rest = refl
get_urb-append (urb ∷ left) rest = get_urb-append left rest

remove_pending_urb-append :
    (left rest : List PendingUrb) (urb : PendingUrb)
    → remove_pending_urb (length left) (left ++ urb ∷ rest) ≡ left ++ rest
unfolding remove_pending_urb
remove_pending_urb-append [] rest urb = refl
remove_pending_urb-append (u ∷ left) rest urb =
    ap (λ urbs. u ∷ urbs) (remove_pending_urb-append left rest urb)

first_urb :
    (urbs : List PendingUrb) {urb : PendingUrb}
    → get_urb urbs 0 ≡ some urb
    → (rest : List PendingUrb) × (urbs ≡ urb ∷ rest)
unfolding get_urb
first_urb [] e = cc
first_urb (u ∷ urbs) e = (urbs, ap (λ v. v ∷ urbs) (some-injective _ _ e))

module _ {A : Type 0} where
  -- A write that succeeds sends all its bytes.
  pub write-output :
      (bytes : List ℕ) (s : Server A)
      → (write bytes s).0 ≡ true
      → (write bytes s).1.conn.output ≡ s.conn.output ++ bytes
  unfolding write Conn.write
  write-output bytes s ok = rw (take_all s.conn.room bytes (leb→le _ _ ok)) refl

  -- What two equal steps send.
  pub output_of :
      (bytes : List ℕ) (s : Server A) {r : Bool × Server A}
      → r ≡ write bytes s
      → r.0 ≡ true
      → r.1.conn.output ≡ s.conn.output ++ bytes
  output_of bytes s same ok =
      ap (λ (x : Bool × Server A). x.1.conn.output) same
      ∙ write-output bytes s (sym (ap (λ (x : Bool × Server A). x.0) same) ∙ ok)

  pub ret_submit-output :
      (seqnum : ℕ) (bytes : List ℕ) (s : Server A)
      → 0 < length bytes
      → take (length bytes) s.tx_buffer ≡ bytes
      → (transmit_ret_submit seqnum 0 (length bytes) true s).0 ≡ true
      → (transmit_ret_submit seqnum 0 (length bytes) true s).1.conn.output
        ≡ s.conn.output ++ ret_submit_reply seqnum 0 (length bytes) bytes
  ret_submit-output seqnum bytes s pos taken =
      output_of (ret_submit_reply seqnum 0 (length bytes) bytes) s (
        transmit_ret_submit_lem seqnum 0 (length bytes) true s
        ∙ let some_bytes : ltb 0 (length bytes) ≡ true = ground arith in
          rw (some_bytes, taken) refl)

pub not_empty : (bytes : List ℕ) → is_empty bytes ≡ false → 0 < length bytes
not_empty [] h = cc
not_empty (b ∷ bytes) h = omega arith

-- The transfers that a pass has gone by, in which `s` is the state it began in.
pub record Progress {A : Type 0} (now : ℕ) (s : Server A) (p : Pass A) : Type 0 where
  pub gone_by : List PendingUrb
  pub left : List PendingUrb
  pub rest : List PendingUrb
  pub out : List ℕ
  pub together : s.pending_urbs ≡ gone_by ++ rest
  pub pending : p.server.pending_urbs ≡ left ++ rest
  pub here : length left ≡ p.idx
  pub answers : Answers now gone_by left out
  pub sent : p.server.conn.output ≡ s.conn.output ++ out

module _ {A : Type 0} (now : ℕ) (s : Server A) (urb : PendingUrb) (p q : Pass A)
    (e : get_urb p.server.pending_urbs p.idx ≡ some urb) (pr : Progress now s p) where
  at_urb : (rest : List PendingUrb) × (pr.rest ≡ urb ∷ rest)
  at_urb = first_urb pr.rest (sym (get_urb-append pr.left pr.rest) ∙ rw (pr.here, ← pr.pending) e)

  pub leave :
      q.idx ≡ p.idx + 1
      → q.server.pending_urbs ≡ p.server.pending_urbs
      → q.server.conn.output ≡ p.server.conn.output
      → Progress now s q
  leave idx same quiet =
      let (rest, split) = at_urb in
      record {
        gone_by = pr.gone_by ++ urb ∷ [];
        left = pr.left ++ urb ∷ [];
        rest = rest;
        out = pr.out;
        together = pr.together ∙ rw split (sym (append_assoc pr.gone_by (urb ∷ []) rest));
        pending = same ∙ pr.pending ∙ rw split (sym (append_assoc pr.left (urb ∷ []) rest));
        here = omega (arith, idx, pr.here, length-append pr.left (urb ∷ []));
        answers = left_pending urb pr.answers;
        sent = quiet ∙ pr.sent;
      }

  pub answer :
      (reply : List ℕ)
      → Answer now urb reply
      → q.idx ≡ p.idx
      → q.server.pending_urbs ≡ remove_pending_urb p.idx p.server.pending_urbs
      → q.server.conn.output ≡ p.server.conn.output ++ reply
      → Progress now s q
  answer reply a idx removed sent =
      let (rest, split) = at_urb in
      record {
        gone_by = pr.gone_by ++ urb ∷ [];
        left = pr.left;
        rest = rest;
        out = pr.out ++ reply;
        together = pr.together ∙ rw split (sym (append_assoc pr.gone_by (urb ∷ []) rest));
        pending =
            removed
            ∙ rw (← pr.here, pr.pending, split) (remove_pending_urb-append pr.left rest urb);
        here = omega (arith, idx, pr.here);
        answers = answered urb pr.answers a;
        sent = sent ∙ ap (λ xs. xs ++ reply) pr.sent ∙ append_assoc s.conn.output pr.out reply;
      }
