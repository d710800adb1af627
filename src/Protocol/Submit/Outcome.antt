-- ===== src/Protocol/Submit/Outcome.antt =====
-- The outcomes of a transfer that a client submits, for `process_submit` of src/lib/usbip_protocol.c.
use usbip_server.Prelude.{
  sym, ℕ, ◌≤◌, ◌≡◌, ◌≢◌, ◌⊎◌, ap, ◌∙◌, Bool, true, false, ◌&&◌, List, [], ◌∷◌, ◌++◌, ltb,
  if◌then◌else◌, inl, inr, take, length,
}
use mathlib.Core.Path.{subst}
use usbip_server.Protocol.Messages.{CmdSubmit}
use usbip_server.Protocol.State.{PendingUrb, Server, write, max_pending_urbs}
use usbip_server.Protocol.Reply.{ep_stall, transmit_ret_submit}
use usbip_server.Protocol.Reply.Bytes.{ret_submit_reply, transmit_ret_submit_lem}
use usbip_server.Protocol.Reply.Iso.{IsoAnswer}

-- What the command says of the transfer.
pub record Transfer : Type 0 where
  pub seqnum : ℕ
  pub ep : ℕ
  pub direction : ℕ
  pub transfer_buffer_length : ℕ

-- The same of one that is pending.
abbrev pub transfer_of : PendingUrb → Transfer
transfer_of urb = record {
  seqnum = urb.seqnum;
  ep = urb.ep;
  direction = urb.direction;
  transfer_buffer_length = urb.transfer_buffer_length;
}

-- A transfer of the command `cmd`.
abbrev pub submitted : ℕ → ℕ → ℕ → CmdSubmit → Transfer
submitted seqnum ep direction cmd = record {
  seqnum = seqnum;
  ep = ep;
  direction = direction;
  transfer_buffer_length = cmd.transfer_buffer_length;
}

-- `Told t urbs status actual_length bytes`: what the reply says that a transfer gets at once, when `urbs`
-- are pending. A control transfer is stalled, or an IN one gets no more bytes than it asks for; an OUT
-- transfer is taken whole; another IN transfer gets nothing, and only when there is no room to wait.
pub data Told (t : Transfer) (urbs : List PendingUrb) : ℕ → ℕ → List ℕ → Type 0 where
  stalled : t.ep ≡ 0 → Told t urbs ep_stall 0 []
  taken_whole : t.direction ≡ 0 → Told t urbs 0 t.transfer_buffer_length []
  given :
      (bytes : List ℕ)
      → t.ep ≡ 0
      → t.direction ≢ 0
      → length bytes ≤ t.transfer_buffer_length
      → Told t urbs 0 (length bytes) bytes
  no_room : t.ep ≢ 0 → t.direction ≢ 0 → length urbs ≡ max_pending_urbs → Told t urbs 0 0 []

Told-same :
    (t : Transfer) (urbs urbs' : List PendingUrb) {status n : ℕ} {bytes : List ℕ}
    → urbs' ≡ urbs
    → Told t urbs' status n bytes
    → Told t urbs status n bytes
Told-same t urbs urbs' {status} {n} {bytes} same told =
    subst (λ us. Told t us status n bytes) same told

module _ {A : Type 0} where
  -- What the client is told and what is pending are the same.
  pub record Same (s s' : Server A) : Type 0 where
    pub output : s'.conn.output ≡ s.conn.output
    pub room : s'.conn.room ≡ s.conn.room
    pub pending_urbs : s'.pending_urbs ≡ s.pending_urbs

  -- The transfer is refused, which ends the session.
  pub record Refused (s : Server A) (r : Bool × Server A) : Type 0 where
    pub ends : r.0 ≡ false
    pub unchanged : Same s r.1

  -- Just one reply is written, with the transfer's number.
  pub record Answered (t : Transfer) (s : Server A) (r : Bool × Server A) : Type 0 where
    pub status : ℕ
    pub actual_length : ℕ
    pub bytes : List ℕ
    pub before : Server A
    pub told : Told t s.pending_urbs status actual_length bytes
    pub written : r ≡ write (ret_submit_reply t.seqnum status actual_length bytes) before
    pub unchanged : Same s before

  -- Nothing is written, and the transfer is the last of those pending.
  pub record Queued (t : Transfer) (s : Server A) (r : Bool × Server A) : Type 0 where
    pub urb : PendingUrb
    pub is_it : transfer_of urb ≡ t
    pub goes_on : r.0 ≡ true
    pub output : r.1.conn.output ≡ s.conn.output
    pub pending_urbs : r.1.pending_urbs ≡ s.pending_urbs ++ urb ∷ []

  -- An isochronous transfer for which there is no room among those pending is completed at once.
  pub record Completed (t : Transfer) (s : Server A) (r : Bool × Server A) : Type 0 where
    pub urb : PendingUrb
    pub is_it : transfer_of urb ≡ t
    pub reply : List ℕ
    pub before : Server A
    pub answer : IsoAnswer urb reply
    pub written : r ≡ write reply before
    pub is_full : length s.pending_urbs ≡ max_pending_urbs
    pub unchanged : Same s before

  abbrev pub Outcome : Transfer → Server A → Bool × Server A → Type 0
  Outcome t s r = Refused s r ⊎ Answered t s r ⊎ Queued t s r ⊎ Completed t s r

  pub Same-Same : (s s' s'' : Server A) → Same s s' → Same s' s'' → Same s s''
  Same-Same s s' s'' h k = record {
    output = k.output ∙ h.output;
    room = k.room ∙ h.room;
    pending_urbs = k.pending_urbs ∙ h.pending_urbs;
  }

  pub Same-Outcome :
      (t : Transfer) (s s' : Server A) (r : Bool × Server A)
      → Same s s'
      → Outcome t s' r
      → Outcome t s r
  Same-Outcome t s s' r h (inl k) =
      inl (record { ends = k.ends; unchanged = Same-Same s s' r.1 h k.unchanged })
  Same-Outcome t s s' r h (inr (inl k)) = inr (
      inl (record {
        status = k.status;
        actual_length = k.actual_length;
        bytes = k.bytes;
        before = k.before;
        told = Told-same t s.pending_urbs s'.pending_urbs h.pending_urbs k.told;
        written = k.written;
        unchanged = Same-Same s s' k.before h k.unchanged;
      }))
  Same-Outcome t s s' r h (inr (inr (inl k))) = inr (
      inr (
        inl (record {
          urb = k.urb;
          is_it = k.is_it;
          goes_on = k.goes_on;
          output = k.output ∙ h.output;
          pending_urbs = k.pending_urbs ∙ ap (λ urbs. urbs ++ k.urb ∷ []) h.pending_urbs;
        })))
  Same-Outcome t s s' r h (inr (inr (inr k))) = inr (
      inr (
        inr (record {
          urb = k.urb;
          is_it = k.is_it;
          reply = k.reply;
          before = k.before;
          answer = k.answer;
          written = k.written;
          is_full = sym (ap (λ (urbs : List PendingUrb). length urbs) h.pending_urbs) ∙ k.is_full;
          unchanged = Same-Same s s' k.before h k.unchanged;
        })))

  pub transmit-Outcome :
      (t : Transfer) (status n : ℕ) (send : Bool) (bytes : List ℕ) (s s' : Server A)
      → Same s s'
      → Told t s.pending_urbs status n bytes
      → (if send && ltb 0 n then take n s'.tx_buffer else []) ≡ bytes
      → Outcome t s (transmit_ret_submit t.seqnum status n send s')
  transmit-Outcome t status n send bytes s s' h told sent = inr (
      inl (record {
        status = status;
        actual_length = n;
        bytes = bytes;
        before = s';
        told = told;
        written =
            transmit_ret_submit_lem t.seqnum status n send s'
            ∙ ap (λ bs. write (ret_submit_reply t.seqnum status n bs) s') sent;
        unchanged = h;
      }))
