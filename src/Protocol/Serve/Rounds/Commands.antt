-- ===== src/Protocol/Serve/Rounds/Commands.antt =====
-- The commands of an imported device, in src/lib/usbip_protocol.c.
use usbip_server.Prelude.{
  ℕ, ◌≡◌, inl, inr, refl, sym, ap, ◌∙◌, Bool, true, false, List, [], ◌++◌, ◌==◌, ==_iff, if_elim,
  if_split, Bool-cases, append-nil, length, take, drop, leb, leb→le,
}
use mathlib.Core.Path.{subst}
use usbip_server.Device.Api.{UsbDevice}
use usbip_server.Protocol.Conn
use usbip_server.Protocol.Messages.{
  HeaderBasic, read_header_basic, read_unlink_seqnum, ret_unlink_bytes,
}
use usbip_server.Protocol.State.{PendingUrb, Server, read, write}
use usbip_server.Protocol.State.Invariant.{IsValid, read-IsValid}
use usbip_server.Protocol.Reply.{reply_header, urb_unlinked}
use usbip_server.Protocol.Reply.Bytes.{ret_submit_reply}
use usbip_server.Protocol.Submit.{process_submit}
use usbip_server.Protocol.Submit.Answer.{process_submit-Outcome}
use usbip_server.Protocol.Submit.Outcome.{submitted}
use usbip_server.Protocol.Messages.{read_cmd_submit}
use usbip_server.Protocol.Unlink.{unlink, process_unlink}
use usbip_server.Protocol.Unlink.Removal.{Found, unlink_lem}
use usbip_server.Protocol.Unlink.Answer.{taken, process_unlink_lem}
use usbip_server.Protocol.Complete.Answers.Progress.{output_of}
use usbip_server.Protocol.Serve.{process_imported_cmd}
use usbip_server.Protocol.Serve.Rounds.{
  Submitted, replied, completed, queued, Unlinked, cancelled, too_late, Command, submits, unlinks,
}
use usbip_server.Protocol.Serve.Rounds.Input.{process_submit-Takes}

-- A step that succeeds changes the pending transfers and sends bytes as `C` says.
abbrev pub Handles :
    {A : Type 0}
    → (List PendingUrb → List PendingUrb → List ℕ → Type 0)
    → Server A
    → Bool × Server A
    → Type 0
Handles C s r =
    r.0 ≡ true
    → (out : List ℕ) × C s.pending_urbs r.1.pending_urbs out
      × (r.1.conn.output ≡ s.conn.output ++ out)

-- The first transfer of a number is taken away.
cancel :
    (seqnum n : ℕ) (urbs left : List PendingUrb) (f : Found n urbs)
    → left ≡ f.before ++ f.behind
    → Unlinked seqnum n urbs left (reply_header 4 seqnum ++ ret_unlink_bytes urb_unlinked)
cancel seqnum n urbs left f same =
    subst (λ us. Unlinked seqnum n us left (reply_header 4 seqnum ++ ret_unlink_bytes urb_unlinked))
      (sym f.parts) (rw same (cancelled f.before f.behind f.urb f.first f.numbered))

module _ {A : Type 0} where
  -- A reply that is written as one, in a state where nothing else was sent.
  reply-Handles :
      (C : List PendingUrb → List PendingUrb → List ℕ → Type 0) (reply : List ℕ)
      (s before : Server A) {r : Bool × Server A}
      → r ≡ write reply before
      → before.conn.output ≡ s.conn.output
      → C s.pending_urbs before.pending_urbs reply
      → Handles C s r
  unfolding write
  reply-Handles C reply s before written same c ok =
      let pending = ap (λ (x : Bool × Server A). x.1.pending_urbs) written in
      (reply, rw pending c, output_of reply before written ok ∙ ap (λ sent. sent ++ reply) same)

  answered_unlink-Handles :
      (seqnum n : ℕ) (s : Server A)
      → let (status, s') = unlink n s in
        Handles (Unlinked seqnum n) s (write (reply_header 4 seqnum ++ ret_unlink_bytes status) s')
  answered_unlink-Handles seqnum n s = elim (unlink_lem n s) [
    | inl (absent, same) ↦ rw same (
        reply-Handles (Unlinked seqnum n) (reply_header 4 seqnum ++ ret_unlink_bytes 0) s s refl
          refl (too_late absent))
    | inr (f, status, left, restarted) ↦ rw status (
        reply-Handles (Unlinked seqnum n) (reply_header 4 seqnum ++ ret_unlink_bytes urb_unlinked) s
          (unlink n s).1 refl (ap (λ (x : Server A). x.conn.output) left)
          (cancel seqnum n s.pending_urbs (unlink n s).1.pending_urbs f
            (ap (λ (x : Server A). x.pending_urbs) left)))
  ]

  unlink-input : (n : ℕ) (s : Server A) → (unlink n s).1.conn.input ≡ s.conn.input
  unlink-input n s = elim (unlink_lem n s) [
    | inl (absent, same) ↦ rw same refl
    | inr (f, status, left, restarted) ↦ ap (λ (x : Server A). x.conn.input) left
  ]

  -- A command is handled, and what is left of the input.
  abbrev pub Takes :
      (List PendingUrb → List PendingUrb → List ℕ → Type 0)
      → List ℕ
      → Server A
      → Bool × Server A
      → Type 0
  Takes C left s r = Handles C s r × (r.0 ≡ true → r.1.conn.input ≡ left)

  process_unlink-Takes :
      (seqnum : ℕ) (s : Server A)
      → Takes
          (Unlinked seqnum (read_unlink_seqnum (take 28 s.conn.input)))
          (drop 28 s.conn.input)
          s
          (process_unlink seqnum s)
  unfolding process_unlink read Conn.read write Conn.write
  process_unlink-Takes seqnum s = elim (Bool-cases (leb 28 (length s.conn.input))) [
    | inl whole ↦ rw (process_unlink_lem seqnum s (leb→le _ _ whole)) (
      answered_unlink-Handles seqnum (read_unlink_seqnum (take 28 s.conn.input)) (taken s),
      λ ok. unlink-input (read_unlink_seqnum (take 28 s.conn.input)) (taken s),
    )
    | inr cut ↦ rw cut (λ ok. cc, λ ok. cc)
  ]

module _ {A : Type 0} (usb : UsbDevice A) where
  process_submit-Handles :
      (now seqnum ep direction : ℕ) (s : Server A)
      → IsValid s
      → Handles
          (Submitted (submitted seqnum ep direction (read_cmd_submit (take 28 s.conn.input))))
          s
          (process_submit usb now seqnum ep direction s)
  process_submit-Handles now seqnum ep direction s v ok =
      let t = submitted seqnum ep direction (read_cmd_submit (take 28 s.conn.input)) in
      elim (process_submit-Outcome usb now seqnum ep direction s v) [
        | inl refused ↦ absurd (ends ok refused.ends)
        | inr (inl a) ↦
            reply-Handles (Submitted t) (ret_submit_reply seqnum a.status a.actual_length a.bytes) s
              a.before a.written a.unchanged.output (rw a.unchanged.pending_urbs (replied a.told))
              ok
        | inr (inr (inl q)) ↦ (
          [],
          rw q.pending_urbs (queued q.urb q.is_it),
          q.output ∙ sym (append-nil s.conn.output),
        )
        | inr (inr (inr c)) ↦
            reply-Handles (Submitted t) c.reply s c.before c.written c.unchanged.output
              (rw c.unchanged.pending_urbs (completed c.urb c.is_it c.is_full c.answer)) ok
      ]
    where
      ends : {b : Bool} → b ≡ true → b ≡ false → ⊥
      ends on off = cc

  -- A command that does not end the session is a transfer that is submitted or unlinked, as its bytes say.
  pub process_imported_cmd-Takes :
      (now : ℕ) (s : Server A)
      → IsValid s
      → let r = process_imported_cmd usb now s in
        r.0 ≡ true
        → (out : List ℕ) × Command s.endpoints s.conn.input r.1.conn.input s.pending_urbs
            r.1.pending_urbs out
          × (r.1.conn.output ≡ s.conn.output ++ out)
  unfolding process_imported_cmd read Conn.read
  process_imported_cmd-Takes now s v =
      if_elim {A = Bool × Server A} Taken (leb 20 (length s.conn.input))
        (if_split {A = Bool × Server A} Taken (h.command == 1)
          (λ submit ok.
            let (out, c, sent) =
              process_submit-Handles now h.seqnum h.ep h.direction s' (read-IsValid 20 s v) ok in
            (
              out,
              rw (process_submit-Takes usb now h.seqnum h.ep h.direction s' ok)
                  (submits ((==_iff _ _).0 submit) c),
              sent,
            ))
          (λ _.
            if_split {A = Bool × Server A} Taken (h.command == 2)
              (λ unlink ok.
                let takes = process_unlink-Takes h.seqnum s' in
                let (out, c, sent) = takes.0 ok in
                (out, rw (takes.1 ok) (unlinks ((==_iff _ _).0 unlink) c), sent))
              (λ _ ok. cc)))
        (λ ok. cc)
    where
      Taken : Bool × Server A → Type 0
      Taken r =
          r.0 ≡ true
          → (out : List ℕ) × Command s.endpoints s.conn.input r.1.conn.input s.pending_urbs
              r.1.pending_urbs out
            × (r.1.conn.output ≡ s.conn.output ++ out)

      h : HeaderBasic
      h = read_header_basic (take 20 s.conn.input)

      s' : Server A
      s' = record s { conn = record (s.conn) { input = drop 20 s.conn.input } }
