-- ===== src/Protocol/Reply/Bytes.antt =====
-- The replies of src/lib/usbip_protocol.c as bytes: they are written in parts.
use usbip_server.Prelude.{
  ℕ, zero, suc, ◌-◌, ◌≤◌, ◌<◌, ◌≡◌, refl, sym, ap, ◌∙◌, Bool, true, false, ◌&&◌, List, [], ◌∷◌,
  ◌++◌, arith, ltb, leb, if◌then◌else◌, Bool-cases, inl, inr, length, take, leb→le, take_all,
  length-append, append_assoc, append-nil,
}
use usbip_server.Protocol.Conn
use usbip_server.Protocol.Conn.{Conn}
use usbip_server.Protocol.Messages.{header_basic_bytes, ret_submit_bytes}
use usbip_server.Protocol.State.{Server, Step, ◌>>◌, write, write_tx_buffer}
use usbip_server.Protocol.Reply.{reply_header, succeed, transmit_ret_submit}

pub take_append-le : (n : ℕ) (a b : List ℕ) → n ≤ length a → take n (a ++ b) ≡ take n a
unfolding take
take_append-le zero a b h = refl
take_append-le (suc n) [] b h = absurd (omega arith)
take_append-le (suc n) (x ∷ a) b h = ap (λ xs. x ∷ xs) (take_append-le n a b (omega arith))

take_append-ge :
    (n : ℕ) (a b : List ℕ) → length a ≤ n → take n (a ++ b) ≡ a ++ take (n - length a) b
unfolding take
take_append-ge n [] b h = let same : n - 0 ≡ n = omega arith in rw same refl
take_append-ge zero (x ∷ a) b h = absurd (omega arith)
take_append-ge (suc n) (x ∷ a) b h =
    let same : suc n - suc (length a) ≡ n - length a = omega arith in
    rw same (ap (λ xs. x ∷ xs) (take_append-ge n a b (omega arith)))

take_nothing : (n : ℕ) → take {A = ℕ} n [] ≡ []
unfolding take
take_nothing zero = refl
take_nothing (suc n) = refl

output_both :
    (n : ℕ) (o a b : List ℕ)
    → length a ≤ n
    → (o ++ take n a) ++ take (n - length a) b ≡ o ++ take n (a ++ b)
output_both n o a b le = rw (take_all n a le, take_append-ge n a b le) (append_assoc o a _)

-- USBIP_RET_SUBMIT of a transfer that is not isochronous, and the bytes that are sent with it.
unfoldable pub ret_submit_reply : ℕ → ℕ → ℕ → List ℕ → List ℕ
unfolding header_basic_bytes ret_submit_bytes
ret_submit_reply seqnum status actual_length bytes =
    reply_header 3 seqnum
    ++ (ret_submit_bytes (record {
      status = status;
      actual_length = actual_length;
      start_frame = 0;
      number_of_packets = 0xffff_ffff;
      error_count = 0;
    })
        ++ bytes)

module _ {A : Type 0} where
  -- The outcome of a write: `status`, and what the connection is then.
  abbrev pub wrote : Server A → Bool → ℕ → List ℕ → Bool × Server A
  wrote s status room output =
      (status, record s { conn = record (s.conn) { room = room; output = output } })

  pub wrote_eq :
      (s : Server A) {b b' : Bool} {n n' : ℕ} {o o' : List ℕ}
      → b ≡ b'
      → n ≡ n'
      → o ≡ o'
      → wrote s b n o ≡ wrote s b' n' o'
  wrote_eq s p q r = rw (p, q, r) refl

  -- Two writes in a row are one, also where the connection takes only some of the bytes.
  pub write-write : (a b : List ℕ) (s : Server A) → (write a >> write b) s ≡ write (a ++ b) s
  unfolding write Conn.write
  write-write a b s = elim (Bool-cases (leb (length a) room)) [
    | inl fits ↦
        let le = leb→le _ _ fits in
        rw fits (
          wrote_eq s (ground (arith, length-append a b)) (omega (arith, length-append a b))
            (output_both room output a b le))
    | inr short ↦
        let lt : room < length a = ground arith in
        rw short (
          wrote_eq s (ground (arith, length-append a b)) (omega (arith, length-append a b))
            (ap (λ xs. output ++ xs) (sym (take_append-le room a b (omega arith)))))
  ]
    where
      room : ℕ
      room = s.conn.room

      output : List ℕ
      output = s.conn.output

  pub write_nothing : (s : Server A) → succeed s ≡ write [] s
  unfolding write Conn.write
  write_nothing s =
      wrote_eq s (ground arith) (omega arith)
        (rw (take_nothing s.conn.room) (sym (append-nil s.conn.output)))

  -- So is a write before a step that is a write of its own.
  pub write->> :
      (a b : List ℕ) (k : Step A) (s : Server A)
      → k (write a s).1 ≡ write b (write a s).1
      → (write a >> k) s ≡ write (a ++ b) s
  write->> a b k s h =
      ap (λ (x : Bool × Server A). if (write a s).0 then x else (false, (write a s).1)) h
      ∙ write-write a b s

  -- The end of a reply: bytes of `tx_buffer`, if there are some to send.
  pub write_if :
      (send : Bool) (n : ℕ) (s : Server A)
      → (if send then write_tx_buffer n else succeed) s
        ≡ write (if send then take n s.tx_buffer else []) s
  unfolding write_tx_buffer
  write_if true n s = refl
  write_if false n s = write_nothing s

  -- The reply to a transfer that is not isochronous is written as one: header, status and length, and
  -- the first bytes of `tx_buffer` if they are to be sent.
  pub transmit_ret_submit_lem :
      (seqnum status n : ℕ) (send : Bool) (s : Server A)
      → transmit_ret_submit seqnum status n send s
        ≡ write
            (ret_submit_reply seqnum status n (if send && ltb 0 n then take n s.tx_buffer else []))
            s
  unfolding transmit_ret_submit ret_submit_reply write
  transmit_ret_submit_lem seqnum status n send s =
      write->> head (ret ++ bytes)
        (write ret >> (if send && ltb 0 n then write_tx_buffer n else succeed)) s
        (write->> ret bytes (if send && ltb 0 n then write_tx_buffer n else succeed)
          (write head s).1 (write_if (send && ltb 0 n) n (write ret (write head s).1).1))
    where
      head : List ℕ
      head = reply_header 3 seqnum

      ret : List ℕ
      ret = ret_submit_bytes (record {
        status = status;
        actual_length = n;
        start_frame = 0;
        number_of_packets = 0xffff_ffff;
        error_count = 0;
      })

      bytes : List ℕ
      bytes = if send && ltb 0 n then take n s.tx_buffer else []
