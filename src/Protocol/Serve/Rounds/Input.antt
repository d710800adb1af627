-- ===== src/Protocol/Serve/Rounds/Input.antt =====
-- What the steps of src/lib/usbip_protocol.c take from the connection.
use usbip_server.Prelude.{
  ℕ, ◌+◌, ◌*◌, ◌%◌, u32_mod, ◌≡◌, refl, ap, ◌∙◌, Bool, true, false, not, ◌&&◌, List, [], ◌∷◌, ◌==◌,
  ltb, if◌then◌else◌, if_elim, if_split, Option-cases, Bool-cases, inl, inr, take, drop, length,
}
use mathlib.Core.List.{flat_map}
use usbip_server.Device.Api.{UsbDevice}
use usbip_server.Protocol.Conn
use usbip_server.Protocol.Messages.{
  CmdSubmit, read_cmd_submit, ret_submit_bytes, IsoPacketDescriptor,
}
use usbip_server.Protocol.State.{
  IsoPacket, PendingUrb, Server, Step, set_endpoint, ◌>>◌, slot, read, read_rx_buffer, write,
  write_tx_buffer, usbip_max_packet_size, max_pending_urbs, max_iso_packets,
}
use usbip_server.Protocol.Reply.{
  ep_stall, reply_header, succeed, packet_data, collect_packets, write_iso_reply,
  transmit_ret_submit, transmit_iso_ret_submit,
}
use usbip_server.Protocol.Messages.{iso_packet_descriptor_bytes}
use usbip_server.Protocol.Reply.Bytes.{transmit_ret_submit_lem}
use usbip_server.Protocol.Submit.{
  read_packets, receive_packets, queue_iso, iso_urb, process_iso_submit, perform_control,
  process_control, process_out, process_in, dispatch_submit, accept_submit, process_submit,
  queue_or_transmit, stream_complete_us,
}
use usbip_server.Protocol.Serve.Rounds.{data_length, packets_length, behind_submit}

module _ {A : Type 0} where
  -- Nothing is taken.
  abbrev pub Leaves : Step A → Type 0
  Leaves m = (s : Server A) → (m s).1.conn.input ≡ s.conn.input

  write-Leaves : (bytes : List ℕ) → Leaves (write bytes)
  unfolding write Conn.write
  write-Leaves bytes s = refl

  if-Leaves : (b : Bool) (m k : Step A) → Leaves m → Leaves k → Leaves (if b then m else k)
  if-Leaves true m k hm hk = hm
  if-Leaves false m k hm hk = hk

  >>-Leaves : (m k : Step A) → Leaves m → Leaves k → Leaves (m >> k)
  >>-Leaves m k hm hk s =
      if_elim {A = Bool × Server A} (λ r. r.1.conn.input ≡ s.conn.input) (m s).0 (hk (m s).1 ∙ hm s)
        (hm s)

  pub transmit_ret_submit-Leaves :
      (seqnum status n : ℕ) (send : Bool) → Leaves (transmit_ret_submit seqnum status n send)
  transmit_ret_submit-Leaves seqnum status n send s =
      ap (λ (r : Bool × Server A). r.1.conn.input) (transmit_ret_submit_lem seqnum status n send s)
      ∙ write-Leaves _ s

module _ {A : Type 0} (usb : UsbDevice A) where
  collect_packets-input :
      (urb : PendingUrb) (packets : List IsoPacket) (total : ℕ) (s : Server A)
      → (collect_packets usb urb packets total s).2.conn.input ≡ s.conn.input
  unfolding collect_packets packet_data
  collect_packets-input urb [] total s = refl
  collect_packets-input urb (p ∷ packets) total s =
      let (n, s') = packet_data usb urb p total s in
      collect_packets-input urb packets (total + n) s'
      ∙ if_elim {A = ℕ × Server A} (λ r. r.1.conn.input ≡ s.conn.input) (urb.direction == 0) refl
          refl

  write_iso_reply-Leaves :
      (urb : PendingUrb) (total : ℕ) (ds : List IsoPacketDescriptor)
      → Leaves (write_iso_reply usb urb total ds)
  unfolding write_iso_reply write_tx_buffer
  write_iso_reply-Leaves urb total ds =
      >>-Leaves (write (reply_header 3 urb.seqnum)) (write ret >> (body >> tail))
        (write-Leaves (reply_header 3 urb.seqnum))
        (>>-Leaves (write ret) (body >> tail) (write-Leaves ret) (
          >>-Leaves body tail
            (if-Leaves (not (urb.direction == 0) && ltb 0 total) (write_tx_buffer total) succeed
              (λ s. write-Leaves (take total s.tx_buffer) s) (λ s. refl))
            (if-Leaves (ltb 0 urb.number_of_packets)
              (write (flat_map iso_packet_descriptor_bytes ds)) succeed
              (write-Leaves (flat_map iso_packet_descriptor_bytes ds)) (λ s. refl))))
    where
      body : Step A
      body = if not (urb.direction == 0) && ltb 0 total then write_tx_buffer total else succeed

      tail : Step A
      tail =
          if ltb 0 urb.number_of_packets
          then write (flat_map iso_packet_descriptor_bytes ds)
          else succeed

      ret : List ℕ
      ret = ret_submit_bytes (record {
        status = 0;
        actual_length = total % u32_mod;
        start_frame = urb.start_frame;
        number_of_packets = urb.number_of_packets;
        error_count = 0;
      })

  pub transmit_iso_ret_submit-Leaves : (urb : PendingUrb) → Leaves (transmit_iso_ret_submit usb urb)
  unfolding transmit_iso_ret_submit
  transmit_iso_ret_submit-Leaves urb s =
      let (total, ds, s') = collect_packets usb urb urb.packets 0 s in
      write_iso_reply-Leaves urb total ds s' ∙ collect_packets-input urb urb.packets 0 s

  -- A step that succeeds leaves just this.
  abbrev pub Takes : List ℕ → Bool × Server A → Type 0
  Takes left r = r.0 ≡ true → r.1.conn.input ≡ left

  receive_packets-input :
      (ep : ℕ) (packets : List IsoPacket) (s : Server A)
      → (receive_packets usb ep packets s).conn.input ≡ s.conn.input
  unfolding receive_packets
  receive_packets-input ep [] s = refl
  receive_packets-input ep (p ∷ packets) s =
      receive_packets-input ep packets _
      ∙ if_elim {A = Server A} (λ t. t.conn.input ≡ s.conn.input) (ltb 0 p.length) refl refl

  queue_or_transmit-Leaves : (urb : PendingUrb) → Leaves (queue_or_transmit usb urb)
  unfolding queue_or_transmit
  queue_or_transmit-Leaves urb s =
      if_elim {A = Bool × Server A} (λ r. r.1.conn.input ≡ s.conn.input)
        (length s.pending_urbs == max_pending_urbs) (transmit_iso_ret_submit-Leaves urb s) refl

  queue_iso-Leaves : (now : ℕ) (urb : PendingUrb) → Leaves (queue_iso usb now urb)
  unfolding queue_iso
  queue_iso-Leaves now urb s =
      let i = slot urb.direction urb.ep in
      let done_us = stream_complete_us now urb.number_of_packets (s.endpoints i) in
      queue_or_transmit-Leaves (record urb { complete_us = done_us })
        (record s {
          endpoints =
              set_endpoint s.endpoints i (record (s.endpoints i) { stream_end_us = done_us });
        })

  process_iso_submit-Takes :
      (now seqnum ep direction : ℕ) (cmd : CmdSubmit) (s : Server A)
      → Takes
          (drop (cmd.number_of_packets * 16) s.conn.input)
          (process_iso_submit usb now seqnum ep direction cmd s)
  unfolding process_iso_submit read Conn.read
  process_iso_submit-Takes now seqnum ep direction cmd s =
      if_elim {A = Bool × Server A} (Takes left) (ltb max_iso_packets cmd.number_of_packets)
        (λ ok. cc)
        (if_elim {A = Bool × Server A} (Takes left) r.0
          (elim (Option-cases (read_packets cmd.number_of_packets cmd.transfer_buffer_length r.1)) [
            | inl e ↦ rw e (λ ok. cc)
            | inr (ps, e) ↦ rw e (λ ok.
                queue_iso-Leaves now (iso_urb seqnum ep direction cmd ps) (accepted ps)
                ∙ if_elim {A = Server A} (λ t. t.conn.input ≡ left) (direction == 0)
                    (receive_packets-input ep ps r.2) refl)
          ])
          (λ ok. cc))
    where
      left : List ℕ
      left = drop (cmd.number_of_packets * 16) s.conn.input

      r : Bool × List ℕ × Server A
      r = read (cmd.number_of_packets * 16) s

      accepted : List IsoPacket → Server A
      accepted packets = if direction == 0 then receive_packets usb ep packets r.2 else r.2

  process_control-Leaves :
      (seqnum direction : ℕ) (cmd : CmdSubmit) → Leaves (process_control usb seqnum direction cmd)
  unfolding process_control perform_control
  process_control-Leaves seqnum direction cmd s =
      let (halted, n, s') = perform_control usb direction cmd s in
      let same =
        if_elim {A = Bool × ℕ × Server A} (λ r. r.2.conn.input ≡ s.conn.input) (direction == 1) refl
          refl in
      if_elim {A = Bool × Server A} (λ r. r.1.conn.input ≡ s.conn.input) halted
        (transmit_ret_submit-Leaves seqnum ep_stall 0 false s' ∙ same)
        (if_elim {A = Bool × Server A} (λ r. r.1.conn.input ≡ s.conn.input) (direction == 0)
          (transmit_ret_submit-Leaves seqnum 0 cmd.transfer_buffer_length false s' ∙ same)
          (transmit_ret_submit-Leaves seqnum 0 n true s' ∙ same))

  process_out-Leaves : (seqnum ep n : ℕ) → Leaves (process_out usb seqnum ep n)
  unfolding process_out
  process_out-Leaves seqnum ep n s =
      transmit_ret_submit-Leaves seqnum 0 n false _
      ∙ if_elim {A = Server A} (λ t. t.conn.input ≡ s.conn.input) (ltb 0 n) refl refl

  process_in-Leaves : (seqnum ep direction n : ℕ) → Leaves (process_in usb seqnum ep direction n)
  unfolding process_in
  process_in-Leaves seqnum ep direction n s =
      if_elim {A = Bool × Server A} (λ r. r.1.conn.input ≡ s.conn.input)
        (length s.pending_urbs == max_pending_urbs) (transmit_ret_submit-Leaves seqnum 0 0 true s)
        refl

  dispatch_submit-Takes :
      (now seqnum ep direction : ℕ) (cmd : CmdSubmit) (s : Server A)
      → Takes
          (drop (packets_length s.endpoints ep direction cmd) s.conn.input)
          (dispatch_submit usb now seqnum ep direction cmd s)
  unfolding dispatch_submit drop
  dispatch_submit-Takes now seqnum ep direction cmd s =
      elim (Bool-cases (not (ep == 0) && (s.endpoints (slot direction ep)).transfer_type == 1)) [
        | inl iso ↦ rw iso (process_iso_submit-Takes now seqnum ep direction cmd s)
        | inr direct ↦ rw direct (λ ok.
            if_elim {A = Bool × Server A} (λ r. r.1.conn.input ≡ s.conn.input) (ep == 0)
              (process_control-Leaves seqnum direction cmd s)
              (if_elim {A = Bool × Server A} (λ r. r.1.conn.input ≡ s.conn.input) (direction == 0)
                (process_out-Leaves seqnum ep cmd.transfer_buffer_length s)
                (process_in-Leaves seqnum ep direction cmd.transfer_buffer_length s)))
      ]

  accept_submit-Takes :
      (now seqnum ep direction : ℕ) (cmd : CmdSubmit) (s : Server A)
      → Takes
          (drop
            (packets_length s.endpoints ep direction cmd)
            (drop (data_length direction cmd) s.conn.input))
          (accept_submit usb now seqnum ep direction cmd s)
  unfolding accept_submit read_rx_buffer read Conn.read drop
  accept_submit-Takes now seqnum ep direction cmd s =
      if_elim {A = Bool × Server A} (Takes _) (ltb usbip_max_packet_size cmd.transfer_buffer_length)
        (λ ok. cc)
        (if_split {A = Bool × Server A} (Takes _) (direction == 0)
          (λ out.
            let expected : data_length direction cmd ≡ cmd.transfer_buffer_length = rw out refl in
            rw expected (
              if_elim {A = Bool × Server A} (Takes _) r.0
                (dispatch_submit-Takes now seqnum ep direction cmd r.1) (λ ok. cc)))
          (λ in_.
            let expected : data_length direction cmd ≡ 0 = rw in_ refl in
            rw expected (dispatch_submit-Takes now seqnum ep direction cmd s)))
    where
      r : Bool × Server A
      r = read_rx_buffer cmd.transfer_buffer_length s

  -- A transfer that does not end the session takes its command, its data and its packets from the input.
  pub process_submit-Takes :
      (now seqnum ep direction : ℕ) (s : Server A)
      → Takes
          (behind_submit s.endpoints ep direction s.conn.input)
          (process_submit usb now seqnum ep direction s)
  unfolding process_submit read Conn.read
  process_submit-Takes now seqnum ep direction s =
      if_elim {A = Bool × Server A} (Takes _) r.0
        (accept_submit-Takes now seqnum ep direction (read_cmd_submit r.1) r.2) (λ ok. cc)
    where
      r : Bool × List ℕ × Server A
      r = read 28 s
