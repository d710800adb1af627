-- ===== src/Protocol/Reply/Iso/Sent.antt =====
-- The reply of `transmit_iso_ret_submit` of src/lib/usbip_protocol.c is written as one.
use usbip_server.Prelude.{
  ℕ, zero, suc, ◌+◌, ◌%◌, ◌≡◌, inl, inr, refl, ap, ◌∙◌, Bool, true, false, not, ◌&&◌, List, [], ◌∷◌,
  ◌++◌, arith, ltb, ◌==◌, ==_iff, if◌then◌else◌, Bool-cases, length, take, joined, lengths, u32_mod,
}
use mathlib.Core.List.{flat_map}
use usbip_server.Device.Api.{UsbDevice}
use usbip_server.Device.Control.{Gadget}
use usbip_server.Protocol.Messages.{
  IsoPacketDescriptor, ret_submit_bytes, iso_packet_descriptor_bytes,
}
use usbip_server.Protocol.State.{
  IsoPacket, PendingUrb, Server, Step, ◌>>◌, write, write_tx_buffer, usbip_max_packet_size,
}
use usbip_server.Protocol.State.Invariant.{UrbIsValid}
use usbip_server.Protocol.Reply.{
  reply_header, succeed, collect_packets, write_iso_reply, transmit_iso_ret_submit,
}
use usbip_server.Protocol.Reply.Bounds.{not_out}
use usbip_server.Protocol.Reply.Bytes.{write->>, write_if, write_nothing}
use usbip_server.Protocol.Reply.Iso.{descriptors, packet_lengths, sum, iso_reply, IsoAnswer}
use usbip_server.Protocol.Reply.Iso.Packets.{collect-out, collect-in}

no_packets :
    (packets : List IsoPacket) (ns : List ℕ) → length packets ≡ 0 → descriptors packets ns ≡ []
no_packets [] ns e = refl
no_packets (p ∷ packets) ns e = absurd (omega arith)

pub no_bytes : (bytes : List ℕ) → (if ltb 0 (length bytes) then bytes else []) ≡ bytes
no_bytes [] = refl
no_bytes (b ∷ bytes) = let t : ltb 0 (suc (length bytes)) ≡ true = ground arith in rw t refl

module _ {A : Type 0} (usb : UsbDevice A) where
  write_descriptors :
      (n : ℕ) (ds : List IsoPacketDescriptor) (s : Server A)
      → (n ≡ 0 → ds ≡ [])
      → (if ltb 0 n then write (flat_map iso_packet_descriptor_bytes ds) else succeed) s
        ≡ write (flat_map iso_packet_descriptor_bytes ds) s
  unfolding flat_map
  write_descriptors zero ds s none_ = rw (none_ refl) (write_nothing s)
  write_descriptors (suc n) ds s none_ = let t : ltb 0 (suc n) ≡ true = ground arith in rw t refl

  write_rest :
      (send : Bool) (total n : ℕ) (ds : List IsoPacketDescriptor) (s : Server A)
      → (n ≡ 0 → ds ≡ [])
      → ((if send then write_tx_buffer total else succeed)
            >> (if ltb 0 n then write (flat_map iso_packet_descriptor_bytes ds) else succeed))
          s
        ≡ write
            ((if send then take total s.tx_buffer else [])
              ++ flat_map iso_packet_descriptor_bytes ds)
            s
  write_rest send total n ds s none_ =
      ap (λ (r : Bool × Server A). if r.0 then tail r.1 else (false, r.1)) (write_if send total s)
      ∙ write->> bytes (flat_map iso_packet_descriptor_bytes ds) tail s
          (write_descriptors n ds (write bytes s).1 none_)
    where
      bytes : List ℕ
      bytes = if send then take total s.tx_buffer else []

      tail : Step A
      tail = if ltb 0 n then write (flat_map iso_packet_descriptor_bytes ds) else succeed

  write_iso_reply_lem :
      (urb : PendingUrb) (total : ℕ) (ds : List IsoPacketDescriptor) (s : Server A)
      → (urb.number_of_packets ≡ 0 → ds ≡ [])
      → write_iso_reply usb urb total ds s
        ≡ write
            (iso_reply urb total
              (if not (urb.direction == 0) && ltb 0 total then take total s.tx_buffer else [])
              ds)
            s
  unfolding write_iso_reply iso_reply write
  write_iso_reply_lem urb total ds s none_ = write->> head (ret ++ rest) (write ret >> ending) s (
      write->> ret rest ending (write head s).1
        (write_rest send total urb.number_of_packets ds (write ret (write head s).1).1 none_))
    where
      head : List ℕ
      head = reply_header 3 urb.seqnum

      ret : List ℕ
      ret = ret_submit_bytes (record {
        status = 0;
        actual_length = total % u32_mod;
        start_frame = urb.start_frame;
        number_of_packets = urb.number_of_packets;
        error_count = 0;
      })

      send : Bool
      send = not (urb.direction == 0) && ltb 0 total

      rest : List ℕ
      rest =
          (if send then take total s.tx_buffer else []) ++ flat_map iso_packet_descriptor_bytes ds

      ending : Step A
      ending =
          (if send then write_tx_buffer total else succeed)
          >> (if ltb 0 urb.number_of_packets
              then write (flat_map iso_packet_descriptor_bytes ds)
              else succeed)

  -- An IN transfer is answered with the data that its packets were filled with.
  write_in :
      (urb : PendingUrb) (total : ℕ) (ds : List IsoPacketDescriptor) (bytes : List ℕ) (s : Server A)
      → (urb.direction == 0) ≡ false
      → (urb.number_of_packets ≡ 0 → ds ≡ [])
      → total ≡ length bytes
      → take total s.tx_buffer ≡ bytes
      → write_iso_reply usb urb total ds s ≡ write (iso_reply urb (length bytes) bytes ds) s
  write_in urb total ds bytes s in_ none_ len taken =
      write_iso_reply_lem urb total ds s none_
      ∙ rw (in_, taken, len)
          (ap (λ xs. write (iso_reply urb (length bytes) xs ds) s) (no_bytes bytes))

  -- An isochronous reply is written as one, and what it is made of. Beside the connection only the device
  -- and `tx_buffer` change.
  pub transmit_iso_ret_submit_lem :
      (urb : PendingUrb) (s : Server A)
      → UrbIsValid urb
      → length s.tx_buffer ≡ usbip_max_packet_size
      → (reply : List ℕ) × IsoAnswer urb reply
        × (g : Gadget A) × (tx : List ℕ) × (transmit_iso_ret_submit usb urb s
            ≡ write reply (record s { gadget = g; tx_buffer = tx }))
  unfolding transmit_iso_ret_submit take
  transmit_iso_ret_submit_lem urb s v room = elim (Bool-cases (urb.direction == 0)) [
    | inl out ↦
        let all_of_it : 0 + sum (packet_lengths urb.packets) ≡ sum (packet_lengths urb.packets) =
          omega arith in
        (
          _,
          inl ((==_iff urb.direction 0).0 out, refl),
          s.gadget,
          s.tx_buffer,
          rw (collect-out usb urb urb.packets 0 s out) (
              write_iso_reply_lem urb _ _ s
                (λ none_. no_packets urb.packets _ (v.packets_count ∙ none_))
              ∙ rw (out, all_of_it) refl),
        )
    | inr in_ ↦
        let (pieces, fill, ds, total, le, taken, frame) =
          collect-in usb urb urb.packets 0 s in_ v.buffer_fits room (omega arith) in
        (
          iso_reply urb (length (joined pieces)) (joined pieces)
              (descriptors urb.packets (lengths pieces)),
          inr (λ e. not_out e in_, pieces, fill, omega (arith, total, le), refl),
          (collect_packets usb urb urb.packets 0 s).2.gadget,
          (collect_packets usb urb urb.packets 0 s).2.tx_buffer,
          write_in urb (collect_packets usb urb urb.packets 0 s).0 _ (joined pieces) _ in_
                (λ none_. ds ∙ no_packets urb.packets _ (v.packets_count ∙ none_))
                (omega (arith, total)) taken
              ∙ ap
                  (λ sent.
                    write (iso_reply urb (length (joined pieces)) (joined pieces) sent)
                      (collect_packets usb urb urb.packets 0 s).2)
                  ds
              ∙ ap
                  (λ (t : Server A).
                    write
                      (iso_reply urb (length (joined pieces)) (joined pieces)
                        (descriptors urb.packets (lengths pieces)))
                      t)
                  frame,
        )
  ]
