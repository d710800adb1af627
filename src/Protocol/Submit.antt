-- ===== src/Protocol/Submit.antt =====
-- USBIP_CMD_SUBMIT: `process_submit` and `process_iso_submit` of src/lib/usbip_protocol.c.
pub mod Safety
pub mod Outcome
pub mod Answer
use usbip_server.Prelude.{
  ℕ, zero, suc, ◌+◌, ◌*◌, ◌%◌, Bool, true, false, not, ◌&&◌, ◌||◌, Option, none, some, List, [],
  ◌∷◌, ◌++◌, ltb, ◌==◌, if◌then◌else◌, length, take, drop, write_at, u64_mod,
}
use usbip_server.Device.Api.{UsbDevice}
use usbip_server.Device.Buffers.{fetch_control_reply}
use usbip_server.Device.Control.{control, receive}
use usbip_server.Protocol.Messages.{CmdSubmit, read_cmd_submit, be32_at}
use usbip_server.Protocol.State.{
  Endpoint, IsoPacket, PendingUrb, Server, Step, usbip_max_packet_size, max_pending_urbs,
  max_iso_packets, slot, set_endpoint, read, read_rx_buffer,
}
use usbip_server.Protocol.Reply.{ep_stall, transmit_ret_submit, transmit_iso_ret_submit}

-- The packets of `n` packet descriptors, or `none` if one is outside the transfer buffer.
unfoldable pub read_packets : ℕ → ℕ → List ℕ → Option (List IsoPacket)
unfolding be32_at
read_packets zero transfer_buffer_length d = some []
read_packets (suc n) transfer_buffer_length d =
    let rest = read_packets n transfer_buffer_length (drop 16 d) in
    if ltb transfer_buffer_length (be32_at d 0 + be32_at d 4) then none else elim rest [
      | none ↦ none
      | some packets ↦ some (record { offset = be32_at d 0; length = be32_at d 4 } ∷ packets)
    ]

-- When a transfer of that many packets completes: one service interval for each, from the end of the
-- transfer before it on the endpoint, or from now.
unfoldable pub stream_complete_us : ℕ → ℕ → Endpoint → ℕ
stream_complete_us now number_of_packets endpoint =
    let start = if ltb now endpoint.stream_end_us then endpoint.stream_end_us else now in
    (start + number_of_packets * endpoint.interval_us) % u64_mod

-- The transfer, before it has its place in the stream.
unfoldable pub iso_urb : ℕ → ℕ → ℕ → CmdSubmit → List IsoPacket → PendingUrb
iso_urb seqnum ep direction cmd packets = record {
  seqnum = seqnum;
  ep = ep;
  direction = direction;
  transfer_buffer_length = cmd.transfer_buffer_length;
  isochronous = true;
  start_frame = cmd.start_frame;
  number_of_packets = cmd.number_of_packets;
  complete_us = 0;
  packets = packets;
}

-- A bulk or interrupt IN transfer.
unfoldable pub in_urb : ℕ → ℕ → ℕ → ℕ → PendingUrb
in_urb seqnum ep direction transfer_buffer_length = record {
  seqnum = seqnum;
  ep = ep;
  direction = direction;
  transfer_buffer_length = transfer_buffer_length;
  isochronous = false;
  start_frame = 0;
  number_of_packets = 0;
  complete_us = 0;
  packets = [];
}

module _ {A : Type 0} (usb : UsbDevice A) where
  -- OUT packets, from their place in `rx_buffer` to the device.
  unfoldable pub receive_packets : ℕ → List IsoPacket → Server A → Server A
  unfolding receive
  receive_packets ep [] s = s
  receive_packets ep (p ∷ packets) s = receive_packets ep packets (
      if ltb 0 p.length
      then record s { gadget = receive usb ep (take p.length (drop p.offset s.rx_buffer)) s.gadget }
      else s)

  -- The transfer waits if there is room, and completes at once if not.
  unfoldable pub queue_or_transmit : PendingUrb → Step A
  unfolding transmit_iso_ret_submit
  queue_or_transmit urb s =
      if length s.pending_urbs == max_pending_urbs
      then transmit_iso_ret_submit usb urb s
      else (true, record s { pending_urbs = s.pending_urbs ++ urb ∷ [] })

  -- The transfer takes its place in the endpoint's stream.
  unfoldable pub queue_iso : ℕ → PendingUrb → Step A
  unfolding stream_complete_us queue_or_transmit
  queue_iso now urb s =
      let i = slot urb.direction urb.ep in
      let endpoint = s.endpoints i in
      let complete_us' = stream_complete_us now urb.number_of_packets endpoint in
      queue_or_transmit (record urb { complete_us = complete_us' })
        (record s {
          endpoints = set_endpoint s.endpoints i (record endpoint { stream_end_us = complete_us' });
        })

  -- `process_iso_submit`. `now` is what `now_us` returns.
  unfoldable pub process_iso_submit : ℕ → ℕ → ℕ → ℕ → CmdSubmit → Step A
  unfolding read read_packets receive_packets iso_urb queue_iso
  process_iso_submit now seqnum ep direction cmd s =
      if ltb max_iso_packets cmd.number_of_packets
      then (false, s)
      else (let (status, bytes, s') = read (cmd.number_of_packets * 16) s in
          if status
          then elim (read_packets cmd.number_of_packets cmd.transfer_buffer_length bytes) [
            | none ↦ (false, s')
            | some packets ↦
                queue_iso now (iso_urb seqnum ep direction cmd packets)
                  (if direction == 0 then receive_packets ep packets s' else s')
          ]
          else (false, s'))

  -- A control request and, for an IN request, its reply: whether it is stalled, and `tx_length`.
  unfoldable pub perform_control : ℕ → CmdSubmit → Server A → Bool × ℕ × Server A
  unfolding control fetch_control_reply
  perform_control direction cmd s =
      let (supported, g) = control usb cmd.setup s.rx_buffer cmd.transfer_buffer_length s.gadget in
      if direction == 1
      then (let (answered, reply, dev') = fetch_control_reply cmd.transfer_buffer_length g.dev in
          (
            not supported || (ltb 0 cmd.transfer_buffer_length && not answered),
            length reply,
            record s { gadget = record g { dev = dev' }; tx_buffer = write_at 0 reply s.tx_buffer },
          ))
      else (not supported, 0, record s { gadget = g })

  -- Endpoint 0, a control transfer.
  unfoldable pub process_control : ℕ → ℕ → CmdSubmit → Step A
  unfolding perform_control transmit_ret_submit
  process_control seqnum direction cmd s =
      let (stalled, tx_length, s') = perform_control direction cmd s in
      if stalled
      then transmit_ret_submit seqnum ep_stall 0 false s'
      else if direction == 0
      then transmit_ret_submit seqnum 0 cmd.transfer_buffer_length false s'
      else transmit_ret_submit seqnum 0 tx_length true s'

  -- An OUT transfer to a bulk or interrupt endpoint.
  unfoldable pub process_out : ℕ → ℕ → ℕ → Step A
  unfolding receive transmit_ret_submit
  process_out seqnum ep transfer_buffer_length s =
      transmit_ret_submit seqnum 0 transfer_buffer_length false (
        if ltb 0 transfer_buffer_length
        then record s { gadget = receive usb ep (take transfer_buffer_length s.rx_buffer) s.gadget }
        else s)

  -- An IN transfer from a bulk or interrupt endpoint waits for the device's data.
  unfoldable pub process_in : ℕ → ℕ → ℕ → ℕ → Step A
  unfolding in_urb transmit_ret_submit
  process_in seqnum ep direction transfer_buffer_length s =
      if length s.pending_urbs == max_pending_urbs then transmit_ret_submit seqnum 0 0 true s else (
        true,
        record s {
          pending_urbs = s.pending_urbs ++ in_urb seqnum ep direction transfer_buffer_length ∷ [];
        },
      )

  -- The command is read and in range, and so is the data of an OUT transfer.
  unfoldable pub dispatch_submit : ℕ → ℕ → ℕ → ℕ → CmdSubmit → Step A
  unfolding process_iso_submit process_control process_out process_in
  dispatch_submit now seqnum ep direction cmd s =
      if not (ep == 0) && (s.endpoints (slot direction ep)).transfer_type == 1
      then process_iso_submit now seqnum ep direction cmd s
      else if ep == 0
      then process_control seqnum direction cmd s
      else if direction == 0
      then process_out seqnum ep cmd.transfer_buffer_length s
      else process_in seqnum ep direction cmd.transfer_buffer_length s

  -- The command is read: its data is, for an OUT transfer, and it is dispatched.
  unfoldable pub accept_submit : ℕ → ℕ → ℕ → ℕ → CmdSubmit → Step A
  unfolding read_rx_buffer dispatch_submit
  accept_submit now seqnum ep direction cmd s =
      if ltb usbip_max_packet_size cmd.transfer_buffer_length
      then (false, s)
      else if direction == 0
      then (let r = read_rx_buffer cmd.transfer_buffer_length s in
          if r.0 then dispatch_submit now seqnum ep direction cmd r.1 else (false, r.1))
      else dispatch_submit now seqnum ep direction cmd s

  -- `process_submit`
  unfoldable pub process_submit : ℕ → ℕ → ℕ → ℕ → Step A
  unfolding read read_cmd_submit accept_submit
  process_submit now seqnum ep direction s =
      let (status, bytes, s') = read 28 s in
      if status
      then accept_submit now seqnum ep direction (read_cmd_submit bytes) s'
      else (false, s')
