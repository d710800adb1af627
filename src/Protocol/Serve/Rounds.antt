-- ===== src/Protocol/Serve/Rounds.antt =====
-- What the client is told in a session, abstractly: how `usbip_protocol_process_imported_device` of
-- src/lib/usbip_protocol.c takes commands from the client, and answers transfers.
pub mod Input
pub mod Commands
pub mod Pass
pub mod Imported
use usbip_server.Prelude.{
  ℕ, ◌+◌, ◌*◌, ◌≡◌, ◌≢◌, Bool, not, ◌&&◌, List, [], ◌∷◌, ◌++◌, ◌==◌, if◌then◌else◌, take, drop,
  length,
}
use usbip_server.Protocol.Messages.{
  HeaderBasic, CmdSubmit, read_header_basic, read_cmd_submit, read_unlink_seqnum, ret_unlink_bytes,
}
use usbip_server.Protocol.State.{Endpoint, PendingUrb, slot, max_pending_urbs}
use usbip_server.Protocol.Reply.{reply_header, urb_unlinked}
use usbip_server.Protocol.Reply.Bytes.{ret_submit_reply}
use usbip_server.Protocol.Reply.Iso.{IsoAnswer}
use usbip_server.Protocol.Submit.Outcome.{Transfer, submitted, transfer_of, Told}
use usbip_server.Protocol.Unlink.Removal.{Absent}
use usbip_server.Protocol.Complete.Answers.{Answers}

-- The header of the command that comes next, and what follows it.
abbrev pub header : List ℕ → HeaderBasic
header input = read_header_basic (take 20 input)

abbrev pub submit : List ℕ → CmdSubmit
submit input = read_cmd_submit (take 28 (drop 20 input))

abbrev pub transfer : List ℕ → Transfer
transfer input =
    submitted (header input).seqnum (header input).ep (header input).direction (submit input)

abbrev pub unlinked_seqnum : List ℕ → ℕ
unlinked_seqnum input = read_unlink_seqnum (take 28 (drop 20 input))

-- The bytes behind a transfer's command: the data of an OUT transfer, and 16 bytes for each packet of an
-- isochronous one, as the table of the endpoints says.
abbrev pub data_length : ℕ → CmdSubmit → ℕ
data_length direction cmd = if direction == 0 then cmd.transfer_buffer_length else 0

abbrev pub packets_length : (ℕ → Endpoint) → ℕ → ℕ → CmdSubmit → ℕ
packets_length endpoints ep direction cmd =
    if not (ep == 0) && (endpoints (slot direction ep)).transfer_type == 1
    then cmd.number_of_packets * 16
    else 0

-- What is left of `input`, from the first byte behind the header, when a transfer is taken.
abbrev pub behind_submit : (ℕ → Endpoint) → ℕ → ℕ → List ℕ → List ℕ
behind_submit endpoints ep direction input =
    let cmd = read_cmd_submit (take 28 input) in
    drop (packets_length endpoints ep direction cmd)
      (drop (data_length direction cmd) (drop 28 input))

-- `Submitted t urbs urbs' out`: the transfer changes the pending ones and sends `out`. It is answered at once,
-- or it waits behind the others.
pub data Submitted (t : Transfer) : List PendingUrb → List PendingUrb → List ℕ → Type 0 where
  replied :
      {urbs : List PendingUrb} {status actual_length : ℕ} {bytes : List ℕ}
      → Told t urbs status actual_length bytes
      → Submitted t urbs urbs (ret_submit_reply t.seqnum status actual_length bytes)
  completed :
      {urbs : List PendingUrb} {reply : List ℕ} (urb : PendingUrb)
      → transfer_of urb ≡ t
      → length urbs ≡ max_pending_urbs
      → IsoAnswer urb reply
      → Submitted t urbs urbs reply
  queued :
      {urbs : List PendingUrb} (urb : PendingUrb)
      → transfer_of urb ≡ t
      → Submitted t urbs (urbs ++ urb ∷ []) []

-- The first transfer of this number is taken away and reported, under the number of the command, or it
-- is too late.
pub data Unlinked (seqnum number : ℕ) : List PendingUrb → List PendingUrb → List ℕ → Type 0 where
  cancelled :
      (before behind : List PendingUrb) (urb : PendingUrb)
      → Absent number before
      → urb.seqnum ≡ number
      → Unlinked seqnum number
          (before ++ urb ∷ behind)
          (before ++ behind)
          (reply_header 4 seqnum ++ ret_unlink_bytes urb_unlinked)
  too_late :
      {urbs : List PendingUrb}
      → Absent number urbs
      → Unlinked seqnum number urbs urbs (reply_header 4 seqnum ++ ret_unlink_bytes 0)

-- `Command endpoints input input' urbs urbs' out`: the one command at the start of `input` is taken, which
-- leaves `input'`.
pub data Command (endpoints : ℕ → Endpoint) (input : List ℕ)
    : List ℕ → List PendingUrb → List PendingUrb → List ℕ → Type 0 where
  submits :
      {urbs urbs' : List PendingUrb} {out : List ℕ}
      → (header input).command ≡ 1
      → Submitted (transfer input) urbs urbs' out
      → Command endpoints input
          (behind_submit endpoints (header input).ep (header input).direction (drop 20 input))
          urbs
          urbs'
          out
  unlinks :
      {urbs urbs' : List PendingUrb} {out : List ℕ}
      → (header input).command ≡ 2
      → Unlinked (header input).seqnum (unlinked_seqnum input) urbs urbs' out
      → Command endpoints input (drop 28 (drop 20 input)) urbs urbs' out

-- A round at the time `now`: perhaps a command, and then transfers that are due are answered.
pub data Exchange (now : ℕ) (endpoints : ℕ → Endpoint) (input : List ℕ)
    : List ℕ → List PendingUrb → List PendingUrb → List ℕ → Type 0 where
  quiet :
      {urbs left : List PendingUrb} {out : List ℕ}
      → Answers now urbs left out
      → Exchange now endpoints input input urbs left out
  commanded :
      {input' : List ℕ} {urbs urbs' left : List PendingUrb} {out out' : List ℕ}
      → Command endpoints input input' urbs urbs' out
      → Answers now urbs' left out'
      → Exchange now endpoints input input' urbs left (out ++ out')
