-- ===== src/Protocol/Unlink/Answer.antt =====
-- The reply of `process_unlink` of src/lib/usbip_protocol.c.
use usbip_server.Prelude.{ℕ, ◌≡◌, ◌++◌, length, take, drop, le→leb, ◌≤◌}
use usbip_server.Protocol.Conn
use usbip_server.Protocol.Messages.{read_unlink_seqnum, ret_unlink_bytes}
use usbip_server.Protocol.State.{Server, read, write}
use usbip_server.Protocol.Reply.{reply_header}
use usbip_server.Protocol.Reply.Bytes.{write-write}
use usbip_server.Protocol.Unlink.{unlink, process_unlink}

module _ {A : Type 0} where
  -- The 28 bytes of USBIP_CMD_UNLINK behind the header are taken.
  abbrev pub taken : Server A → Server A
  taken s = record s { conn = record (s.conn) { input = drop 28 s.conn.input } }

  -- A whole USBIP_CMD_UNLINK is answered under its own number with the status of unlinking the number it
  -- names, written as one message.
  pub process_unlink_lem :
      (seqnum : ℕ) (s : Server A)
      → 28 ≤ length s.conn.input
      → let (status, s') = unlink (read_unlink_seqnum (take 28 s.conn.input)) (taken s) in
        process_unlink seqnum s ≡ write (reply_header 4 seqnum ++ ret_unlink_bytes status) s'
  unfolding process_unlink read Conn.read
  process_unlink_lem seqnum s h =
      rw (le→leb 28 (length s.conn.input) h)
        (write-write (reply_header 4 seqnum) (ret_unlink_bytes _) _)
