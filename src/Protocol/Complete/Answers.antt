-- ===== src/Protocol/Complete/Answers.antt =====
-- What a pass of `complete_pending_urbs` of src/lib/usbip_protocol.c sends.
pub mod Progress
pub mod Whole
use usbip_server.Prelude.{
  ℕ, zero, suc, ◌+◌, ◌-◌, ◌≤◌, ◌<◌, ◌≡◌, ◌⊎◌, inl, inr, refl, sym, ap, ◌∙◌, Bool, true, false,
  Option, none, some, List, [], ◌∷◌, ◌++◌, arith, ltb, ltb→lt, ltb→ge, leb→le, if_split, is_empty,
  length, take, take_all, write_at, take-write_at, u64_mod, append_assoc, append-nil, length-append,
  ◌%◌, if◌then◌else◌,
}
use mathlib.Core.Option.{some-injective}
use usbip_server.Prelude.Loop.{while, while_inv}
use usbip_server.Device.Api.{UsbDevice}
use usbip_server.Device.Buffers.{DeviceState, fetch_ep_data}
use usbip_server.Protocol.Conn
use usbip_server.Protocol.State.{
  Endpoint, PendingUrb, Server, wait_timeout_default, slot, set_endpoint, write,
}
use usbip_server.Protocol.State.Invariant.{UrbIsValid, IsValid}
use usbip_server.Protocol.Reply.{transmit_ret_submit, transmit_iso_ret_submit}
use usbip_server.Protocol.Reply.Bytes.{ret_submit_reply, transmit_ret_submit_lem}
use usbip_server.Protocol.Reply.Iso.{IsoAnswer}
use usbip_server.Protocol.Reply.Iso.Sent.{transmit_iso_ret_submit_lem}
use usbip_server.Protocol.Reply.Frame.{transmit_iso_ret_submit-Serves}
use usbip_server.Protocol.Unlink.{remove_pending_urb}
use usbip_server.Protocol.Complete.{
  Pass, get_urb, due_us, more, skip_urb, poll_urb, finish_iso, complete_urb, complete_next,
  complete_pending_urbs,
}
use usbip_server.Protocol.Complete.Safety.{
  get_urb-lt, get_urb-All, more-lt, remaining, length-fetch-le, ret_submit-pending,
  complete_next-some, complete_next-falls, complete_next-IsValid,
}

-- The reply to a pending transfer at the time `now`. To an isochronous one when its time has come, to
-- another with data that its buffer has room for.
abbrev pub Answer : ℕ → PendingUrb → List ℕ → Type 0
Answer now urb reply =
    (urb.isochronous ≡ true) × (urb.complete_us ≤ now) × IsoAnswer urb reply
    ⊎ (urb.isochronous ≡ false)
      × (bytes : List ℕ) × (0 < length bytes)
      × (length bytes ≤ urb.transfer_buffer_length)
      × (reply ≡ ret_submit_reply urb.seqnum 0 (length bytes) bytes)

-- `Answers now urbs left out`: each of the transfers is answered once in `out`, or is among those that
-- are left. Both are in the order of the transfers.
pub data Answers (now : ℕ) : List PendingUrb → List PendingUrb → List ℕ → Type 0 where
  no_urbs : Answers now [] [] []
  left_pending :
      {urbs left : List PendingUrb} {out : List ℕ} (urb : PendingUrb)
      → Answers now urbs left out
      → Answers now (urbs ++ urb ∷ []) (left ++ urb ∷ []) out
  answered :
      {urbs left : List PendingUrb} {out reply : List ℕ} (urb : PendingUrb)
      → Answers now urbs left out
      → Answer now urb reply
      → Answers now (urbs ++ urb ∷ []) left (out ++ reply)
