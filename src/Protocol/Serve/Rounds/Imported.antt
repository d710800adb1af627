-- ===== src/Protocol/Serve/Rounds/Imported.antt =====
-- The rounds of `usbip_protocol_process_imported_device` of src/lib/usbip_protocol.c.
use usbip_server.Prelude.{ℕ, ◌≡◌, Bool, true, false, List, ◌++◌, if◌then◌else◌}
use usbip_server.Device.Api.{UsbDevice}
use usbip_server.Device.Buffers.{clear_event}
use usbip_server.Protocol.State.{Server}
use usbip_server.Protocol.Complete.Answers.{Answers}
use usbip_server.Protocol.Serve.{lose_connection}
use usbip_server.Protocol.Serve.Rounds.{Exchange}

module _ {A : Type 0} (usb : UsbDevice A) where
  -- The event is cleared before the device's data is looked for.
  abbrev cleared : Server A → Server A
  cleared s = let g = s.gadget in record s { gadget = record g { dev = clear_event g.dev } }

  -- What a round that goes on did.
  abbrev Does : ℕ → Server A → Bool × Server A → Type 0
  Does now s r =
      r.0 ≡ false
      → (out : List ℕ) × Exchange now s.endpoints s.conn.input r.1.conn.input s.pending_urbs
          r.1.pending_urbs out
        × (r.1.conn.output ≡ s.conn.output ++ out)

  -- The end of a round: the pass, and the connection is lost if it fails.
  abbrev ending : Bool × Server A → Bool × Server A
  ending r = if r.0 then (false, r.1) else (true, lose_connection usb r.1)
