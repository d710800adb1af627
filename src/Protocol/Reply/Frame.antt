-- ===== src/Protocol/Reply/Frame.antt =====
-- What a reply leaves alone: it changes the connection, and an isochronous one the device and `tx_buffer`.
use usbip_server.Prelude.{
  ℕ, ◌+◌, ◌≡◌, refl, sym, ◌∙◌, ap, List, [], ◌∷◌, ◌==◌, Bool-cases, inl, inr, if_elim,
}
use usbip_server.Device.Api.{UsbDevice}
use usbip_server.Device.Buffers.{DeviceState}
use usbip_server.Device.Control.Preserve.{KeptByTransmit, iso_in-keeps}
use usbip_server.Protocol.State.{IsoPacket, PendingUrb, Server, Step}
use usbip_server.Protocol.State.Invariant.{ConnOnly}
use usbip_server.Protocol.Reply.Bounds.{write_iso_reply-ConnOnly}
use usbip_server.Protocol.Reply.{
  packet_room, packet_data, collect_packets, write_iso_reply, transmit_iso_ret_submit,
}

module _ {A : Type 0} where
  -- `t` differs from `s` in the connection, the device and `tx_buffer` alone.
  abbrev pub Serves : Server A → Server A → Type 0
  Serves s t = t ≡ record s { conn = t.conn; gadget = t.gadget; tx_buffer = t.tx_buffer }

  Serves-trans : (s t u : Server A) → Serves s t → Serves t u → Serves s u
  Serves-trans s t u e f =
      f
      ∙ ap
          (λ (x : Server A). record x { conn = u.conn; gadget = u.gadget; tx_buffer = u.tx_buffer })
          e

  pub ConnOnly-Serves : (m : Step A) → ConnOnly m → (s : Server A) → Serves s (m s).1
  ConnOnly-Serves m h s = h s ∙ λ i. record s {
    conn = (m s).1.conn;
    gadget = (sym (h s) i).gadget;
    tx_buffer = (sym (h s) i).tx_buffer;
  }

module _ {A : Type 0} (usb : UsbDevice A) where
  packet_data-Serves :
      (urb : PendingUrb) (p : IsoPacket) (total : ℕ) (s : Server A)
      → Serves s (packet_data usb urb p total s).1
  unfolding packet_data
  packet_data-Serves urb p total s = elim (Bool-cases (urb.direction == 0)) [
    | inl out ↦ rw out
    | inr in_ ↦ rw in_
  ]

  collect_packets-Serves :
      (urb : PendingUrb) (packets : List IsoPacket) (total : ℕ) (s : Server A)
      → Serves s (collect_packets usb urb packets total s).2
  unfolding collect_packets
  collect_packets-Serves urb [] total s = refl
  collect_packets-Serves urb (p ∷ packets) total s =
      let (n, s') = packet_data usb urb p total s in
      Serves-trans s s' (collect_packets usb urb packets (total + n) s').2
        (packet_data-Serves urb p total s) (collect_packets-Serves urb packets (total + n) s')

  pub transmit_iso_ret_submit-Serves :
      (urb : PendingUrb) (s : Server A) → Serves s (transmit_iso_ret_submit usb urb s).1
  unfolding transmit_iso_ret_submit
  transmit_iso_ret_submit-Serves urb s =
      let (total, ds, s') = collect_packets usb urb urb.packets 0 s in
      let written = (write_iso_reply usb urb total ds s').1 in
      Serves-trans s s' written (collect_packets-Serves urb urb.packets 0 s) (
        ConnOnly-Serves (write_iso_reply usb urb total ds)
          (write_iso_reply-ConnOnly usb urb total ds) s')

  -- What every transmit of the device's callbacks keeps, an isochronous reply keeps.
  module _ (P : DeviceState → Type 0) (k : KeptByTransmit P) where
    packet_data-keeps :
        (urb : PendingUrb) (p : IsoPacket) (total : ℕ) (s : Server A)
        → P s.gadget.dev
        → P (packet_data usb urb p total s).1.gadget.dev
    unfolding packet_data
    packet_data-keeps urb p total s h =
        if_elim {A = ℕ × Server A} (λ r. P r.1.gadget.dev) (urb.direction == 0) h
          (iso_in-keeps P k usb urb.ep (packet_room urb p total) s.gadget h)

    collect_packets-keeps :
        (urb : PendingUrb) (packets : List IsoPacket) (total : ℕ) (s : Server A)
        → P s.gadget.dev
        → P (collect_packets usb urb packets total s).2.gadget.dev
    unfolding collect_packets
    collect_packets-keeps urb [] total s h = h
    collect_packets-keeps urb (p ∷ packets) total s h =
        let (n, s') = packet_data usb urb p total s in
        collect_packets-keeps urb packets (total + n) s' (packet_data-keeps urb p total s h)

    pub transmit_iso_ret_submit-keeps :
        (urb : PendingUrb) (s : Server A)
        → P s.gadget.dev
        → P (transmit_iso_ret_submit usb urb s).1.gadget.dev
    unfolding transmit_iso_ret_submit
    transmit_iso_ret_submit-keeps urb s h =
        let (total, ds, s') = collect_packets usb urb urb.packets 0 s in
        rw (write_iso_reply-ConnOnly usb urb total ds s')
          (collect_packets-keeps urb urb.packets 0 s h)
