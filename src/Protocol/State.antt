-- ===== src/Protocol/State.antt =====
-- The state of src/lib/usbip_protocol.c, together with the device's and the connection's.
pub mod Invariant
use usbip_server.Prelude.{
  ℕ, ◌+◌, ◌*◌, Bool, false, List, ◌==◌, if◌then◌else◌, take, write_at, low_bits,
}
use usbip_server.Device.Control.{Gadget}
use usbip_server.Protocol.Conn
use usbip_server.Protocol.Conn.{Conn}

-- USBIP_MAX_PACKET_SIZE, MAX_PENDING_URBS, MAX_ISO_PACKETS and WAIT_TIMEOUT_US
abbrev pub usbip_max_packet_size : ℕ
usbip_max_packet_size = 64 * 1024

abbrev pub max_pending_urbs : ℕ
max_pending_urbs = 32

abbrev pub max_iso_packets : ℕ
max_iso_packets = 128

abbrev pub wait_timeout_default : ℕ
wait_timeout_default = 500000

-- `endpoint_t`; `transfer_type` is its `type`.
pub record Endpoint : Type 0 where
  pub transfer_type : ℕ
  pub interval_us : ℕ
  pub next_poll_us : ℕ
  pub stream_end_us : ℕ

-- `iso_packet_t`
pub record IsoPacket : Type 0 where
  pub offset : ℕ
  pub length : ℕ

-- `pending_urb_t`; `packets` is the first `number_of_packets` entries of its array.
pub record PendingUrb : Type 0 where
  pub seqnum : ℕ
  pub ep : ℕ
  pub direction : ℕ
  pub transfer_buffer_length : ℕ
  pub isochronous : Bool
  pub start_frame : ℕ
  pub number_of_packets : ℕ
  pub complete_us : ℕ
  pub packets : List IsoPacket

-- The static variables. `endpoints` goes by `slot`; `pending_urbs` is the first `num_pending_urbs`
-- entries of its array.
pub record Server (A : Type 0) : Type 0 where
  pub conn : Conn
  pub gadget : Gadget A
  pub device_imported : Bool
  pub pending_urbs : List PendingUrb
  pub endpoints : ℕ → Endpoint
  pub wait_timeout_us : ℕ
  pub rx_buffer : List ℕ
  pub tx_buffer : List ℕ

-- `endpoints[(direction != 0) ? 1 : 0][ep & USB_ENDPOINT_NUMBER_MASK]`
abbrev pub slot : ℕ → ℕ → ℕ
slot direction ep = (if direction == 0 then 0 else 16) + low_bits ep 4

abbrev pub set_endpoint : (ℕ → Endpoint) → ℕ → Endpoint → ℕ → Endpoint
set_endpoint endpoints i e j = if j == i then e else endpoints j

-- A call that returns `status`, and a sequence of such calls that stops at the first failure.
abbrev pub Step : Type 0 → Type 0
Step A = Server A → Bool × Server A

infixr 5 ◌>>◌
abbrev pub ◌>>◌ : {A : Type 0} → Step A → Step A → Step A
◌>>◌ m k s = let r = m s in if r.0 then k r.1 else (false, r.1)

module _ {A : Type 0} where
  -- `tcpip_server_write`
  unfoldable pub write : List ℕ → Step A
  unfolding Conn.write
  write bytes s = let r = Conn.write bytes s.conn in (r.0, record s { conn = r.1 })

  -- `tcpip_server_write(tx_buffer, size)`
  unfoldable pub write_tx_buffer : ℕ → Step A
  unfolding write
  write_tx_buffer size s = write (take size s.tx_buffer) s

  -- `tcpip_server_read` into a local struct
  unfoldable pub read : ℕ → Server A → Bool × List ℕ × Server A
  unfolding Conn.read
  read size s =
      let (status, bytes, c) = Conn.read size s.conn in (status, bytes, record s { conn = c })

  -- `tcpip_server_read(rx_buffer, size)`
  unfoldable pub read_rx_buffer : ℕ → Step A
  unfolding read
  read_rx_buffer size s =
      let (status, bytes, s') = read size s in
      (status, record s' { rx_buffer = write_at 0 bytes s.rx_buffer })
