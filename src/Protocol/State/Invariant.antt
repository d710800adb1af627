-- ===== src/Protocol/State/Invariant.antt =====
-- The invariant of the protocol's state, and which steps touch the connection alone.
use usbip_server.Prelude.{
  ℕ, ◌+◌, ◌≤◌, ◌<◌, ◌≡◌, ◌≢◌, refl, ap, ◌∙◌, Bool, true, false, List, [], ◌∷◌, ◌++◌, arith,
  if◌then◌else◌, Bool-cases, inl, inr, length, All, length-append, length-take, length-write_at,
  take,
}
use usbip_server.Device.Buffers.Capacity.{Fits}
use usbip_server.Protocol.Conn
use usbip_server.Protocol.State.{
  PendingUrb, IsoPacket, Server, Step, ◌>>◌, usbip_max_packet_size, max_pending_urbs,
  max_iso_packets, wait_timeout_default, write, write_tx_buffer, read, read_rx_buffer,
}

-- A packet lies within a transfer buffer of this length.
abbrev pub PacketFits : ℕ → IsoPacket → Type 0
PacketFits len p = p.offset + p.length ≤ len

-- What the server relies on when it completes a pending transfer.
pub record UrbIsValid (urb : PendingUrb) : Type 0 where
  pub buffer_fits : urb.transfer_buffer_length ≤ usbip_max_packet_size
  pub packets_count : length urb.packets ≡ urb.number_of_packets
  pub packets_fit : urb.number_of_packets ≤ max_iso_packets
  pub packets_inside : All (PacketFits urb.transfer_buffer_length) urb.packets
  pub only_in_waits : urb.isochronous ≡ false → urb.direction ≢ 0

abbrev pub UrbsValid : List PendingUrb → Type 0
UrbsValid urbs = (length urbs ≤ max_pending_urbs) × All UrbIsValid urbs

-- The time to wait for the next event: never 0, never longer than WAIT_TIMEOUT_US.
abbrev pub TimeoutValid : ℕ → Type 0
TimeoutValid t = (0 < t) × (t ≤ wait_timeout_default)

-- `pending_urbs` and both transfer buffers keep within their arrays, and the device's buffers within
-- theirs. A write past the end of a transfer buffer would make its list longer.
abbrev pub IsValid : {A : Type 0} → Server A → Type 0
IsValid s =
    UrbsValid s.pending_urbs
    × TimeoutValid s.wait_timeout_us
    × (length s.rx_buffer ≡ usbip_max_packet_size)
    × (length s.tx_buffer ≡ usbip_max_packet_size)
    × Fits s.gadget.dev

module _ {A : Type 0} where
  -- `m` changes the connection and nothing else.
  abbrev pub ConnOnly : Step A → Type 0
  ConnOnly m = (s : Server A) → (m s).1 ≡ record s { conn = (m s).1.conn }

  pub write-ConnOnly : (bytes : List ℕ) → ConnOnly (write bytes)
  unfolding write
  write-ConnOnly bytes s = refl

  pub write_tx_buffer-ConnOnly : (n : ℕ) → ConnOnly (write_tx_buffer n)
  unfolding write_tx_buffer
  write_tx_buffer-ConnOnly n s = refl

  pub >>-ConnOnly : (m k : Step A) → ConnOnly m → ConnOnly k → ConnOnly (m >> k)
  >>-ConnOnly m k hm hk s = elim (Bool-cases (m s).0) [
    | inl ok ↦
        rw ok (hk (m s).1 ∙ ap (λ (x : Server A). record x { conn = (k (m s).1).1.conn }) (hm s))
    | inr failed ↦ rw failed (hm s)
  ]

  pub if-ConnOnly :
      (b : Bool) (m k : Step A) → ConnOnly m → ConnOnly k → ConnOnly (if b then m else k)
  if-ConnOnly true m k hm hk = hm
  if-ConnOnly false m k hm hk = hk

  -- The invariant does not speak of the connection.
  pub ConnOnly-IsValid : (m : Step A) → ConnOnly m → (s : Server A) → IsValid s → IsValid (m s).1
  ConnOnly-IsValid m h s v = rw (h s) v

  pub read-IsValid : (n : ℕ) (s : Server A) → IsValid s → IsValid (read n s).2
  unfolding read
  read-IsValid n s v = v

  -- `tcpip_server_read(rx_buffer, size)` stays within `rx_buffer`.
  pub read_rx_buffer-IsValid :
      (n : ℕ) (s : Server A)
      → n ≤ usbip_max_packet_size
      → IsValid s
      → IsValid (read_rx_buffer n s).1
  unfolding read_rx_buffer read Conn.read
  read_rx_buffer-IsValid n s h v = (
    v.0,
    v.1,
    omega (arith, v.2, length-write_at 0 bytes s.rx_buffer, length-take n s.conn.input),
    v.3,
    v.4,
  )
    where
      bytes : List ℕ
      bytes = take n s.conn.input

pub UrbsValid-append :
    (urbs : List PendingUrb) (urb : PendingUrb)
    → UrbsValid urbs
    → length urbs ≢ max_pending_urbs
    → UrbIsValid urb
    → UrbsValid (urbs ++ urb ∷ [])
UrbsValid-append urbs urb v room h =
    (omega (arith, v.0, length-append urbs (urb ∷ [])), all urbs v.1)
  where
    all : (us : List PendingUrb) → All UrbIsValid us → All UrbIsValid (us ++ urb ∷ [])
    all [] a = (h, tt)
    all (u ∷ us) a = (a.0, all us a.1)
