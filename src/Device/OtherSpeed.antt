-- ===== src/Device/OtherSpeed.antt =====
-- `build_other_speed_config` of src/lib/usbip_device.c: the configuration as a full speed host sees it.
pub mod Adapted
use usbip_server.Prelude.{
  ℕ, ◌+◌, ◌-◌, ◌/◌, ◌^◌, Bool, ◌&&◌, ◌||◌, List, ltb, leb, ◌==◌, if◌then◌else◌, set, take, low_bits,
  byte, le16,
}
use usbip_server.Prelude.Loop.{while}

abbrev pub full_speed_max_packet_size : ℕ
full_speed_max_packet_size = 64

abbrev pub full_speed_max_iso_packet_size : ℕ
full_speed_max_iso_packet_size = 1023

-- `desc[6]` of an interrupt endpoint at full speed, in ms: high speed has 2^(bInterval - 1) * 125 us.
unfoldable pub interrupt_interval : ℕ → ℕ
interrupt_interval interval =
    let exponent = if ltb 16 interval then 16 else interval in
    let interval_ms = 2 ^ (exponent - 1) / 8 in
    if ltb interval_ms 1 then 1 else if ltb 255 interval_ms then 255 else interval_ms

-- The branch for bulk and interrupt endpoints, on the descriptor at `idx`.
unfoldable pub adapt_packet_size : ℕ → List ℕ → List ℕ
adapt_packet_size idx buffer =
    if ltb full_speed_max_packet_size (le16 buffer (idx + 4))
    then set (set buffer (idx + 4) full_speed_max_packet_size) (idx + 5) 0
    else buffer

unfoldable pub adapt_interval : ℕ → List ℕ → List ℕ
unfolding interrupt_interval
adapt_interval idx buffer =
    if low_bits (byte buffer (idx + 3)) 2 == 3 && ltb 0 (byte buffer (idx + 6))
    then set buffer (idx + 6) (interrupt_interval (byte buffer (idx + 6)))
    else buffer

-- The branch for isochronous endpoints.
unfoldable pub adapt_isochronous : ℕ → List ℕ → List ℕ
adapt_isochronous idx buffer =
    let high_speed_size = low_bits (le16 buffer (idx + 4)) 11 in
    let max_packet_size =
      if ltb full_speed_max_iso_packet_size high_speed_size
      then full_speed_max_iso_packet_size
      else high_speed_size in
    let sized =
      set (set buffer (idx + 4) (low_bits max_packet_size 8)) (idx + 5) (max_packet_size / 256) in
    set sized (idx + 6) (if ltb 3 (byte sized (idx + 6)) then byte sized (idx + 6) - 3 else 1)

-- One descriptor of the buffer.
unfoldable pub adapt_descriptor : ℕ → List ℕ → List ℕ
unfolding adapt_packet_size adapt_interval adapt_isochronous
adapt_descriptor idx buffer =
    let transfer_type = low_bits (byte buffer (idx + 3)) 2 in
    if byte buffer (idx + 1) == 5 && (transfer_type == 2 || transfer_type == 3)
    then adapt_interval idx (adapt_packet_size idx buffer)
    else if byte buffer (idx + 1) == 5 && transfer_type == 1
    then adapt_isochronous idx buffer
    else buffer

-- The loop's variables.
pub record Walk : Type 0 where
  pub idx : ℕ
  pub buffer : List ℕ

unfoldable pub more : ℕ → Walk → Bool
more total_length w = leb (w.idx + 7) total_length && ltb 0 (byte w.buffer w.idx)

unfoldable pub adapt_next : Walk → Walk
unfolding adapt_descriptor
adapt_next w =
    let buffer' = adapt_descriptor w.idx w.buffer in
    record { idx = w.idx + byte buffer' w.idx; buffer = buffer' }

-- The length that `memcpy` copies: the configuration's, cut to the buffer's.
unfoldable pub copied_length : List ℕ → ℕ → ℕ
copied_length config_desc buffer_length =
    if ltb buffer_length (le16 config_desc 2) then buffer_length else le16 config_desc 2

-- The descriptor that is built, `total_length` bytes long. `buffer[1]` becomes
-- USB_DESCRIPTOR_TYPE_OTHER_SPEED_CONFIGURATION.
unfoldable pub build_other_speed_config : List ℕ → ℕ → List ℕ
unfolding while more adapt_next copied_length
build_other_speed_config config_desc buffer_length =
    let total_length = copied_length config_desc buffer_length in
    (while (total_length + 1) (more total_length) adapt_next
      (record { idx = 0; buffer = set (take total_length config_desc) 1 7 })).buffer
