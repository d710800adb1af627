-- ===== src/Protocol/Endpoints.antt =====
-- `load_endpoints` of src/lib/usbip_protocol.c: transfer types and service intervals, read from the
-- endpoint descriptors of the configuration.
pub mod Loading
pub mod Described
use usbip_server.Prelude.{
  ℕ, ◌+◌, ◌-◌, ◌*◌, ◌^◌, Bool, ◌&&◌, ◌||◌, List, ltb, leb, ◌==◌, if◌then◌else◌, low_bits, bit, byte,
  le16,
}
use usbip_server.Prelude.Loop.{while}
use usbip_server.Protocol.State.{Endpoint, slot, set_endpoint}

abbrev pub no_endpoint : Endpoint
no_endpoint = record { transfer_type = 0; interval_us = 0; next_poll_us = 0; stream_end_us = 0 }

-- The interval of a `bInterval`, at high speed.
unfoldable pub service_interval : ℕ → ℕ
service_interval b_interval =
    let exponent = if ltb 16 b_interval then 16 else b_interval in 125 * 2 ^ (exponent - 1)

-- An endpoint descriptor at `idx`. USB_ENDPOINT_XFER_ISOC is 1 and USB_ENDPOINT_XFER_INT is 3.
unfoldable pub load_endpoint : List ℕ → ℕ → (ℕ → Endpoint) → ℕ → Endpoint
unfolding service_interval
load_endpoint config_desc idx endpoints =
    let in_ = bit (byte config_desc (idx + 2)) 7 in
    let i = slot in_ (byte config_desc (idx + 2)) in
    let transfer_type' = low_bits (byte config_desc (idx + 3)) 2 in
    let b_interval = byte config_desc (idx + 6) in
    let old = endpoints i in
    set_endpoint endpoints i (record old {
      transfer_type = transfer_type';
      interval_us =
          if (transfer_type' == 1 || (in_ == 1 && transfer_type' == 3)) && ltb 0 b_interval
          then service_interval b_interval
          else old.interval_us;
    })

-- The loop's variables.
pub record Walk : Type 0 where
  pub idx : ℕ
  pub endpoints : ℕ → Endpoint

unfoldable pub more : List ℕ → Walk → Bool
more config_desc w = leb (w.idx + 7) (le16 config_desc 2) && ltb 0 (byte config_desc w.idx)

unfoldable pub load_next : List ℕ → Walk → Walk
unfolding load_endpoint
load_next config_desc w = record {
  idx = w.idx + byte config_desc w.idx;
  endpoints =
      if byte config_desc (w.idx + 1) == 5
      then load_endpoint config_desc w.idx w.endpoints
      else w.endpoints;
}

unfoldable pub load_endpoints : List ℕ → ℕ → Endpoint
unfolding while more load_next
load_endpoints config_desc =
    (while (le16 config_desc 2 + 1) (more config_desc) (load_next config_desc)
      (record { idx = 0; endpoints = λ i. no_endpoint })).endpoints
