-- ===== src/Audio.antt =====
-- The microphone example device, src/usb_audio_input: its descriptors and its callbacks. The tone itself
-- is computed with floating point numbers and is a parameter.
pub mod Packets
mod Tests
use usbip_server.Prelude.{
  ℕ, zero, suc, ◌+◌, ◌*◌, ◌/◌, ◌%◌, ◌&&◌, not, none, some, List, [], ◌∷◌, ◌++◌, ◌==◌, ltb,
  if◌then◌else◌, byte,
}
use usbip_server.Device.Api.{Action, done, transmit, UsbString, UsbDevice}
use usbip_server.Protocol.Messages.{codes}

-- AUDIO_SAMPLES_PER_PACKET, AUDIO_BYTES_PER_SAMPLE, PULSE_LENGTH_SAMPLES and PULSE_PERIOD_SAMPLES
abbrev pub samples_per_packet : ℕ
samples_per_packet = 48

abbrev pub bytes_per_sample : ℕ
bytes_per_sample = 2

abbrev pub pulse_length_samples : ℕ
pulse_length_samples = 19200

abbrev pub pulse_period_samples : ℕ
pulse_period_samples = 48000

-- `usb_device_descriptor`, `usb_audio_configuration`, `langid_desc` and `usb_strings`
abbrev pub device_descriptor : List ℕ
device_descriptor =
    0x12 ∷ 1 ∷ 0 ∷ 2 ∷ 0 ∷ 0 ∷ 0 ∷ 0x40 ∷ 0 ∷ 0xfa ∷ 4 ∷ 0 ∷ 0 ∷ 2 ∷ 1 ∷ 2 ∷ 4 ∷ 1 ∷ []

abbrev pub config_descriptor : List ℕ
config_descriptor =
    (9 ∷ 2 ∷ 0x64 ∷ 0 ∷ 2 ∷ 1 ∷ 0 ∷ 0xc0 ∷ 0x32 ∷ [])
    ++ (9 ∷ 4 ∷ 0 ∷ 0 ∷ 0 ∷ 1 ∷ 1 ∷ 0 ∷ 0 ∷ [])
    ++ (9 ∷ 0x24 ∷ 1 ∷ 0 ∷ 1 ∷ 0x1e ∷ 0 ∷ 1 ∷ 1 ∷ [])
    ++ (0xc ∷ 0x24 ∷ 2 ∷ 1 ∷ 1 ∷ 2 ∷ 0 ∷ 1 ∷ 0 ∷ 0 ∷ 0 ∷ 0 ∷ [])
    ++ (9 ∷ 0x24 ∷ 3 ∷ 2 ∷ 1 ∷ 1 ∷ 0 ∷ 1 ∷ 0 ∷ [])
    ++ (9 ∷ 4 ∷ 1 ∷ 0 ∷ 0 ∷ 1 ∷ 2 ∷ 0 ∷ 0 ∷ [])
    ++ (9 ∷ 4 ∷ 1 ∷ 1 ∷ 1 ∷ 1 ∷ 2 ∷ 0 ∷ 0 ∷ [])
    ++ (7 ∷ 0x24 ∷ 1 ∷ 2 ∷ 1 ∷ 1 ∷ 0 ∷ [])
    ++ (0xb ∷ 0x24 ∷ 2 ∷ 1 ∷ 1 ∷ 2 ∷ 0x10 ∷ 1 ∷ 0x80 ∷ 0xbb ∷ 0 ∷ [])
    ++ (9 ∷ 5 ∷ 0x81 ∷ 5 ∷ 0x60 ∷ 0 ∷ 4 ∷ 0 ∷ 0 ∷ [])
    ++ (7 ∷ 0x25 ∷ 1 ∷ 0 ∷ 0 ∷ 0 ∷ 0 ∷ [])

abbrev pub langid_descriptor : List ℕ
langid_descriptor = 4 ∷ 3 ∷ 9 ∷ 4 ∷ []

abbrev pub strings : List UsbString
strings =
    record { id = 1; string = codes "Virtual UsbIP" }
    ∷ record { id = 2; string = codes "Virtual Audio Input" }
    ∷ record { id = 4; string = codes "ABC123" }
    ∷ record { id = 0; string = [] }
    ∷ []

-- `streaming_alternate`, `sample_index` and `phase`
pub record Stream (Phase : Type 0) : Type 0 where
  pub streaming_alternate : ℕ
  pub sample_index : ℕ
  pub phase : Phase

-- `pulse sample_index phase` is the sample, as `uint16_t`, and the next phase inside the pulse; `still` is
-- the phase 0.
module _ {Phase : Type 0} (pulse : ℕ → Phase → ℕ × Phase) (still : Phase) where
  -- `next_sample`
  unfoldable pub next_sample : Stream Phase → ℕ × Stream Phase
  next_sample s =
      let (sample, phase') =
        if ltb s.sample_index pulse_length_samples
        then pulse s.sample_index s.phase
        else (0, s.phase) in
      (
        sample,
        record s { sample_index = (s.sample_index + 1) % pulse_period_samples; phase = phase' },
      )

  -- The loop of `iso_in_data`, for `n` samples.
  unfoldable pub write_samples : ℕ → Stream Phase → Stream Phase × List ℕ
  unfolding next_sample
  write_samples zero s = (s, [])
  write_samples (suc n) s =
      let (sample, s') = next_sample s in
      let (s'', bytes) = write_samples n s' in (s'', sample % 256 ∷ sample / 256 % 256 ∷ bytes)

  -- How many samples `iso_in_data` writes.
  unfoldable pub packet_samples : ℕ → ℕ
  packet_samples max_length =
      if ltb max_length (samples_per_packet * bytes_per_sample)
      then max_length / bytes_per_sample
      else samples_per_packet

  -- `iso_in_data`
  unfoldable pub iso_in_data : Stream Phase → ℕ → ℕ → Action (Stream Phase × List ℕ)
  unfolding write_samples packet_samples
  iso_in_data s ep max_length = done (write_samples (packet_samples max_length) s)

  -- `control_data`. AUDIO_STREAMING_INTERFACE is 1; USB_REQUEST_SET_INTERFACE is 11 and
  -- USB_REQUEST_GET_INTERFACE is 10.
  unfoldable pub control_data : Stream Phase → List ℕ → List ℕ → Action (Stream Phase)
  control_data s setup bytes =
      let alternate = byte setup 2 in
      if byte setup 0 == 1 && byte setup 1 == 11
      then (if byte setup 4 == 1 && not (alternate == s.streaming_alternate)
          then done (record { streaming_alternate = alternate; sample_index = 0; phase = still })
          else done s)
      else if byte setup 0 == 0x81 && byte setup 1 == 10
      then transmit 0 ((if byte setup 4 == 1 then s.streaming_alternate else 0) ∷ [])
          (λ sent. done s)
      else done s

  -- `reset`
  unfoldable pub reset : Stream Phase → Action (Stream Phase)
  reset s = done (record s { streaming_alternate = 0 })

  -- `audio_device`
  abbrev pub audio_device : UsbDevice (Stream Phase)
  audio_device = record {
    device_desc = device_descriptor;
    config_desc = config_descriptor;
    langid_desc = langid_descriptor;
    usb_strings = strings;
    control_data_callback = control_data;
    ep_data_callback = none;
    reset_callback = some reset;
    iso_in_callback = some iso_in_data;
  }
