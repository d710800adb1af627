-- ===== src/Audio/Packets.antt =====
-- What the microphone of src/usb_audio_input/usb_audio_input_device.c sends to the host.
use usbip_server.Prelude.{
  ℕ, zero, suc, ◌+◌, ◌*◌, ◌/◌, ◌%◌, ◌≤◌, ◌<◌, ◌≡◌, refl, ap, ◌∙◌, true, false, List, [], ◌∷◌, arith,
  length, take, take_all, min, ◌==◌, Bool-cases, inl, inr,
}
use usbip_server.Device.Control.{Gadget, iso_in, control, reset, control_callback}
use usbip_server.Device.Buffers.{begin_request, fetch_control_reply}
use usbip_server.Device.Control.Requests.{reply-fetch}
use usbip_server.Audio
use usbip_server.Audio.{
  Stream, next_sample, write_samples, packet_samples, iso_in_data, control_data, audio_device,
}

module _ {Phase : Type 0} (pulse : ℕ → Phase → ℕ × Phase) (still : Phase) where
  length-write_samples :
      (n : ℕ) (s : Stream Phase) → length (write_samples pulse still n s).1 ≡ 2 * n
  unfolding write_samples
  length-write_samples zero s = refl
  length-write_samples (suc n) s =
      omega (arith, length-write_samples n (next_sample pulse still s).1)

  index-write_samples :
      (n : ℕ) (s : Stream Phase)
      → s.sample_index < 48000
      → (write_samples pulse still n s).0.sample_index ≡ (s.sample_index + n) % 48000
  unfolding write_samples next_sample
  index-write_samples zero s h = omega (arith, h)
  index-write_samples (suc n) s h =
      index-write_samples n (next_sample pulse still s).1 (omega arith) ∙ omega (arith, h)

  packet_samples-min : (n : ℕ) → packet_samples pulse still n ≡ min 48 (n / 2)
  unfolding packet_samples
  packet_samples-min n = ground arith

  -- A packet of the microphone holds whole samples only, 48 or as many as fit the host's packet, never
  -- more than the packet has room for, and the next packet goes on with the sample after them.
  pub iso_in_lem :
      (ep max_length : ℕ) (g : Gadget (Stream Phase))
      → g.app.sample_index < 48000
      → let (bytes, g') = iso_in (audio_device pulse still) ep max_length g in
        (length bytes ≡ 2 * min 48 (max_length / 2))
        × (length bytes ≤ max_length)
        × (g'.app.sample_index ≡ (g.app.sample_index + min 48 (max_length / 2)) % 48000)
        × (g'.dev ≡ g.dev)
  unfolding iso_in iso_in_data
  iso_in_lem ep max_length g h =
      let k = packet_samples-min max_length in
      let l = length-write_samples (packet_samples pulse still max_length) g.app in
      let le : length (write_samples pulse still (packet_samples pulse still max_length) g.app).1
          ≤ max_length =
        omega (arith, k, l) in
      let whole =
        take_all max_length
          (write_samples pulse still (packet_samples pulse still max_length) g.app).1 le in
      let idx = index-write_samples (packet_samples pulse still max_length) g.app h in
      (
        ap length whole ∙ l ∙ ap (λ n. 2 * n) k,
        rw whole le,
        idx ∙ ap (λ n. (g.app.sample_index + n) % 48000) k,
        refl,
      )

  -- A request with wValue `alternate` for the streaming interface.
  abbrev pub interface_packet : ℕ → ℕ → ℕ → ℕ → List ℕ
  interface_packet bm b alternate len = bm ∷ b ∷ alternate ∷ 0 ∷ 1 ∷ 0 ∷ len % 256 ∷ len / 256 ∷ []

  set_interface :
      (alternate : ℕ) (buffer : List ℕ) (g : Gadget (Stream Phase))
      → let g' =
          (control (audio_device pulse still) (interface_packet 1 11 alternate 0) buffer 0 g).1 in
        (g'.app.streaming_alternate ≡ alternate) × (g'.dev.device_stopped ≡ g.dev.device_stopped)
  unfolding control control_callback control_data begin_request
  set_interface alternate buffer g = elim (Bool-cases (alternate == g.app.streaming_alternate)) [
    | inl same ↦ (rw same (ground arith), rw same refl)
    | inr other ↦ (rw other refl, rw other refl)
  ]

  get_interface :
      (m : ℕ) (buffer : List ℕ) (g : Gadget (Stream Phase))
      → g.dev.device_stopped ≡ false
      → 0 < m
      → let (supported, g') =
          control (audio_device pulse still) (interface_packet 0x81 10 0 m) buffer m g in
        (supported ≡ true)
        × ((fetch_control_reply m g'.dev).0 ≡ true)
        × ((fetch_control_reply m g'.dev).1 ≡ g.app.streaming_alternate ∷ [])
  unfolding control control_callback control_data begin_request take
  get_interface m buffer g run_ pos =
      let (answered, bytes) =
        reply-fetch m (g.app.streaming_alternate ∷ []) (begin_request g.dev) run_ in
      (refl, answered, bytes ∙ take_all m (g.app.streaming_alternate ∷ []) pos)

  -- GET_INTERFACE for at least one byte answers with the alternate setting that SET_INTERFACE chose last,
  -- while the device is not stopped, and with 0 after a reset.
  pub get_set_interface :
      (alternate m : ℕ) (buffer : List ℕ) (g : Gadget (Stream Phase))
      → g.dev.device_stopped ≡ false
      → 0 < m
      → let usb = audio_device pulse still in
        let g' = (control usb (interface_packet 1 11 alternate 0) buffer 0 g).1 in
        let (supported, g'') = control usb (interface_packet 0x81 10 0 m) buffer m g' in
        (supported ≡ true)
        × ((fetch_control_reply m g''.dev).0 ≡ true)
        × ((fetch_control_reply m g''.dev).1 ≡ alternate ∷ [])
        × ((reset usb g'').app.streaming_alternate ≡ 0)
  unfolding reset Audio.reset
  get_set_interface alternate m buffer g run_ pos =
      let (chosen, kept) = set_interface alternate buffer g in
      let g' =
        (control (audio_device pulse still) (interface_packet 1 11 alternate 0) buffer 0 g).1 in
      let (supported, answered, bytes) = get_interface m buffer g' (kept ∙ run_) pos in
      (supported, answered, bytes ∙ ap (λ a. a ∷ []) chosen, refl)
