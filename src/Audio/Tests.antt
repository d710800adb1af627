-- ===== src/Audio/Tests.antt =====
-- The microphone with a pulse of rising samples.
use usbip_server.Prelude.{ℕ, ◌+◌, ◌*◌, ◌/◌, ◌%◌, ◌≤◌, ◌≡◌, arith, length, min}
use usbip_server.Device.Control.{Gadget, iso_in}
use usbip_server.Bulk.Fixtures.{idle}
use usbip_server.Audio.{Stream, audio_device}
use usbip_server.Audio.Packets.{iso_in_lem}

abbrev pulse : ℕ → ℕ → ℕ × ℕ
pulse index phase = (phase, phase + 1)

abbrev gadget : Gadget (Stream ℕ)
gadget = record {
  app = record { streaming_alternate = 0; sample_index = 47999; phase = 5 };
  dev = idle;
}

iso_in_lem_example :
    let (bytes, g') = iso_in (audio_device pulse 0) 1 11 gadget in
    (length bytes ≡ 2 * min 48 (11 / 2))
    × (length bytes ≤ 11)
    × (g'.app.sample_index ≡ (47999 + min 48 (11 / 2)) % 48000)
    × (g'.dev ≡ idle)
iso_in_lem_example = iso_in_lem pulse 0 1 11 gadget (omega arith)
