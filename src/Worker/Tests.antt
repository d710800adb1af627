-- ===== src/Worker/Tests.antt =====
-- Ctrl-C pressed four times.
use usbip_server.Prelude.{◌≡◌}
use usbip_server.Worker.{started, ctrl_c}
use usbip_server.Worker.Interrupts.{after, ctrl_c_lem}

ctrl_c_lem_example : ctrl_c 4 started ≡ after 4
ctrl_c_lem_example = ctrl_c_lem 4
