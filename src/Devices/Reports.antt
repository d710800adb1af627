-- ===== src/Devices/Reports.antt =====
-- The report descriptors of the keyboard and the mouse, which their `control_data` sends.
use usbip_server.Prelude.{
  ℕ, ◌+◌, ◌*◌, ◌/◌, ◌%◌, ◌≤◌, ◌≡◌, refl, ap, ◌∙◌, Bool, true, false, List, arith, length, take,
  take_all, length-take, min, leb, Bool-cases, inl, inr,
}
use usbip_server.Device.Buffers.{
  DeviceState, transmit_now, begin_request, fetch_control_reply, endpoint_max_data_length,
}
use usbip_server.Device.Control.{Gadget, control, control_callback}
use usbip_server.Device.Control.Requests.{setup_packet, reply-fetch}
use usbip_server.Keyboard.Usb
use usbip_server.Keyboard.Usb.{keyboard_device}
use usbip_server.Mouse
use usbip_server.Mouse.{MouseState, mouse_device}

-- What a reply of the first `n` bytes is cut to is all of it.
reply-whole :
    (n : ℕ) (report : List ℕ)
    → length report ≤ endpoint_max_data_length
    → take n (take endpoint_max_data_length (take (min n (length report)) report)) ≡ take n report
reply-whole n report h =
    rw
      (
        all,
        take_all endpoint_max_data_length (take n report) (omega (arith, l, h)),
        take_all n (take n report) (omega (arith, l)),
      )
      refl
  where
    l : length (take n report) ≡ min n (length report)
    l = length-take n report

    all : take (min n (length report)) report ≡ take n report
    all = elim (Bool-cases (leb n (length report))) [
      | inl le ↦ ap (λ k. take k report) (ground (arith, le))
      | inr gt ↦
          let k : min n (length report) ≡ length report = ground (arith, gt) in
          let le : length report ≤ n = ground (arith, gt) in
          rw (k, take_all (length report) report (omega arith), take_all n report le) refl
    ]

-- The same for the request as `control_data` reads it.
report-reply :
    (n : ℕ) (report : List ℕ) (d : DeviceState)
    → length report ≤ endpoint_max_data_length
    → d.device_stopped ≡ false
    → let d' = (transmit_now 0 (take (min (n / 256 * 256 + n % 256) (length report)) report) d).1 in
      ((fetch_control_reply n d').0 ≡ true) × ((fetch_control_reply n d').1 ≡ take n report)
report-reply n report d h run_ =
    let k : n / 256 * 256 + n % 256 ≡ n = omega arith in
    let (answered, bytes) = reply-fetch n (take (min n (length report)) report) d run_ in
    rw k (answered, bytes ∙ reply-whole n report h)

-- The keyboard answers GET_DESCRIPTOR of its report descriptor with the descriptor's first wLength bytes,
-- or with all of it if the host asks for more, while the device is not stopped; the request changes
-- nothing of the keyboard's own state.
pub keyboard_report :
    (index n : ℕ) (buffer : List ℕ) (g : Gadget Bool)
    → g.dev.device_stopped ≡ false
    → let (supported, g') = control keyboard_device (setup_packet 0x81 6 index 0x22 n) buffer n g in
      (supported ≡ true)
      × ((fetch_control_reply n g'.dev).0 ≡ true)
      × ((fetch_control_reply n g'.dev).1 ≡ take n Usb.hid_report)
      × (g'.app ≡ g.app)
unfolding control control_callback Usb.control_data begin_request
keyboard_report index n buffer g run_ =
    let (answered, bytes) =
      report-reply n Usb.hid_report (begin_request g.dev) (omega arith) run_ in
    (refl, answered, bytes, refl)

-- The mouse answers GET_DESCRIPTOR of its report descriptor with the descriptor's first wLength bytes, or
-- with all of it if the host asks for more, while the device is not stopped.
mouse_report :
    (index n : ℕ) (buffer : List ℕ) (g : Gadget MouseState)
    → g.dev.device_stopped ≡ false
    → let (supported, g') = control mouse_device (setup_packet 0x81 6 index 0x22 n) buffer n g in
      (supported ≡ true)
      × ((fetch_control_reply n g'.dev).0 ≡ true)
      × ((fetch_control_reply n g'.dev).1 ≡ take n Mouse.hid_report)
unfolding control control_callback Mouse.control_data begin_request
mouse_report index n buffer g run_ =
    let (answered, bytes) =
      report-reply n Mouse.hid_report (begin_request g.dev) (omega arith) run_ in
    (refl, answered, bytes)
