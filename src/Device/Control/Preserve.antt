-- ===== src/Device/Control/Preserve.antt =====
-- Properties of the state of src/lib/usbip_device.c under requests and callbacks.
use usbip_server.Prelude.{
  ℕ, List, ◌==◌, ◌&&◌, leb, take, byte, low_bits, bit, ◌/◌, ◌^◌, if_elim, Option-elim,
}
use usbip_server.Device.Api.{Action, done, transmit, UsbDevice}
use usbip_server.Device.Buffers.{DeviceState, reset_buffers, transmit_now, begin_request, run}
use usbip_server.Device.Control.{
  Gadget, bm_request_type, b_request, get_string, run_callback, reply, control_callback,
  string_request, descriptor_request, device_request, endpoint_request, control, reset, receive,
  iso_in,
}

-- `P` is kept by a transmit on the server thread.
abbrev pub KeptByTransmit : (DeviceState → Type 0) → Type 0
KeptByTransmit P = (ep : ℕ) (bytes : List ℕ) (s : DeviceState) → P s → P (transmit_now ep bytes s).1

-- And by what else a request changes: `begin_request` and SET_CONFIGURATION.
pub record KeptByRequest (P : DeviceState → Type 0) : Type 0 where
  pub by_transmit : KeptByTransmit P
  pub by_begin : (s : DeviceState) → P s → P (begin_request s)
  pub by_configure : (v : ℕ) (s : DeviceState) → P s → P (record s { configuration_value = v })

-- `P` of the device's state in a gadget, and in a result that has one.
abbrev AtGadget : (DeviceState → Type 0) → {A : Type 0} → Gadget A → Type 0
AtGadget P g = P g.dev

abbrev AtResult : (DeviceState → Type 0) → {A B : Type 0} → B × Gadget A → Type 0
AtResult P r = P r.1.dev

module _ (P : DeviceState → Type 0) (k : KeptByTransmit P) where
  pub run-keeps : {R : Type 0} (act : Action R) (s : DeviceState) → P s → P (run act s).1
  unfolding run
  run-keeps (done r) s h = h
  run-keeps (transmit ep bytes next) s h =
      run-keeps (next (transmit_now ep bytes s).0) (transmit_now ep bytes s).1 (k ep bytes s h)

  module _ {A : Type 0} where
    run_callback-keeps : (act : Action A) (g : Gadget A) → P g.dev → P (run_callback act g).dev
    unfolding run_callback
    run_callback-keeps act g h = run-keeps act g.dev h

    reply-keeps : (n : ℕ) (bytes : List ℕ) (g : Gadget A) → P g.dev → P (reply n bytes g).dev
    unfolding reply
    reply-keeps n bytes g h = k 0 (take n bytes) g.dev h

    module _ (usb : UsbDevice A) where
      control_callback-keeps :
          (setup buffer : List ℕ) (n : ℕ) (g : Gadget A)
          → P g.dev
          → P (control_callback usb setup buffer n g).dev
      unfolding control_callback
      control_callback-keeps setup buffer n g h =
          run_callback-keeps (usb.control_data_callback g.app setup (take n buffer)) g h

      string_request-keeps :
          (index n : ℕ) (g : Gadget A) → P g.dev → P (string_request usb index n g).dev
      unfolding string_request
      string_request-keeps index n g h = if_elim (AtGadget P) (index == 0) (reply-keeps _ _ g h) (
          Option-elim (AtGadget P) (get_string usb.usb_strings index) h
            (λ string. reply-keeps _ _ g h))

      descriptor_request-keeps :
          (setup : List ℕ) (n : ℕ) (g : Gadget A)
          → P g.dev
          → P (descriptor_request usb setup n g).dev
      unfolding descriptor_request
      descriptor_request-keeps setup n g h =
          if_elim (AtGadget P) (byte setup 3 == 1) (reply-keeps _ _ g h) (
            if_elim (AtGadget P) (byte setup 3 == 2) (reply-keeps _ _ g h) (
              if_elim (AtGadget P) (byte setup 3 == 6 && leb 2 (byte usb.device_desc 3))
                (reply-keeps _ _ g h)
                (if_elim (AtGadget P) (byte setup 3 == 7 && leb 2 (byte usb.device_desc 3))
                  (reply-keeps _ _ g h)
                  (if_elim (AtGadget P) (byte setup 3 == 3)
                    (string_request-keeps (byte setup 2) n g h) h))))

      pub receive-keeps :
          (ep : ℕ) (bytes : List ℕ) (g : Gadget A) → P g.dev → P (receive usb ep bytes g).dev
      unfolding receive
      receive-keeps ep bytes g h =
          Option-elim (AtGadget P) usb.ep_data_callback h
            (λ callback. run_callback-keeps (callback g.app _ bytes) g h)

      pub iso_in-keeps : (ep n : ℕ) (g : Gadget A) → P g.dev → P ((iso_in usb ep n g).1).dev
      unfolding iso_in
      iso_in-keeps ep n g h =
          Option-elim (AtResult P) usb.iso_in_callback h
            (λ callback. run-keeps (callback g.app _ n) g.dev h)

      -- A reset keeps what its first half establishes.
      pub reset-keeps : (g : Gadget A) → P (reset_buffers g.dev) → P (reset usb g).dev
      unfolding reset
      reset-keeps g h =
          Option-elim (AtGadget P) usb.reset_callback h
            (λ callback. run-keeps (callback g.app) (reset_buffers g.dev) h)

module _ (P : DeviceState → Type 0) (k : KeptByRequest P) {A : Type 0} (usb : UsbDevice A) where
  device_request-keeps :
      (setup buffer : List ℕ) (n : ℕ) (g : Gadget A)
      → P g.dev
      → P ((device_request usb setup buffer n g).1).dev
  unfolding device_request
  device_request-keeps setup buffer n g h =
      if_elim (AtResult P) (bit (bm_request_type setup) 7 == 1)
        (if_elim (AtGadget P) (b_request setup == 0) (answer 2 _) (
          if_elim (AtGadget P) (b_request setup == 6)
            (descriptor_request-keeps P k.by_transmit usb setup n g h)
            (if_elim (AtGadget P) (b_request setup == 8) (answer 1 _) h)))
        (if_elim (AtResult P) (b_request setup == 9)
          (control_callback-keeps P k.by_transmit usb setup buffer n _
            (k.by_configure (byte setup 2) g.dev h))
          h)
    where
      answer : (m : ℕ) (bytes : List ℕ) → P (reply m bytes g).dev
      answer m bytes = reply-keeps P k.by_transmit m bytes g h

  endpoint_request-keeps :
      (setup : List ℕ) (g : Gadget A) → P g.dev → P ((endpoint_request usb setup g).1).dev
  unfolding endpoint_request
  endpoint_request-keeps setup g h =
      if_elim (AtResult P) (b_request setup == 0) (reply-keeps P k.by_transmit 2 _ g h) (
        if_elim (AtResult P) (b_request setup == 1) h
          (if_elim (AtResult P) (b_request setup == 3) h h))

  pub control-keeps :
      (setup buffer : List ℕ) (n : ℕ) (g : Gadget A)
      → P g.dev
      → P ((control usb setup buffer n g).1).dev
  unfolding control
  control-keeps setup buffer n g h =
      if_elim (AtResult P) (low_bits (bm_request_type setup / 2 ^ 5) 2 == 0)
        (if_elim (AtResult P) (recipient == 0) (device_request-keeps setup buffer n g' h') (
          if_elim (AtResult P) (recipient == 1) called
            (if_elim (AtResult P) (recipient == 2) (endpoint_request-keeps setup g' h') h')))
        called
    where
      recipient : ℕ
      recipient = low_bits (bm_request_type setup) 5

      g' : Gadget A
      g' = record g { dev = begin_request g.dev }

      h' : P g'.dev
      h' = k.by_begin g.dev h

      called : P (control_callback usb setup buffer n g').dev
      called = control_callback-keeps P k.by_transmit usb setup buffer n g' h'
