-- ===== src/Device/Api.antt =====
-- The public interface of a device, include/usbip_server_api.h: what the author of a device writes.
use usbip_server.Prelude.{ℕ, Bool, Option, List}

-- What a callback does: it returns, or it calls `usbip_device_transmit` and goes on with what that
-- returned. The server's other state is out of a callback's reach.
pub data Action (R : Type 0) : Type 0 where
  done : R → Action R
  transmit : ℕ → List ℕ → (Bool → Action R) → Action R

-- `usb_string_t`; the text without its NUL.
pub record UsbString : Type 0 where
  pub id : ℕ
  pub string : List ℕ

-- `usbip_device_t`. `A` is the device's own state, which its callbacks read and write. The bytes that
-- `iso_in_callback` returns are the first `length` bytes of `buffer` after the call.
pub record UsbDevice (A : Type 0) : Type 0 where
  pub device_desc : List ℕ
  pub config_desc : List ℕ
  pub langid_desc : List ℕ
  pub usb_strings : List UsbString
  pub control_data_callback : A → List ℕ → List ℕ → Action A
  pub ep_data_callback : Option (A → ℕ → List ℕ → Action A)
  pub reset_callback : Option (A → Action A)
  pub iso_in_callback : Option (A → ℕ → ℕ → Action (A × List ℕ))
