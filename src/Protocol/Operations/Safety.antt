-- ===== src/Protocol/Operations/Safety.antt =====
-- What the replies to operations, in src/lib/usbip_protocol.c, change.
use usbip_server.Prelude.{
  ℕ, zero, suc, Bool, Option, none, some, arith, if_elim, if◌then◌else◌, Bool-elim, Option-elim,
}
use usbip_server.Device.Api.{UsbDevice}
use usbip_server.Protocol.State.{Server, Step, ◌>>◌, write}
use usbip_server.Protocol.State.Invariant.{ConnOnly, write-ConnOnly}
use usbip_server.Protocol.Operations.{
  get_next_interface_idx, transmit_response_head, transmit_number_of_devices, transmit_device_id,
  transmit_device, transmit_interface, transmit_interfaces, transmit_devlist_response,
  transmit_import_response,
}

-- `P` of the state that is returned, if the call returns.
abbrev pub Returned : {A : Type 0} → (Server A → Type 0) → Option (Bool × Server A) → Type 0
Returned P none = Unit
Returned P (some r) = P r.1

module _ {A : Type 0} (usb : UsbDevice A) where
  pub transmit_import_response-ConnOnly : ConnOnly (transmit_import_response usb)
  unfolding transmit_import_response transmit_response_head transmit_device_id transmit_device write
  transmit_import_response-ConnOnly s = ground arith

  head-ConnOnly : ConnOnly {A = A} (
      transmit_response_head 5
      >> transmit_number_of_devices 1
      >> transmit_device_id
      >> transmit_device usb)
  unfolding transmit_response_head transmit_number_of_devices transmit_device_id transmit_device
      write
  head-ConnOnly s = ground arith

  -- What every step that touches the connection alone keeps, the list of interfaces keeps.
  transmit_interfaces-keeps :
      (P : Server A → Type 0)
      → ((i : ℕ) (s : Server A) → P s → P (transmit_interface usb i s).1)
      → (n i : ℕ) (r : Bool × Server A) → P r.1
      → Returned P (transmit_interfaces usb n i r)
  unfolding transmit_interfaces
  transmit_interfaces-keeps P k zero i r h = h
  transmit_interfaces-keeps P k (suc n) i r h =
      Option-elim {B = Option (Bool × Server A)} (Returned P)
        (get_next_interface_idx usb.config_desc i) tt
        (λ j.
          let r' : Bool × Server A = if r.0 then transmit_interface usb j r.1 else r in
          let h' : P r'.1 = if_elim {A = Bool × Server A} (λ x. P x.1) r.0 (k j r.1 h) h in
          Bool-elim {A = Option (Bool × Server A)} (Returned P) r'.0
            (transmit_interfaces-keeps P k n j r' h') h')

  pub transmit_devlist_response-keeps :
      (P : Server A → Type 0)
      → ((m : Step A) → ConnOnly m → (s : Server A) → P s → P (m s).1)
      → (s : Server A) → P s
      → Returned P (transmit_devlist_response usb s)
  unfolding transmit_devlist_response transmit_interface
  transmit_devlist_response-keeps P k s h =
      transmit_interfaces-keeps P (λ i. k (transmit_interface usb i) (write-ConnOnly _)) _ _ _
        (k
          (transmit_response_head 5
            >> transmit_number_of_devices 1
            >> transmit_device_id
            >> transmit_device usb)
          head-ConnOnly s h)
