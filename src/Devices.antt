-- ===== src/Devices.antt =====
-- The example devices of src/usb_bulk, src/usb_cdc, src/usb_keyboard, src/usb_mouse, src/usb_audio_input and
-- src/usb_gud_display served to clients: what their descriptors and report descriptors promise.
pub mod Reports
mod Tests
use usbip_server.Prelude.{ℕ, ◌≡◌, refl, Bool, true, false, Option, some, List, le16, byte, length}
use mathlib.Core.Path.{subst}
use usbip_server.Device.Api.{UsbDevice}
use usbip_server.Device.Buffers.{must_wait}
use usbip_server.Protocol.State.{Server}
use usbip_server.Protocol.State.Invariant.{IsValid}
use usbip_server.Protocol.Operations.Ends.{Walkable}
use usbip_server.Protocol.Operations.Chain.{chain, chain-Walkable}
use usbip_server.Worker.{Client, usbip_server_worker_thread}
use usbip_server.Worker.Clients.{usbip_server_worker_thread_lem}
use usbip_server.Bulk
use usbip_server.Cdc
use usbip_server.Mouse
use usbip_server.Audio
use usbip_server.Keyboard.Usb
use usbip_server.Display.Usb as Gud

pub data Example : Type 0 where
  bulk : Example
  serial : Example
  keyboard : Example
  mouse : Example
  microphone : Example
  display : Example

-- The configuration descriptor of each.
abbrev pub configuration : Example → List ℕ
configuration bulk = Bulk.config_descriptor
configuration serial = Cdc.config_descriptor
configuration keyboard = Usb.config_descriptor
configuration mouse = Mouse.config_descriptor
configuration microphone = Audio.config_descriptor
configuration display = Gud.config_descriptor

configuration-chain : (e : Example) → chain 30 (configuration e) (byte (configuration e) 4) 0 ≡ true
unfolding chain
configuration-chain bulk = refl
configuration-chain serial = refl
configuration-chain keyboard = refl
configuration-chain mouse = refl
configuration-chain microphone = refl
configuration-chain display = refl

length-configuration : (e : Example) → length (configuration e) ≡ le16 (configuration e) 2
length-configuration bulk = refl
length-configuration serial = refl
length-configuration keyboard = refl
length-configuration mouse = refl
length-configuration microphone = refl
length-configuration display = refl

-- The configuration of each example device is as long as it says, and a device that has it, whatever its
-- callbacks do, is served to any clients one after another until the server is told to stop: the thread
-- comes to an end with the invariant of the protocol's state, and no call of `usbip_device_transmit`
-- waits then.
pub example_served :
    {A : Type 0} (e : Example) (usb : UsbDevice A) (clients : List Client) (s : Server A)
    → usb.config_desc ≡ configuration e
    → IsValid s
    → (length (configuration e) ≡ le16 (configuration e) 2)
      × ((s' : Server A) × (usbip_server_worker_thread usb clients s ≡ some s')
          × IsValid s'
          × ((may_wait : Bool) (ep : ℕ) → must_wait may_wait ep s'.gadget.dev ≡ false))
example_served e usb clients s same v =
    (length-configuration e, usbip_server_worker_thread_lem usb walk clients s v)
  where
    walk : Walkable usb.config_desc
    walk = rw same (chain-Walkable (configuration e) 30 (configuration-chain e))
