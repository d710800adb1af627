-- ===== src/Protocol/Operations/Ends.antt =====
-- The loops of the device list, `transmit_devlist_response` of src/lib/usbip_protocol.c.
use usbip_server.Prelude.{
  ℕ, zero, suc, ◌+◌, ◌-◌, ◌<◌, ◌≤◌, ◌≡◌, ◌≢◌, refl, sym, ap, ◌∙◌, Bool, true, false, ◌||◌, leb,
  Option, none, some, arith, ◌==◌, if◌then◌else◌, Bool-elim, List, [], ◌∷◌, byte, le16, length,
}
use usbip_server.Prelude.Loop.{while}
use usbip_server.Device.Api.{UsbDevice}
use usbip_server.Protocol.State.{Server}
use usbip_server.Protocol.Operations.{
  Search, searching, search_next, get_next_interface_idx, transmit_interface, transmit_interfaces,
  transmit_devlist_response,
}

-- `Next config i j`: behind the descriptor at `i`, the next interface descriptor is at `j`. It is reached by the
-- lengths of the descriptors, none of which is 0, and it lies in the configuration.
pub data Next (config : List ℕ) : ℕ → ℕ → Type 0 where
  next_here :
      {i : ℕ}
      → i < le16 config 2
      → i + byte config i + 9 ≤ length config
      → byte config (i + byte config i + 1) ≡ 4
      → Next config i (i + byte config i)
  next_behind :
      {i j : ℕ}
      → i < le16 config 2
      → 0 < byte config i
      → i + byte config i + 1 < length config
      → byte config (i + byte config i + 1) ≢ 4
      → Next config (i + byte config i) j
      → Next config i j

-- The interface descriptors behind the descriptor at `i` that come next, one after another.
abbrev pub Places : List ℕ → ℕ → List ℕ → Type 0
Places config i [] = Unit
Places config i (j ∷ is) = Next config i j × Places config j is

-- The configuration has the `bNumInterfaces` interfaces that it announces.
abbrev pub Walkable : List ℕ → Type 0
Walkable config = (is : List ℕ) × (length is ≡ byte config 4) × Places config 0 is

module _ (config : List ℕ) where
  -- Standing in the configuration before the next descriptor is looked at.
  abbrev standing : ℕ → Search
  standing i = record {
    idx = i;
    desc_size = byte config i;
    found = false;
    outside = leb (length config) i;
  }

  -- What the search comes to.
  abbrev result : Search → Option ℕ
  result w = if searching config w || w.outside then none else some w.idx

  neither :
      (b c : Bool) (i : ℕ) → b ≡ false → c ≡ false → (if b || c then none else some i) ≡ some i
  neither b c i p q = rw (p, q) refl

  search_next-here :
      (i : ℕ)
      → i + byte config i + 9 ≤ length config
      → byte config (i + byte config i + 1) ≡ 4
      → (search_next config (standing i)).found ≡ true
        × ((search_next config (standing i)).outside ≡ false)
        × ((search_next config (standing i)).idx ≡ i + byte config i)
  unfolding search_next
  search_next-here i inside interface = ground (arith, inside, interface)

  search_next-behind :
      (i : ℕ)
      → i + byte config i + 1 < length config
      → byte config (i + byte config i + 1) ≢ 4
      → search_next config (standing i) ≡ standing (i + byte config i)
  unfolding search_next
  search_next-behind i inside other =
      let not_interface : (byte config (i + byte config i + 1) == 4) ≡ false = ground arith in
      let here : leb (length config) (i + byte config i) ≡ false = ground (arith, inside) in
      let behind : leb (length config) (i + byte config i + 1) ≡ false = ground (arith, inside) in
      rw (not_interface, here, behind) refl

  quits : (w : Search) → w.found ≡ true → searching config w ≡ false
  unfolding searching
  quits w found = ground arith

  stopped :
      (fuel : ℕ) (w : Search)
      → w.found ≡ true
      → w.outside ≡ false
      → result (while fuel (searching config) (search_next config) w) ≡ some w.idx
  unfolding while
  stopped zero w found inside = neither (searching config w) w.outside w.idx (quits w found) inside
  stopped (suc fuel) w found inside =
      rw (quits w found, while)
        (neither (searching config w) w.outside w.idx (quits w found) inside)

  search-Next :
      (fuel i j : ℕ)
      → Next config i j
      → le16 config 2 - i < fuel
      → result (while fuel (searching config) (search_next config) (standing i)) ≡ some j
  unfolding while searching
  search-Next zero i j h enough = absurd (omega arith)
  search-Next (suc fuel) i _ (next_here within inside interface) enough =
      let go_on : searching config (standing i) ≡ true = ground (arith, within, inside) in
      let (found, in_, at) = search_next-here i inside interface in
      rw (go_on, while) (stopped fuel (search_next config (standing i)) found in_ ∙ ap some at)
  search-Next (suc fuel) i j (next_behind within pos inside other h) enough =
      let go_on : searching config (standing i) ≡ true = ground (arith, within, inside) in
      rw (go_on, while, search_next-behind i inside other)
        (search-Next fuel (i + byte config i) j h (omega arith))

  pub get_next_interface_idx-Next :
      (i j : ℕ) → Next config i j → get_next_interface_idx config i ≡ some j
  unfolding get_next_interface_idx
  get_next_interface_idx-Next i j h = search-Next (le16 config 2 + 1) i j h (omega arith)

module _ {A : Type 0} (usb : UsbDevice A) where
  -- The operation returns.
  abbrev pub Ends : Option (Bool × Server A) → Type 0
  Ends o = (r : Bool × Server A) × (o ≡ some r)

  interfaces-Ends :
      (is : List ℕ) (i : ℕ) (r : Bool × Server A)
      → Places usb.config_desc i is
      → Ends (transmit_interfaces usb (length is) i r)
  unfolding transmit_interfaces
  interfaces-Ends [] i r places = (r, refl)
  interfaces-Ends (j ∷ is) i r (next, places) =
      rw (get_next_interface_idx-Next usb.config_desc i j next, transmit_interfaces)
        (Bool-elim {A = Option (Bool × Server A)} Ends sent.0 (interfaces-Ends is j sent places)
          (sent, refl))
    where
      sent : Bool × Server A
      sent = if r.0 then transmit_interface usb j r.1 else r

  pub transmit_devlist_response-Ends :
      (s : Server A) → Walkable usb.config_desc → Ends (transmit_devlist_response usb s)
  unfolding transmit_devlist_response
  transmit_devlist_response-Ends s (is, len, places) = rw (sym len) (interfaces-Ends is 0 _ places)
