-- ===== src/Protocol/Operations/Listing.antt =====
-- The device list, `transmit_devlist_response` of src/lib/usbip_protocol.c, as bytes.
use usbip_server.Prelude.{
  ℕ, ◌+◌, ◌<◌, ◌≡◌, refl, sym, ap, ◌∙◌, Bool, true, false, Option, some, List, [], ◌∷◌, ◌++◌, arith,
  if◌then◌else◌, Bool-cases, inl, inr, byte, length, append_assoc, append-nil, length-append,
}
use usbip_server.Device.Api.{UsbDevice}
use usbip_server.Protocol.Conn
use usbip_server.Protocol.Messages.{be32, op_rep_head_bytes, interface_descriptor_bytes}
use usbip_server.Protocol.State.{Server, write, ◌>>◌}
use usbip_server.Protocol.Reply.Bytes.{write->>, write-write, wrote_eq, take_append-le}
use usbip_server.Protocol.Operations.{
  usbip_protocol_version, transmit_response_head, transmit_number_of_devices, transmit_device_id,
  transmit_device, transmit_interface, transmit_interfaces, transmit_devlist_response,
}
use usbip_server.Protocol.Operations.Bytes.{exported_id, exported_device}
use usbip_server.Protocol.Operations.Ends.{Places, get_next_interface_idx-Next}

-- After a write that fails nothing more is taken, so bytes behind it make no difference.
write_failed :
    {A : Type 0} (a b : List ℕ) (s : Server A)
    → (write a s).0 ≡ false
    → write a s ≡ write (a ++ b) s
unfolding write Conn.write
write_failed a b s failed =
    let short : s.conn.room < length a = ground arith in
    wrote_eq s (ground (arith, length-append a b)) (omega (arith, length-append a b))
      (ap (λ xs. s.conn.output ++ xs) (sym (take_append-le s.conn.room a b (omega arith))))

unless_failed :
    {A : Type 0} (r : Bool × Server A) (k : Server A → Bool × Server A)
    → (if r.0 then k r.1 else r) ≡ (if r.0 then k r.1 else (false, r.1))
unless_failed (true, s) k = refl
unless_failed (false, s) k = refl

module _ {A : Type 0} (usb : UsbDevice A) where
  -- The entry of the interface at `i`.
  abbrev pub entry : ℕ → List ℕ
  unfolding interface_descriptor_bytes
  entry i = interface_descriptor_bytes (record {
    b_interface_class = byte usb.config_desc (i + 5);
    b_interface_sub_class = byte usb.config_desc (i + 6);
    b_interface_protocol = byte usb.config_desc (i + 7);
  })

  abbrev pub entries : List ℕ → List ℕ
  entries [] = []
  entries (i ∷ is) = entry i ++ entries is

  -- OP_REP_DEVLIST before the interfaces: the head, how many devices there are, and the one.
  abbrev exported : List ℕ
  unfolding op_rep_head_bytes be32
  exported =
      op_rep_head_bytes (record { version = usbip_protocol_version; reply_code = 5; status = 0 })
      ++ (be32 1 ++ (exported_id ++ exported_device usb))

  abbrev pub devlist_reply : List ℕ → List ℕ
  unfolding op_rep_head_bytes be32 interface_descriptor_bytes
  devlist_reply is = exported ++ entries is

  exported_lem :
      (s : Server A)
      → (transmit_response_head 5
            >> transmit_number_of_devices 1
            >> transmit_device_id
            >> transmit_device usb)
          s
        ≡ write exported s
  unfolding transmit_response_head transmit_number_of_devices transmit_device_id transmit_device
  exported_lem s =
      write->> _ _ (transmit_number_of_devices 1 >> transmit_device_id >> transmit_device usb) s (
        write->> _ _ (transmit_device_id >> transmit_device usb) (transmit_response_head 5 s).1 (
          write->> exported_id _ (transmit_device usb)
            (transmit_number_of_devices 1 (transmit_response_head 5 s).1).1 refl))

  write-entry :
      (bytes : List ℕ) (j : ℕ) (s : Server A)
      → (write bytes >> transmit_interface usb j) s ≡ write (bytes ++ entry j) s
  unfolding transmit_interface
  write-entry bytes j s = write-write bytes (entry j) s

  -- The rest of the loop, behind the entry of an interface.
  abbrev next : ℕ → ℕ → Bool × Server A → Option (Bool × Server A)
  next n j r = elim (r.0) [ true ↦ transmit_interfaces usb n j r | false ↦ some r ]

  next_on :
      (n j : ℕ) (r : Bool × Server A) → r.0 ≡ true → next n j r ≡ transmit_interfaces usb n j r
  next_on n j (true, s) on = refl
  next_on n j (false, s) on = cc

  next_off : (n j : ℕ) (r : Bool × Server A) → r.0 ≡ false → next n j r ≡ some r
  next_off n j (true, s) off = cc
  next_off n j (false, s) off = refl

  next_sends :
      (n j : ℕ) (bytes rest : List ℕ) (s : Server A)
      → ((bs : List ℕ) (t : Server A)
          → transmit_interfaces usb n j (write bs t) ≡ some (write (bs ++ rest) t))
      → next n j (write bytes s) ≡ some (write (bytes ++ rest) s)
  next_sends n j bytes rest s sends = elim (Bool-cases (write bytes s).0) [
    | inl on ↦ next_on n j (write bytes s) on ∙ sends bytes s
    | inr off ↦ next_off n j (write bytes s) off ∙ ap some (write_failed bytes rest s off)
  ]

  interfaces_lem :
      (is : List ℕ) (i : ℕ) (bytes : List ℕ) (s : Server A)
      → Places usb.config_desc i is
      → transmit_interfaces usb (length is) i (write bytes s) ≡ some (write (bytes ++ entries is) s)
  unfolding transmit_interfaces
  interfaces_lem [] i bytes s places = ap (λ bs. some (write bs s)) (sym (append-nil bytes))
  interfaces_lem (j ∷ is) i bytes s (here, places) =
      rw (get_next_interface_idx-Next usb.config_desc i j here, transmit_interfaces)
        (ap (next (length is) j)
            (unless_failed (write bytes s) (transmit_interface usb j) ∙ write-entry bytes j s)
          ∙ next_sends (length is) j (bytes ++ entry j) (entries is) s
              (λ bs t. interfaces_lem is j bs t places)
          ∙ ap (λ bs. some (write bs s)) (append_assoc bytes (entry j) (entries is)))

  -- The device list is written as one message: the one device that is exported, and an entry for each of the
  -- first bNumInterfaces interface descriptors of the configuration, alternate settings counted. Each entry
  -- has the class, the subclass and the protocol of its descriptor, and they are in the order in which the
  -- descriptors follow one another, for a configuration that has so many.
  pub transmit_devlist_response_lem :
      (is : List ℕ) (s : Server A)
      → length is ≡ byte usb.config_desc 4
      → Places usb.config_desc 0 is
      → transmit_devlist_response usb s ≡ some (write (devlist_reply is) s)
  unfolding transmit_devlist_response
  transmit_devlist_response_lem is s len places =
      ap
        (λ n. transmit_interfaces usb n 0 (
          (transmit_response_head 5
              >> transmit_number_of_devices 1
              >> transmit_device_id
              >> transmit_device usb)
            s))
        (sym len)
      ∙ ap (transmit_interfaces usb (length is) 0) (exported_lem s)
      ∙ interfaces_lem is 0 exported s places
