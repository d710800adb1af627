-- ===== src/Device/OtherSpeed/Adapted.antt =====
-- The loop of `build_other_speed_config` of src/lib/usbip_device.c, and the bytes it leaves.
use usbip_server.Prelude.{
  ℕ, ◌+◌, ◌-◌, ◌≤◌, ◌<◌, ◌⊎◌, inl, inr, ◌≡◌, ◌≢◌, refl, sym, ap, ◌∙◌, ◌&&◌, ◌||◌, List, arith, ltb,
  ◌==◌, if_elim, length, set, take, byte, le16, low_bits, length-set, length-take, get_or-set_other,
  get_or-set_self, get_or-take,
}
use usbip_server.Prelude.Loop.{while, Falls, while_inv, while_fuel}
use usbip_server.Device.OtherSpeed.{
  Walk, full_speed_max_packet_size, interrupt_interval, adapt_packet_size, adapt_interval,
  adapt_isochronous, adapt_descriptor, more, adapt_next, copied_length, build_other_speed_config,
}

-- The buffers have one length and the same first `n` bytes.
abbrev pub Agree : ℕ → List ℕ → List ℕ → Type 0
Agree n a b = (length a ≡ length b) × ((i : ℕ) → i < n → byte a i ≡ byte b i)

set-Agree : (n i v : ℕ) (a b : List ℕ) → n ≤ i → Agree n a b → Agree n (set a i v) b
set-Agree n i v a b le (len, same) = (
  length-set a i v ∙ len,
  λ j lt. get_or-set_other a i j v 0 (λ e. absurd (omega arith)) ∙ same j lt,
)

Agree-refl : (n : ℕ) (a : List ℕ) → Agree n a a
Agree-refl n a = (refl, λ i lt. refl)

module _ (idx : ℕ) (b : List ℕ) where
  abbrev Kept : List ℕ → Type 0
  Kept a = Agree (idx + 4) a b

  set-Kept : (i v : ℕ) (a : List ℕ) → idx + 4 ≤ i → Kept a → Kept (set a i v)
  set-Kept i v a le h = set-Agree (idx + 4) i v a b le h

  adapt_packet_size-Agree : (a : List ℕ) → Kept a → Kept (adapt_packet_size idx a)
  unfolding adapt_packet_size
  adapt_packet_size-Agree a h =
      if_elim {A = List ℕ} Kept (ltb full_speed_max_packet_size (le16 a (idx + 4)))
        (set-Kept (idx + 5) 0 _ (omega arith)
          (set-Kept (idx + 4) full_speed_max_packet_size a (omega arith) h))
        h

  adapt_interval-Agree : (a : List ℕ) → Kept a → Kept (adapt_interval idx a)
  unfolding adapt_interval
  adapt_interval-Agree a h =
      if_elim {A = List ℕ} Kept (low_bits (byte a (idx + 3)) 2 == 3 && ltb 0 (byte a (idx + 6)))
        (set-Kept (idx + 6) (interrupt_interval (byte a (idx + 6))) a (omega arith) h) h

  adapt_isochronous-Agree : (a : List ℕ) → Kept a → Kept (adapt_isochronous idx a)
  unfolding adapt_isochronous
  adapt_isochronous-Agree a h =
      set-Kept (idx + 6) _ _ (omega arith)
        (set-Kept (idx + 5) _ _ (omega arith) (set-Kept (idx + 4) _ a (omega arith) h))

adapt_descriptor-Agree : (idx : ℕ) (b : List ℕ) → Agree (idx + 4) (adapt_descriptor idx b) b
unfolding adapt_descriptor
adapt_descriptor-Agree idx b =
    let type_ = low_bits (byte b (idx + 3)) 2 in
    if_elim {A = List ℕ} (Kept idx b) (byte b (idx + 1) == 5 && (type_ == 2 || type_ == 3))
      (adapt_interval-Agree idx b _ (adapt_packet_size-Agree idx b b (Agree-refl (idx + 4) b)))
      (if_elim {A = List ℕ} (Kept idx b) (byte b (idx + 1) == 5 && type_ == 1)
        (adapt_isochronous-Agree idx b b (Agree-refl (idx + 4) b)) (Agree-refl (idx + 4) b))

module _ (total_length : ℕ) where
  abbrev pub remaining : Walk → ℕ
  remaining w = total_length - w.idx

  adapt_next-falls : Falls remaining (more total_length) adapt_next
  unfolding more adapt_next
  adapt_next-falls w h =
      let same = (adapt_descriptor-Agree w.idx w.buffer).1 w.idx (omega arith) in
      rw same (ground arith)

  -- The first four bytes stay.
  adapt_next-Agree : (b : List ℕ) (w : Walk) → Agree 4 w.buffer b → Agree 4 (adapt_next w).buffer b
  unfolding adapt_next
  adapt_next-Agree b w (len, same) =
      let (len', same') = adapt_descriptor-Agree w.idx w.buffer in
      (len' ∙ len, λ i lt. same' i (omega arith) ∙ same i lt)

copied_length-le :
    (config_desc : List ℕ) (buffer_length : ℕ)
    → copied_length config_desc buffer_length ≤ le16 config_desc 2
unfolding copied_length
copied_length-le config_desc buffer_length = ground arith

-- The copy with its new type, byte by byte.
byte-set-take :
    (n i : ℕ) (c : List ℕ)
    → n ≤ length c
    → 4 ≤ n
    → i < 4
    → byte (set (take n c) 1 7) i ≡ byte (set c 1 7) i
byte-set-take n i c fits four lt = elim at_type [
  | inl here ↦ rw here (
      get_or-set_self (take n c) 1 7 0 (omega (arith, length-take n c))
      ∙ sym (get_or-set_self c 1 7 0 (omega arith)))
  | inr other ↦
      get_or-set_other (take n c) 1 i 7 0 other
      ∙ get_or-take n c i 0 (omega arith)
      ∙ sym (get_or-set_other c 1 i 7 0 other)
]
  where
    at_type : (i ≡ 1) ⊎ (i ≢ 1)
    at_type = ground arith

-- The descriptor that is built is as long as what was copied of the configuration, and its first four
-- bytes are the configuration's but for the type, which is that of another speed's, provided the
-- configuration is as long as it says and four bytes of it are copied. The loop has ended: as many rounds
-- as it takes give the same.
pub build_other_speed_config-Agree :
    (config_desc : List ℕ) (buffer_length fuel i : ℕ)
    → le16 config_desc 2 ≤ length config_desc
    → 4 ≤ copied_length config_desc buffer_length
    → copied_length config_desc buffer_length < fuel
    → i < 4
    → let built = build_other_speed_config config_desc buffer_length in
      let total_length = copied_length config_desc buffer_length in
      (length built ≡ total_length)
      × (byte built i ≡ byte (set config_desc 1 7) i)
      × ((while fuel
            (more total_length)
            adapt_next
            (record { idx = 0; buffer = set (take total_length config_desc) 1 7 })).buffer
          ≡ built)
unfolding build_other_speed_config
build_other_speed_config-Agree config_desc buffer_length fuel i fits four enough lt = (
  agree.0 ∙ length-set (take n config_desc) 1 7 ∙ copied,
  agree.1 i lt ∙ byte-set-take n i config_desc inside four lt,
  ap (λ (w : Walk). w.buffer)
      (while_fuel (remaining n) (more n) adapt_next (adapt_next-falls n) fuel (n + 1) start
        (omega arith) (omega arith)),
)
  where
    n : ℕ
    n = copied_length config_desc buffer_length

    start : Walk
    start = record { idx = 0; buffer = set (take n config_desc) 1 7 }

    inside : n ≤ length config_desc
    inside = omega (arith, copied_length-le config_desc buffer_length, fits)

    copied : length (take n config_desc) ≡ n
    copied = omega (arith, length-take n config_desc, inside)

    agree : Agree 4 (build_other_speed_config config_desc buffer_length) start.buffer
    agree =
        (while_inv (remaining n) (more n) adapt_next (λ w. Agree 4 w.buffer start.buffer)
          (λ w h _. adapt_next-Agree n start.buffer w h) (adapt_next-falls n) (n + 1) start
          (omega arith) (Agree-refl 4 start.buffer)).0
