-- ===== src/Protocol/Endpoints/Described.antt =====
-- The table that `load_endpoints` of src/lib/usbip_protocol.c makes, and the descriptors of the configuration.
use usbip_server.Prelude.{
  ℕ, ◌+◌, ◌-◌, ◌*◌, ◌^◌, ◌≤◌, ◌<◌, ◌≡◌, refl, Bool, true, false, ◌&&◌, ◌||◌, ◌⊎◌, inl, inr, Option,
  none, some, List, [], ◌∷◌, arith, ltb, ◌==◌, ==_iff, Bool-cases, if_split, low_bits, bit, byte,
  le16, if◌then◌else◌, ==_refl,
}
use usbip_server.Prelude.Loop.{while, while_inv}
use usbip_server.Protocol.State.{Endpoint, slot}
use usbip_server.Protocol.Endpoints.{
  Walk, no_endpoint, service_interval, load_endpoint, more, load_next, load_endpoints,
}
use usbip_server.Protocol.Endpoints.Loading.{
  IsFresh, unread, load_next-falls, load_endpoints-IsFresh,
}

-- From the first descriptor on those at `places`, the latest first, were gone by. Each has room for an endpoint
-- descriptor, and is not of length 0.
pub data GoneBy (d : List ℕ) : ℕ → List ℕ → Type 0 where
  at_first : GoneBy d 0 []
  gone_on :
      {i : ℕ} {places : List ℕ}
      → GoneBy d i places
      → i + 7 ≤ le16 d 2
      → 0 < byte d i
      → GoneBy d (i + byte d i) (i ∷ places)

-- The latest place that passes the test.
abbrev pub latest : (ℕ → Bool) → List ℕ → Option ℕ
latest test [] = none
latest test (p ∷ places) = if test p then some p else latest test places

module _ (d : List ℕ) where
  -- USB_ENDPOINT_DIR_MASK, and the transfer type of bmAttributes.
  abbrev direction_at : ℕ → ℕ
  direction_at p = bit (byte d (p + 2)) 7

  abbrev type_at : ℕ → ℕ
  type_at p = low_bits (byte d (p + 3)) 2

  -- An endpoint descriptor for this entry of the table.
  abbrev pub describes : ℕ → ℕ → Bool
  describes i p = byte d (p + 1) == 5 && i == slot (direction_at p) (byte d (p + 2))

  -- One that sets a pace: isochronous, or interrupt IN, with a bInterval.
  abbrev pub paces : ℕ → ℕ → Bool
  paces i p =
      describes i p
      && ((type_at p == 1 || (direction_at p == 1 && type_at p == 3)) && ltb 0 (byte d (p + 6)))

  -- 2 ^ (bInterval - 1) microframes of 125 us, where more than 16 counts as 16.
  abbrev pub interval_at : ℕ → ℕ
  interval_at p = if ltb 16 (byte d (p + 6)) then 4096000 else 125 * 2 ^ (byte d (p + 6) - 1)

  -- The entry is what the descriptors at `places` say.
  pub record Described (places : List ℕ) (i : ℕ) (e : Endpoint) : Type 0 where
    pub type_described :
        e.transfer_type ≡ elim (latest (describes i) places) [ none ↦ 0 | some p ↦ type_at p ]
    pub interval_described :
        e.interval_us ≡ elim (latest (paces i) places) [ none ↦ 0 | some p ↦ interval_at p ]
    pub not_polled : e.next_poll_us ≡ 0
    pub no_stream : e.stream_end_us ≡ 0

  service_interval_lem : (p : ℕ) → service_interval (byte d (p + 6)) ≡ interval_at p
  unfolding service_interval
  service_interval_lem p = elim (Bool-cases (ltb 16 (byte d (p + 6)))) [
    | inl many ↦ rw many refl
    | inr few ↦ rw few refl
  ]

  skipped :
      (places : List ℕ) (i p : ℕ) (e : Endpoint)
      → describes i p ≡ false
      → Described places i e
      → Described (p ∷ places) i e
  skipped places i p e off h = record {
    type_described = rw off (h.type_described);
    interval_described = rw off (h.interval_described);
    not_polled = h.not_polled;
    no_stream = h.no_stream;
  }

  -- The same, of the entry that the descriptor is for.
  load_endpoint-here :
      (i p : ℕ) (es : ℕ → Endpoint)
      → i ≡ slot (direction_at p) (byte d (p + 2))
      → load_endpoint d p es i ≡ record (es i) {
        transfer_type = type_at p;
        interval_us =
            if (type_at p == 1 || (direction_at p == 1 && type_at p == 3)) && ltb 0 (byte d (p + 6))
            then service_interval (byte d (p + 6))
            else (es i).interval_us;
      }
  unfolding load_endpoint
  load_endpoint-here i p es here = rw (here, ==_refl (slot (direction_at p) (byte d (p + 2)))) refl

  loaded :
      (places : List ℕ) (i p : ℕ) (es : ℕ → Endpoint)
      → describes i p ≡ true
      → Described places i (es i)
      → Described (p ∷ places) i (load_endpoint d p es i)
  loaded places i p es on h =
      let here : (i == slot (direction_at p) (byte d (p + 2))) ≡ true = ground arith in
      rw (load_endpoint-here i p es ((==_iff _ _).0 here)) (record {
        type_described = rw on refl;
        interval_described =
            elim (Bool-cases (
              (type_at p == 1 || (direction_at p == 1 && type_at p == 3))
              && ltb 0 (byte d (p + 6)))) [
                | inl paced ↦ rw (on, paced) (service_interval_lem p)
                | inr not_paced ↦ rw (on, not_paced) (h.interval_described)
              ];
        not_polled = h.not_polled;
        no_stream = h.no_stream;
      })

  load_endpoint-elsewhere :
      (i p : ℕ) (es : ℕ → Endpoint)
      → (i == slot (direction_at p) (byte d (p + 2))) ≡ false
      → load_endpoint d p es i ≡ es i
  unfolding load_endpoint
  load_endpoint-elsewhere i p es off = rw off refl

  -- A descriptor that is gone by.
  passed :
      (places : List ℕ) (i p : ℕ) (es : ℕ → Endpoint)
      → Described places i (es i)
      → Described (p ∷ places) i ((if byte d (p + 1) == 5 then load_endpoint d p es else es) i)
  passed places i p es h =
      if_split {A = ℕ → Endpoint} (λ es'. Described (p ∷ places) i (es' i)) (byte d (p + 1) == 5)
        (λ endpoint. elim (Bool-cases (i == slot (direction_at p) (byte d (p + 2)))) [
          | inl here ↦ loaded places i p es (ground arith) h
          | inr off ↦
              rw (load_endpoint-elsewhere i p es off) (skipped places i p (es i) (ground arith) h)
        ])
        (λ other. skipped places i p (es i) (ground arith) h)

  -- What holds in the loop.
  abbrev Goes : Walk → Type 0
  Goes w =
      (places : List ℕ) × GoneBy d w.idx places × ((i : ℕ) → Described places i (w.endpoints i))

  load_next-Goes : (w : Walk) → Goes w → more d w ≡ true → Goes (load_next d w)
  unfolding more load_next
  load_next-Goes w (places, by, described) go_on = (
    w.idx ∷ places,
    gone_on by (ground arith) (ground arith),
    λ i. passed places i w.idx w.endpoints (described i),
  )

  ends : (w : Walk) → more d w ≡ false → (le16 d 2 < w.idx + 7) ⊎ (byte d w.idx ≡ 0)
  unfolding more
  ends w over = ground arith

  -- Loading goes by the descriptors of the configuration until there is no room for an endpoint descriptor, or
  -- one has length 0. Every entry of the table then has the transfer type of the last endpoint descriptor for
  -- it and the interval of the last that sets one, 0 where there is none, and nothing was transferred on it.
  -- The type is one of the four, the interval is 0 or from 125 us to 2 ^ 15 times that, and any fuel above
  -- `wTotalLength` gives the same.
  pub load_endpoints-Described :
      (fuel : ℕ)
      → le16 d 2 < fuel
      → ((end : ℕ) × ((places : List ℕ) × GoneBy d end places
            × ((le16 d 2 < end + 7) ⊎ (byte d end ≡ 0))
            × ((i : ℕ) → Described places i (load_endpoints d i))))
        × ((i : ℕ) → IsFresh (load_endpoints d i))
        × ((while fuel
              (more d)
              (load_next d)
              (record { idx = 0; endpoints = λ j. no_endpoint })).endpoints
            ≡ load_endpoints d)
  unfolding load_endpoints
  load_endpoints-Described fuel enough =
      let ((places, by, described), over) =
        while_inv (unread d) (more d) (load_next d) Goes load_next-Goes (load_next-falls d)
          (le16 d 2 + 1) first (omega arith) ([], at_first, λ i. nothing_yet i) in
      let last = while (le16 d 2 + 1) (more d) (load_next d) first in
      (
        (last.idx, (places, by, ends last over, described)),
        λ i. (load_endpoints-IsFresh d fuel i enough).0,
        (load_endpoints-IsFresh d fuel 0 enough).1,
      )
    where
      first : Walk
      first = record { idx = 0; endpoints = λ j. no_endpoint }

      nothing_yet : (i : ℕ) → Described [] i no_endpoint
      nothing_yet i = record {
        type_described = refl;
        interval_described = refl;
        not_polled = refl;
        no_stream = refl;
      }
