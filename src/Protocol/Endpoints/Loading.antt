-- ===== src/Protocol/Endpoints/Loading.antt =====
-- The loop of `load_endpoints` of src/lib/usbip_protocol.c: what it reads and what it leaves.
use usbip_server.Prelude.{
  ℕ, ◌+◌, ◌-◌, ◌*◌, ◌^◌, ◌≤◌, ◌<◌, ◌≡◌, sym, ap, ◌∙◌, Bool, true, ◌&&◌, ◌||◌, ◌⊎◌, inr, List, ◌++◌,
  arith, ltb, ltb→ge, ◌==◌, if_elim, if_split, length, get_or-append, low_bits, bit, byte, le16,
}
use native.Mathlib.Nat.{pow-le-pow_right}
use usbip_server.Prelude.Loop.{while, Falls, while_inv, while_fuel, while_cong}
use usbip_server.Protocol.State.{Endpoint, slot}
use usbip_server.Protocol.Endpoints.{
  Walk, no_endpoint, service_interval, load_endpoint, more, load_next, load_endpoints,
}

-- An interval of high speed.
abbrev IsInterval : ℕ → Type 0
IsInterval t = (125 ≤ t) × (t ≤ 4096000)

power_bounds : (k : ℕ) → k ≤ 15 → (1 ≤ 2 ^ k) × (2 ^ k ≤ 32768)
power_bounds k h =
    (pow-le-pow_right (omega arith) {i = 0} {j = k} (omega arith), pow-le-pow_right (omega arith) h)

service_interval_bounds : (b : ℕ) → 0 < b → IsInterval (service_interval b)
unfolding service_interval
service_interval_bounds b h =
    if_split {A = ℕ} (λ e. IsInterval (125 * 2 ^ (e - 1))) (ltb 16 b) (λ _. omega arith)
      (λ few. omega (arith, power_bounds (b - 1) (omega (arith, ltb→ge _ _ few))))

-- An endpoint on which nothing was transferred yet: its type is one of the four, and its interval is 0
-- or one of high speed, from 125 us to 2 ^ 15 times that.
pub record IsFresh (e : Endpoint) : Type 0 where
  pub not_polled : e.next_poll_us ≡ 0
  pub no_stream : e.stream_end_us ≡ 0
  pub type_known : e.transfer_type ≤ 3
  pub interval_known : (e.interval_us ≡ 0) ⊎ ((125 ≤ e.interval_us) × (e.interval_us ≤ 4096000))

abbrev AllFresh : (ℕ → Endpoint) → Type 0
AllFresh endpoints = (i : ℕ) → IsFresh (endpoints i)

load_endpoint-AllFresh :
    (d : List ℕ) (idx : ℕ) (es : ℕ → Endpoint) → AllFresh es → AllFresh (load_endpoint d idx es)
unfolding load_endpoint
load_endpoint-AllFresh d idx es h i =
    if_elim {A = Endpoint} IsFresh (i == j)
      (record {
        not_polled = (h j).not_polled;
        no_stream = (h j).no_stream;
        type_known = omega arith;
        interval_known =
            if_split {A = ℕ} (λ t. (t ≡ 0) ⊎ IsInterval t)
              ((type == 1 || (in_ == 1 && type == 3)) && ltb 0 (byte d (idx + 6)))
              (λ paced. inr (service_interval_bounds (byte d (idx + 6)) (positive _ _ paced)))
              (λ _. (h j).interval_known);
      })
      (h i)
  where
    in_ : ℕ
    in_ = bit (byte d (idx + 2)) 7

    type : ℕ
    type = low_bits (byte d (idx + 3)) 2

    j : ℕ
    j = slot in_ (byte d (idx + 2))

    positive : (b : Bool) (n : ℕ) → (b && ltb 0 n) ≡ true → 0 < n
    positive b n e = ground arith

module _ (d : List ℕ) where
  abbrev pub unread : Walk → ℕ
  unread w = le16 d 2 - w.idx

  -- Every round goes on by the length of a descriptor, which is not 0.
  pub load_next-falls : Falls unread (more d) (load_next d)
  unfolding more load_next
  load_next-falls w h = ground arith

  -- Nothing was transferred on any endpoint, its type and interval are in range, and the loop has ended: any
  -- fuel above `wTotalLength` gives the same.
  pub load_endpoints-IsFresh :
      (fuel i : ℕ)
      → le16 d 2 < fuel
      → IsFresh (load_endpoints d i)
        × ((while fuel
              (more d)
              (load_next d)
              (record { idx = 0; endpoints = λ j. no_endpoint })).endpoints
            ≡ load_endpoints d)
  unfolding load_endpoints
  load_endpoints-IsFresh fuel i enough = (
    (while_inv unread (more d) (load_next d) (λ w. AllFresh w.endpoints) step load_next-falls
          (le16 d 2 + 1) first (omega arith) (λ j. omega arith)).0
        i,
    ap (λ (w : Walk). w.endpoints)
        (while_fuel unread (more d) (load_next d) load_next-falls fuel (le16 d 2 + 1) first
          (omega arith) (omega arith)),
  )
    where
      first : Walk
      first = record { idx = 0; endpoints = λ j. no_endpoint }

      step :
          (w : Walk) → AllFresh w.endpoints → more d w ≡ true → AllFresh (load_next d w).endpoints
      step w h t =
          if_elim {A = ℕ → Endpoint} AllFresh (byte d (w.idx + 1) == 5)
            (load_endpoint-AllFresh d w.idx w.endpoints h) h

module _ (d rest : List ℕ) (header : 4 ≤ length d) (fits : le16 d 2 ≤ length d) where
  same : (i : ℕ) → i < length d → byte (d ++ rest) i ≡ byte d i
  same i h = get_or-append d rest i 0 h

  more-append : (w : Walk) → more (d ++ rest) w ≡ more d w
  unfolding more
  more-append w = ground (arith, same 2, same 3, same w.idx)

  more-inside : (w : Walk) → more d w ≡ true → w.idx + 6 < length d
  unfolding more
  more-inside w h = ground arith

  load_next-append :
      (w : Walk) → more (d ++ rest) w ≡ true → load_next (d ++ rest) w ≡ load_next d w
  unfolding load_next load_endpoint
  load_next-append w h = rw (
    same w.idx (omega (arith, inside)),
    same (w.idx + 1) (omega (arith, inside)),
    same (w.idx + 2) (omega (arith, inside)),
    same (w.idx + 3) (omega (arith, inside)),
    same (w.idx + 6) inside,
  )
    where
      inside : w.idx + 6 < length d
      inside = more-inside w (sym (more-append w) ∙ h)

-- What stands behind the `wTotalLength` bytes of a configuration is never read, provided those bytes
-- and the four that hold `wTotalLength` are there.
pub load_endpoints-append :
    (d rest : List ℕ)
    → 4 ≤ length d
    → le16 d 2 ≤ length d
    → load_endpoints (d ++ rest) ≡ load_endpoints d
unfolding load_endpoints
load_endpoints-append d rest header fits =
    ap (λ (n : ℕ). (while (n + 1) (more (d ++ rest)) (load_next (d ++ rest)) start).endpoints) total
    ∙ ap (λ (w : Walk). w.endpoints)
        (while_cong (more (d ++ rest)) (more d) (load_next (d ++ rest)) (load_next d)
          (more-append d rest header fits) (load_next-append d rest header fits) (le16 d 2 + 1)
          start)
  where
    start : Walk
    start = record { idx = 0; endpoints = λ i. no_endpoint }

    total : le16 (d ++ rest) 2 ≡ le16 d 2
    total =
        omega
          (arith, get_or-append d rest 2 0 (omega arith), get_or-append d rest 3 0 (omega arith))
