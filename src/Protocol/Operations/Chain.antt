-- ===== src/Protocol/Operations/Chain.antt =====
-- Finding the interface descriptors of a configuration, as the loops of src/lib/usbip_protocol.c go
-- through its descriptors.
use usbip_server.Prelude.{
  ℕ, zero, suc, ◌+◌, ◌<◌, ◌≤◌, ◌≡◌, ◌≢◌, refl, ap, Bool, true, false, ◌&&◌, List, [], ◌∷◌, arith,
  ltb, leb, ◌==◌, ==_iff, ==-false→ne, if◌then◌else◌, Bool-cases, inl, inr, byte, le16, length,
}
use usbip_server.Protocol.Operations.Ends.{next_here, next_behind, Places, Walkable}

-- Going by at most `fuel` descriptors from `i` on, there are `n` more interfaces.
unfoldable pub chain : (fuel : ℕ) → List ℕ → (n : ℕ) → ℕ → Bool
chain fuel config zero i = true
chain zero config (suc n) i = false
chain (suc fuel) config (suc n) i =
    let j = i + byte config i in
    let interface = byte config (j + 1) == 4 in
    let rest = chain fuel config (if interface then n else suc n) j in
    ltb i (le16 config 2)
    && ltb 0 (byte config i)
    && leb (j + (if interface then 9 else 2)) (length config)
    && rest

passes :
    (a b c d e : ℕ) (rest : Bool)
    → (ltb a b && ltb 0 c && leb d e && rest) ≡ true
    → (a < b) × (0 < c) × (d ≤ e) × (rest ≡ true)
passes a b c d e rest h = ground arith

module _ (config : List ℕ) where
  chain-Places :
      (fuel n i : ℕ)
      → chain fuel config n i ≡ true
      → (is : List ℕ) × (length is ≡ n) × Places config i is
  unfolding chain
  chain-Places zero zero i h = ([], refl, tt)
  chain-Places (suc fuel) zero i h = ([], refl, tt)
  chain-Places zero (suc n) i h = cc
  chain-Places (suc fuel) (suc n) i h =
      elim (Bool-cases (byte config (i + byte config i + 1) == 4)) [
        | inl interface ↦
            let (within, pos, inside, whole) = passes _ _ _ _ _ _ (rw interface at h) in
            let (is, len, places) = chain-Places fuel n (i + byte config i) whole in
            (
              (i + byte config i) ∷ is,
              ap suc len,
              (next_here within inside ((==_iff _ _).0 interface), places),
            )
        | inr other ↦
            let (within, pos, inside, whole) = passes _ _ _ _ _ _ (rw other at h) in
            passed (chain-Places fuel (suc n) (i + byte config i) whole) within pos
              (omega (arith, inside)) (==-false→ne _ _ other)
      ]
    where
      passed :
          (is : List ℕ) × (length is ≡ suc n) × Places config (i + byte config i) is
          → i < le16 config 2
          → 0 < byte config i
          → i + byte config i + 1 < length config
          → byte config (i + byte config i + 1) ≢ 4
          → (is : List ℕ) × (length is ≡ suc n) × Places config i is
      passed ([], len, places) within pos inside other = absurd (omega (arith, len))
      passed (j ∷ is, len, (next, places)) within pos inside other =
          (j ∷ is, len, (next_behind within pos inside other next, places))

  -- A configuration in which the interfaces are found that it announces.
  pub chain-Walkable : (fuel : ℕ) → chain fuel config (byte config 4) 0 ≡ true → Walkable config
  chain-Walkable fuel h = chain-Places fuel (byte config 4) 0 h
