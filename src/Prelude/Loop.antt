-- ===== src/Prelude/Loop.antt =====
-- `while (test(s)) s = body(s);` on fuel, and why the fuel does not show when a measure falls.
use Prim.Native.Nat.{ℕ, zero, suc, ◌<◌}
use mathlib.Core.Path.{◌≡◌, refl, sym, ◌∙◌}
use mathlib.Core.Logic.{inl, inr}
use mathlib.Core.Bool.{Bool, true, false}
use native.Mathlib.Omega.{arith}
use usbip_server.Prelude.Tests.{if◌then◌else◌, Bool-cases}

unfoldable pub while {ℓ} : {S : Type ℓ} → (rounds : ℕ) (go_on : S → Bool) (next : S → S) → S → S
while zero go_on next state = state
while (suc rounds) go_on next state = elim (go_on state) [
  | false ↦ state
  | true ↦ while rounds go_on next (next state)
]

module _ {ℓ} {S : Type ℓ} (measure : S → ℕ) (test : S → Bool) (body : S → S) where
  -- Every round that the test allows makes the measure smaller.
  abbrev pub Falls : Type ℓ
  Falls = (s : S) → test s ≡ true → measure (body s) < measure s

  pub while_inv {κ} :
      (P : S → Type κ)
      → ((s : S) → P s → test s ≡ true → P (body s))
      → Falls
      → (fuel : ℕ) (s : S) → measure s < fuel
      → P s
      → P (while fuel test body s) × (test (while fuel test body s) ≡ false)
  unfolding while
  while_inv P keep falls zero s m h = absurd (omega arith)
  while_inv P keep falls (suc fuel) s m h = elim (Bool-cases (test s)) [
    | inl more ↦
        rw (more, while)
          (while_inv P keep falls fuel (body s) (omega (arith, falls s more)) (keep s h more))
    | inr done ↦ rw (done, while) (h, done)
  ]

  -- Any two amounts of fuel above the measure give the same result.
  pub while_fuel :
      Falls
      → (f g : ℕ) (s : S) → measure s < f
      → measure s < g
      → while f test body s ≡ while g test body s
  unfolding while
  while_fuel falls zero g s hf hg = absurd (omega arith)
  while_fuel falls (suc f) zero s hf hg = absurd (omega arith)
  while_fuel falls (suc f) (suc g) s hf hg = elim (Bool-cases (test s)) [
    | inl more ↦
        rw (more, while)
          (while_fuel falls f g (body s) (omega (arith, falls s more))
            (omega (arith, falls s more)))
    | inr done ↦ rw (done, while)
  ]

  -- The equation of the loop itself.
  pub while_lem :
      Falls
      → (fuel : ℕ) (s : S) → measure s < fuel
      → while fuel test body s ≡ (if test s then while fuel test body (body s) else s)
  unfolding while
  while_lem falls zero s m = absurd (omega arith)
  while_lem falls (suc f) s m = elim (Bool-cases (test s)) [
    | inl more ↦
        rw (more, while)
          (while_fuel falls f (suc f) (body s) (omega (arith, falls s more))
            (omega (arith, falls s more)))
    | inr done ↦ rw (done, while)
  ]

-- Loops whose tests and bodies agree where they are run agree.
pub while_cong {ℓ} :
    {S : Type ℓ} (test test' : S → Bool) (body body' : S → S)
    → ((s : S) → test s ≡ test' s)
    → ((s : S) → test s ≡ true → body s ≡ body' s)
    → (fuel : ℕ) (s : S) → while fuel test body s ≡ while fuel test' body' s
unfolding while
while_cong test test' body body' t b zero s = refl
while_cong test test' body body' t b (suc fuel) s = elim (Bool-cases (test s)) [
  | inl more ↦
      rw (more, sym (t s) ∙ more, b s more, while)
        (while_cong test test' body body' t b fuel (body' s))
  | inr done ↦ rw (done, sym (t s) ∙ done, while)
]
