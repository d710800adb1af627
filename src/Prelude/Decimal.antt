-- ===== src/Prelude/Decimal.antt =====
-- Numbers as `printf` writes them with %u and with %d.
use Prim.Native.Nat.{ℕ, zero, suc, ◌+◌, ◌-◌, ◌*◌, ◌<◌, ◌/◌, ◌%◌}
use mathlib.Core.Path.{◌≡◌, refl, ◌∙◌}
use mathlib.Core.Logic.{inl, inr}
use mathlib.Core.List.{List, [], ◌∷◌, ◌++◌}
use native.Mathlib.Omega.{arith}
use usbip_server.Prelude.Tests.{ltb, if◌then◌else◌, if_split, Bool-cases}

-- The digits of a number below 10 ^ `fuel`.
unfoldable pub digits : (fuel : ℕ) → ℕ → List ℕ
digits zero n = []
digits (suc fuel) n =
    let high = digits fuel (n / 10) in
    if ltb n 10 then (48 + n) ∷ [] else high ++ (48 + n % 10) ∷ []

abbrev pub decimal : ℕ → List ℕ
decimal n = digits (suc n) n

-- What %d writes for the 32 bits of a number: it is negative from 2 ^ 31 on.
unfoldable pub decimal_int : ℕ → List ℕ
decimal_int n = if ltb n 0x8000_0000 then decimal n else 45 ∷ decimal (0x1_0000_0000 - n)

pub decimal_int-small : (n : ℕ) → n < 0x8000_0000 → decimal_int n ≡ decimal n
unfolding decimal_int
decimal_int-small n small =
    if_split {A = List ℕ} (λ cs. cs ≡ decimal n) (ltb n 0x8000_0000) (λ _. refl)
      (λ big. absurd (ground (arith, small, big)))

abbrev read_from : ℕ → List ℕ → ℕ
read_from n [] = n
read_from n (c ∷ cs) = read_from (n * 10 + (c - 48)) cs

-- The number that digits stand for.
abbrev pub read_decimal : List ℕ → ℕ
read_decimal cs = read_from 0 cs

read_from-append :
    (n : ℕ) (cs : List ℕ) (c : ℕ) → read_from n (cs ++ c ∷ []) ≡ read_from n cs * 10 + (c - 48)
read_from-append n [] c = refl
read_from-append n (d ∷ cs) c = read_from-append (n * 10 + (d - 48)) cs c

read_decimal-digits : (fuel n : ℕ) → n < fuel → read_decimal (digits fuel n) ≡ n
unfolding digits
read_decimal-digits zero n lt = absurd (omega arith)
read_decimal-digits (suc fuel) n lt = elim (Bool-cases (ltb n 10)) [
  | inl one ↦ rw one (omega arith)
  | inr more ↦
      let ge : 10 - 1 < n = ground arith in
      let high = read_decimal-digits fuel (n / 10) (omega arith) in
      rw more (read_from-append 0 (digits fuel (n / 10)) (48 + n % 10) ∙ rw high (omega arith))
]

-- What is written is the number.
pub read_decimal-decimal : (n : ℕ) → read_decimal (decimal n) ≡ n
read_decimal-decimal n = read_decimal-digits (suc n) n (omega arith)
