-- ===== src/Prelude/Arrays.antt =====
-- Writes into C arrays, which are lists, and what is read from them.
use Prim.Native.Nat.{ℕ, zero, suc, ◌+◌, ◌-◌, ◌≤◌, ◌<◌}
use mathlib.Core.Path.{◌≡◌, refl, ap, ◌∙◌}
use mathlib.Core.List.{List, [], ◌∷◌, ◌++◌}
use native.Mathlib.Omega.{arith}
use usbip_server.Prelude.Lists.{
  length, get_or, take, drop, length-append, length-take, length-drop, take-length_append,
  get_or-append,
}

-- `memcpy(&buf[offset], bytes, length(bytes))`. A write past the end would make the list longer.
abbrev pub write_at {ℓ} : {A : Type ℓ} → ℕ → List A → List A → List A
write_at offset bytes buf = take offset buf ++ bytes ++ drop (offset + length bytes) buf

module _ {ℓ} {A : Type ℓ} where
  pub length-write_at :
      (offset : ℕ) (bytes buf : List A)
      → offset + length bytes ≤ length buf
      → length (write_at offset bytes buf) ≡ length buf
  length-write_at offset bytes buf h = omega (
    arith,
    length-append (take offset buf ++ bytes) (drop (offset + length bytes) buf),
    length-append (take offset buf) bytes,
    length-take offset buf,
    length-drop (offset + length bytes) buf,
  )

  -- What a buffer holds up to the end of the bytes just written.
  pub take-write_at :
      (offset n : ℕ) (bytes buf : List A)
      → offset ≤ length buf
      → n ≡ offset + length bytes
      → take n (write_at offset bytes buf) ≡ take offset buf ++ bytes
  take-write_at offset n bytes buf h e =
      rw len (take-length_append (take offset buf ++ bytes) (drop (offset + length bytes) buf))
    where
      len : n ≡ length (take offset buf ++ bytes)
      len = omega (arith, length-append (take offset buf) bytes, length-take offset buf)

  pub get_or-drop :
      (m : ℕ) (xs : List A) (i j : ℕ) (d : A) → i ≡ m + j → get_or (drop m xs) j d ≡ get_or xs i d
  unfolding drop
  get_or-drop zero xs i j d e = let same : j ≡ i = omega arith in ap (λ k. get_or xs k d) same
  get_or-drop (suc m) [] i j d e = refl
  get_or-drop (suc m) (x ∷ xs) zero j d e = absurd (omega arith)
  get_or-drop (suc m) (x ∷ xs) (suc i) j d e = get_or-drop m xs i j d (omega arith)

  pub get_or-take :
      (n : ℕ) (xs : List A) (i : ℕ) (d : A) → i < n → get_or (take n xs) i d ≡ get_or xs i d
  unfolding take
  get_or-take zero xs i d h = absurd (omega arith)
  get_or-take (suc n) [] i d h = refl
  get_or-take (suc n) (x ∷ xs) zero d h = refl
  get_or-take (suc n) (x ∷ xs) (suc i) d h = get_or-take n xs i d (omega arith)

  pub get_or-append_behind :
      (xs ys : List A) (i j : ℕ) (d : A) → i ≡ length xs + j → get_or (xs ++ ys) i d ≡ get_or ys j d
  get_or-append_behind [] ys i j d e =
      let same : i ≡ j = omega arith in ap (λ k. get_or ys k d) same
  get_or-append_behind (x ∷ xs) ys zero j d e = absurd (omega arith)
  get_or-append_behind (x ∷ xs) ys (suc i) j d e = get_or-append_behind xs ys i j d (omega arith)

  -- What is written stands in its place, and the rest of the buffer stays.
  pub get_or-write_at_inside :
      (offset : ℕ) (bytes buf : List A) (i j : ℕ) (d : A)
      → offset ≤ length buf
      → i ≡ offset + j
      → j < length bytes
      → get_or (write_at offset bytes buf) i d ≡ get_or bytes j d
  get_or-write_at_inside offset bytes buf i j d h e lt =
      get_or-append (take offset buf ++ bytes) (drop (offset + length bytes) buf) i d
        (omega (arith, length-append (take offset buf) bytes, length-take offset buf))
      ∙ get_or-append_behind (take offset buf) bytes i j d (omega (arith, length-take offset buf))

  pub get_or-write_at_before :
      (offset : ℕ) (bytes buf : List A) (i : ℕ) (d : A)
      → offset ≤ length buf
      → i < offset
      → get_or (write_at offset bytes buf) i d ≡ get_or buf i d
  get_or-write_at_before offset bytes buf i d h lt =
      get_or-append (take offset buf ++ bytes) (drop (offset + length bytes) buf) i d
        (omega (arith, length-append (take offset buf) bytes, length-take offset buf))
      ∙ get_or-append (take offset buf) bytes i d (omega (arith, length-take offset buf))
      ∙ get_or-take offset buf i d lt

  pub get_or-write_at_behind :
      (offset : ℕ) (bytes buf : List A) (i : ℕ) (d : A)
      → offset ≤ length buf
      → offset + length bytes ≤ i
      → get_or (write_at offset bytes buf) i d ≡ get_or buf i d
  get_or-write_at_behind offset bytes buf i d h le =
      get_or-append_behind (take offset buf ++ bytes) (drop (offset + length bytes) buf) i
        (i - (offset + length bytes)) d
        (omega (arith, length-append (take offset buf) bytes, length-take offset buf))
      ∙ get_or-drop (offset + length bytes) buf i (i - (offset + length bytes)) d (omega arith)

  -- Taking and dropping in two steps.
  pub take-take-drop :
      (m n : ℕ) (xs : List A)
      → m ≤ n
      → take m xs ++ take (n - length (take m xs)) (drop m xs) ≡ take n xs
  unfolding take drop
  take-take-drop zero n xs h = let e : n - 0 ≡ n = omega arith in rw e refl
  take-take-drop (suc m) zero xs h = absurd (omega arith)
  take-take-drop (suc m) (suc n) [] h = let e : suc n - 0 ≡ suc n = omega arith in rw e refl
  take-take-drop (suc m) (suc n) (x ∷ xs) h =
      let e : suc n - suc (length (take m xs)) ≡ n - length (take m xs) = omega arith in
      rw e (ap (λ zs. x ∷ zs) (take-take-drop m n xs (omega arith)))

  pub drop-take-drop :
      (m n : ℕ) (xs : List A) → m ≤ n → drop (n - length (take m xs)) (drop m xs) ≡ drop n xs
  unfolding take drop
  drop-take-drop zero n xs h = let e : n - 0 ≡ n = omega arith in rw e refl
  drop-take-drop (suc m) zero xs h = absurd (omega arith)
  drop-take-drop (suc m) (suc n) [] h = let e : suc n - 0 ≡ suc n = omega arith in rw e refl
  drop-take-drop (suc m) (suc n) (x ∷ xs) h =
      let e : suc n - suc (length (take m xs)) ≡ n - length (take m xs) = omega arith in
      rw e (drop-take-drop m n xs (omega arith))
