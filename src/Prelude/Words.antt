-- ===== src/Prelude/Words.antt =====
-- Machine words as numbers, and reads of byte arrays.
use Prim.Native.Nat.{ℕ, ◌+◌, ◌*◌, ◌/◌, ◌%◌, ◌^◌}
use mathlib.Core.List.{List}
use usbip_server.Prelude.Lists.{get_or}

abbrev pub u32_mod : ℕ
u32_mod = 2 ^ 32

abbrev pub u64_mod : ℕ
u64_mod = 2 ^ 64

-- `x & (2^k - 1)` and bit `k` of `x`, in the form that arithmetic reads at a numeral `k`.
abbrev pub low_bits : ℕ → ℕ → ℕ
low_bits x k = x % 2 ^ k

abbrev pub bit : ℕ → ℕ → ℕ
bit x k = x / 2 ^ k % 2

-- A read of a C array. A read past the end is undefined in C; here it yields 0, and the modules that
-- read descriptors say when no such read happens.
abbrev pub byte : List ℕ → ℕ → ℕ
byte d i = get_or d i 0

-- A 16 bit field of a USB descriptor, low byte at `i`.
abbrev pub le16 : List ℕ → ℕ → ℕ
le16 d i = byte d (i + 1) * 256 + byte d i
