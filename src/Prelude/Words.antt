-- ===== src/Prelude/Words.antt =====
-- Machine words: a value of a w-bit type is the number of its bit pattern, below 2 ^ w.
use Prim.Native.Nat.{ℕ, ◌/◌, ◌%◌, ◌^◌, ◌<◌}

-- x >> k, for a pattern x.
abbrev pub shr : ℕ → ℕ → ℕ
shr x k = x / 2 ^ k

-- x & (2 ^ k - 1).
abbrev pub low_bits : ℕ → ℕ → ℕ
low_bits x k = x % 2 ^ k

abbrev pub IsByte : ℕ → Type 0
IsByte b = b < 256

abbrev pub IsU32 : ℕ → Type 0
IsU32 n = n < 2 ^ 32

abbrev pub IsU64 : ℕ → Type 0
IsU64 n = n < 2 ^ 64
