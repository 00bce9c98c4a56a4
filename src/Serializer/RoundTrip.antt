-- ===== src/Serializer/RoundTrip.antt =====
-- The integer codecs of src/common/common_protocol.h against each other.
use kunlun.Prelude.{ℕ, ◌≡◌, List, [], ◌∷◌, ◌++◌, some, All, IsByte, IsU32, IsU64, arith, ap}
use kunlun.Serializer.{int2buff, long2buff, buff2int32, buff2int64}

-- Every 32-bit pattern is read back from the four bytes that int2buff writes, whatever follows.
pub buff2int32-int2buff :
    (n : ℕ) (rest : List ℕ) → IsU32 n → buff2int32 (int2buff n ++ rest) ≡ some n
unfolding buff2int32 int2buff
buff2int32-int2buff n rest h = ap some (omega arith)

-- Every 64-bit pattern is read back from the eight bytes that long2buff writes, whatever follows.
pub buff2int64-long2buff :
    (n : ℕ) (rest : List ℕ) → IsU64 n → buff2int64 (long2buff n ++ rest) ≡ some n
unfolding buff2int64 long2buff
buff2int64-long2buff n rest h = ap some (omega arith)

-- A read of four bytes gives a 32-bit pattern, and int2buff writes those four bytes of it again.
pub int2buff-buff2int32 :
    (b0 b1 b2 b3 n : ℕ)
    → All IsByte (b0 ∷ b1 ∷ b2 ∷ b3 ∷ [])
    → buff2int32 (b0 ∷ b1 ∷ b2 ∷ b3 ∷ []) ≡ some n
    → (int2buff n ≡ b0 ∷ b1 ∷ b2 ∷ b3 ∷ []) × IsU32 n
unfolding buff2int32 int2buff
int2buff-buff2int32 b0 b1 b2 b3 n h e = ground arith

-- A read of eight bytes gives a 64-bit pattern, and long2buff writes those eight bytes of it again.
pub long2buff-buff2int64 :
    (b0 b1 b2 b3 b4 b5 b6 b7 n : ℕ)
    → All IsByte (b0 ∷ b1 ∷ b2 ∷ b3 ∷ b4 ∷ b5 ∷ b6 ∷ b7 ∷ [])
    → buff2int64 (b0 ∷ b1 ∷ b2 ∷ b3 ∷ b4 ∷ b5 ∷ b6 ∷ b7 ∷ []) ≡ some n
    → (long2buff n ≡ b0 ∷ b1 ∷ b2 ∷ b3 ∷ b4 ∷ b5 ∷ b6 ∷ b7 ∷ []) × IsU64 n
unfolding buff2int64 long2buff
long2buff-buff2int64 b0 b1 b2 b3 b4 b5 b6 b7 n h e = ground arith
