-- ===== src/Serializer.antt =====
-- CSERIALIZER of src/common/common_protocol.h: big-endian integers in packages. An int or an
-- int64_t is its bit pattern; a buffer is the list of the bytes that a function writes or reads.
pub mod RoundTrip
mod Tests
use kunlun.Prelude.{ℕ, ◌+◌, ◌*◌, ◌%◌, ◌^◌, List, [], ◌∷◌, Option, none, some, shr, low_bits}

-- The four bytes that int2buff writes.
unfoldable pub int2buff : ℕ → List ℕ
int2buff n =
    low_bits (shr n 24) 8 ∷ low_bits (shr n 16) 8 ∷ low_bits (shr n 8) 8 ∷ low_bits n 8 ∷ []

-- The eight bytes that long2buff writes.
unfoldable pub long2buff : ℕ → List ℕ
long2buff n =
    low_bits (shr n 56) 8
    ∷ low_bits (shr n 48) 8
    ∷ low_bits (shr n 40) 8
    ∷ low_bits (shr n 32) 8
    ∷ low_bits (shr n 24) 8
    ∷ low_bits (shr n 16) 8
    ∷ low_bits (shr n 8) 8
    ∷ low_bits n 8
    ∷ []

-- A shift to the left in a word of w bits, and a sum in it.
abbrev pub shl : ℕ → ℕ → ℕ → ℕ
shl w x k = x * 2 ^ k % 2 ^ w

abbrev add_word : ℕ → ℕ → ℕ → ℕ
add_word w x y = (x + y) % 2 ^ w

-- `none` is a read past the end of the buffer.
unfoldable pub buff2int32 : List ℕ → Option ℕ
buff2int32 (b0 ∷ b1 ∷ b2 ∷ b3 ∷ rest) =
    some (add_word 32 (add_word 32 (add_word 32 (shl 32 b0 24) (shl 32 b1 16)) (shl 32 b2 8)) b3)
buff2int32 _ = none

unfoldable pub buff2int64 : List ℕ → Option ℕ
buff2int64 (b0 ∷ b1 ∷ b2 ∷ b3 ∷ b4 ∷ b5 ∷ b6 ∷ b7 ∷ rest) =
    let i1 = add_word 64 (shl 64 b0 56) (shl 64 b1 48) in
    let i2 = add_word 64 (add_word 64 i1 (shl 64 b2 40)) (shl 64 b3 32) in
    let i3 = add_word 64 (add_word 64 i2 (shl 64 b4 24)) (shl 64 b5 16) in
    some (add_word 64 (add_word 64 i3 (shl 64 b6 8)) b7)
buff2int64 _ = none
