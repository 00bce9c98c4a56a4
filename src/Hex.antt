-- ===== src/Hex.antt =====
-- kl_bin2hex and kl_hex2bin of src/common/common_types.h: bytes as upper-case hexadecimal digits.
-- A buffer is the list of its bytes. `none` is the result NULL, after which no caller reads the
-- buffer.
pub mod RoundTrip
mod Tests
use kunlun.Prelude.{
  ℕ, zero, suc, ◌+◌, ◌-◌, ◌*◌, ◌%◌, ◌^◌, bit_or, List, [], ◌∷◌, ◌++◌, Option, none, some, Bool,
  ◌&&◌, length, replicate, shr, low_bits, ltb, leb, if◌then◌else◌, ◌>>=◌,
}

-- low < 0x0A ? low + '0' : low - 0x0A + 'A'
pub hex_digit : ℕ → ℕ
hex_digit low = if ltb low 0x0a then low + b'0' else low - 0x0a + b'A'

-- The digits of the loop, the high half of each byte before the low one.
pub hex_digits : List ℕ → List ℕ
hex_digits [] = []
hex_digits (n ∷ bin) = hex_digit (low_bits (shr n 4) 4) ∷ hex_digit (low_bits n 4) ∷ hex_digits bin

-- The whole output buffer of nhex_size bytes: the digits, then zero bytes, one at least.
pub bin2hex : ℕ → List ℕ → Option (List ℕ)
bin2hex nhex_size bin =
    if ltb nhex_size (length bin * 2 + 1)
    then none
    else some (hex_digits bin ++ replicate (nhex_size - length bin * 2) 0)

-- The value of one digit.
pub unhex_digit : ℕ → Option ℕ
unhex_digit c =
    if leb b'A' c && leb c b'F'
    then some (c + 0x0a - b'A')
    else if leb b'0' c && leb c b'9'
    then some (c - b'0')
    else none

-- (char)(high << 4), then the low half put in by |.
pub hex2bin_loop : ℕ → List ℕ → Option (List ℕ)
hex2bin_loop zero hex = some []
hex2bin_loop (suc n) (h ∷ l ∷ hex) = do
  high ← unhex_digit h
  low ← unhex_digit l
  rest ← hex2bin_loop n hex
  some (bit_or (high * 2 ^ 4 % 256) low ∷ rest)
hex2bin_loop (suc n) _ = none

-- The guard keeps the loop inside the input.
pub hex2bin : ℕ → List ℕ → Option (List ℕ)
hex2bin nbin_size hex =
    if ltb (length hex) (nbin_size * 2) then none else hex2bin_loop nbin_size hex
