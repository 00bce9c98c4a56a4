-- ===== src/Hex/Tests.antt =====
-- kl_bin2hex and kl_hex2bin of src/common/common_types.h on concrete bytes.
use kunlun.Prelude.{ℕ, ◌≡◌, ◌*◌, ◌+◌, refl, List, [], ◌∷◌, ◌++◌, All, IsByte, some, length, arith}
use kunlun.Hex.{bin2hex, hex2bin, hex2bin_loop, unhex_digit}
use kunlun.Hex.RoundTrip.{hex2bin-bin2hex, bin2hex-hex2bin}

abbrev bytes : List ℕ
bytes = 175 ∷ 7 ∷ []

-- "AF07" and a zero byte.
abbrev digits : List ℕ
digits = 65 ∷ 70 ∷ 48 ∷ 55 ∷ []

hex2bin-bin2hex_example :
    (hex : List ℕ) × (bin2hex 5 bytes ≡ some hex)
    × (length hex ≡ 5)
    × (hex2bin (length bytes) hex ≡ some bytes)
hex2bin-bin2hex_example = hex2bin-bin2hex 5 bytes (ground arith) (omega arith)

read : hex2bin 2 digits ≡ some bytes
unfolding hex2bin hex2bin_loop unhex_digit
read = refl

bin2hex-hex2bin_test :
    (length bytes ≡ 2) × All IsByte bytes × (bin2hex (2 * 2 + 1) bytes ≡ some (digits ++ 0 ∷ []))
bin2hex-hex2bin_test = bin2hex-hex2bin 2 digits bytes refl read
