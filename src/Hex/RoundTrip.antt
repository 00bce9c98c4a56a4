-- ===== src/Hex/RoundTrip.antt =====
-- kl_bin2hex and kl_hex2bin of src/common/common_types.h undo one another.
use kunlun.Prelude.{
  ℕ, zero, suc, ◌+◌, ◌-◌, ◌*◌, ◌/◌, ◌%◌, ◌^◌, ◌<◌, ◌≡◌, refl, ap, ◌∙◌, bit_or, List, [], ◌∷◌, ◌++◌,
  some, Bool, Bool-cases, inl, inr, ltb, true, ◌&&◌, ◌==◌, All, IsByte, length, replicate,
  length-append, length-replicate, arith, >>=-eq-some,
}
use mathlib.Core.Path.{subst}
use mathlib.Core.List.{append-nil}
use mathlib.Core.Option.{some-injective}
use kunlun.Hex.{hex_digit, hex_digits, bin2hex, unhex_digit, hex2bin_loop, hex2bin}

-- A property of every pair of half bytes, checked by evaluation.
all_below : ℕ → (ℕ → Bool) → Bool
all_below zero p = true
all_below (suc n) p = p n && all_below n p

all_below-lt : (n : ℕ) (p : ℕ → Bool) (x : ℕ) → all_below n p ≡ true → x < n → p x ≡ true
unfolding all_below
all_below-lt zero p x h lt = absurd (omega arith)
all_below-lt (suc n) p x h lt = ground (arith, all_below-lt n p x)

join_table : all_below 256 (λ x. bit_or (x / 16 * 2 ^ 4 % 256) (x % 16) == x) ≡ true
unfolding all_below
join_table = refl

-- Two half bytes put together by |.
join_halves : (x : ℕ) → x < 256 → bit_or (x / 16 * 2 ^ 4 % 256) (x % 16) ≡ x
join_halves x h = ground (
  arith,
  all_below-lt 256 (λ (y : ℕ). bit_or (y / 16 * 2 ^ 4 % 256) (y % 16) == y) x join_table h,
)

unhex_digit-hex_digit : (n : ℕ) → n < 16 → unhex_digit (hex_digit n) ≡ some n
unfolding unhex_digit hex_digit
unhex_digit-hex_digit n h = ground arith

hex_digit-unhex_digit : (c n : ℕ) → unhex_digit c ≡ some n → (hex_digit n ≡ c) × (n < 16)
unfolding unhex_digit hex_digit
hex_digit-unhex_digit c n e = ground arith

length-hex_digits : (bin : List ℕ) → length (hex_digits bin) ≡ length bin * 2
unfolding hex_digits
length-hex_digits [] = refl
length-hex_digits (n ∷ bin) = omega (arith, length-hex_digits bin)

-- The buffer that is written has the size that is asked for.
pub length-bin2hex : (n : ℕ) (bin hex : List ℕ) → bin2hex n bin ≡ some hex → length hex ≡ n
unfolding bin2hex
length-bin2hex n bin hex e = elim (Bool-cases (ltb n (length bin * 2 + 1))) [
  | inl t ↦ cc (rw t at e)
  | inr t ↦
      let pad : List ℕ = replicate (n - length bin * 2) 0 in
      let whole : hex_digits bin ++ pad ≡ hex = some-injective _ _ (rw t at e) in
      let fits : length bin * 2 < n = ground (arith, t) in
      rw (← whole) (
        omega (
          arith,
          fits,
          length-append (hex_digits bin) pad,
          length-hex_digits bin,
          length-replicate (n - length bin * 2) zero,
        ))
]

hex2bin_loop-hex_digits :
    (bin rest : List ℕ)
    → All IsByte bin
    → hex2bin_loop (length bin) (hex_digits bin ++ rest) ≡ some bin
unfolding hex2bin_loop hex_digits
hex2bin_loop-hex_digits [] rest h = refl
hex2bin_loop-hex_digits (n ∷ bin) rest h =
    rw
      (
        unhex_digit-hex_digit (n / 16 % 16) (omega arith),
        unhex_digit-hex_digit (n % 16) (omega arith),
        hex2bin_loop-hex_digits bin rest h.1,
      )
      (ap (λ m. some (m ∷ bin)) (ground (arith, join_halves n h.0)))

-- The bytes that bin2hex writes into a buffer are read back from it.
pub hex2bin-bin2hex :
    (size : ℕ) (bin : List ℕ)
    → All IsByte bin
    → length bin * 2 < size
    → (hex : List ℕ) × (bin2hex size bin ≡ some hex)
      × (length hex ≡ size)
      × (hex2bin (length bin) hex ≡ some bin)
unfolding bin2hex hex2bin
hex2bin-bin2hex size bin h room =
    let pad : List ℕ = replicate (size - length bin * 2) 0 in
    let len : length (hex_digits bin ++ pad) ≡ size = omega (
      arith,
      length-append (hex_digits bin) pad,
      length-hex_digits bin,
      length-replicate (size - length bin * 2) (zero),
    ) in
    (hex_digits bin ++ pad, ground arith, len, ground (arith, hex2bin_loop-hex_digits bin pad h))

-- In the other direction: what hex2bin reads is bytes, as many as asked for, and bin2hex writes
-- the same digits of them again.
abbrev Reads : ℕ → List ℕ → List ℕ → Type 0
Reads n hex bin =
    (rest : List ℕ) × (hex ≡ hex_digits bin ++ rest) × (length bin ≡ n) × All IsByte bin

join_parts :
    (high low : ℕ)
    → high < 16
    → low < 16
    → (bit_or (high * 2 ^ 4 % 256) low / 16 % 16 ≡ high)
      × (bit_or (high * 2 ^ 4 % 256) low % 16 ≡ low)
      × (bit_or (high * 2 ^ 4 % 256) low < 256)
join_parts high low p q = ground (arith, join_halves (high * 16 + low) (omega arith))

Reads-step :
    (a b high low n : ℕ) (hex bin : List ℕ)
    → unhex_digit a ≡ some high
    → unhex_digit b ≡ some low
    → Reads n hex bin
    → Reads (suc n) (a ∷ b ∷ hex) (bit_or (high * 2 ^ 4 % 256) low ∷ bin)
unfolding hex_digits
Reads-step a b high low n hex bin ea eb (rest, r, len, bytes) =
    let (da, ha) = hex_digit-unhex_digit a high ea in
    let (db, hb) = hex_digit-unhex_digit b low eb in
    let (hi, lo, lt) = join_parts high low ha hb in
    (rest, rw (hi, lo, da, db, r), ap suc len, (lt, bytes))

hex2bin_loop-Reads : (n : ℕ) (hex bin : List ℕ) → hex2bin_loop n hex ≡ some bin → Reads n hex bin
unfolding hex2bin_loop
hex2bin_loop-Reads zero hex bin e =
    subst (Reads 0 hex) (some-injective _ _ e) (hex, unfold hex_digits in refl, refl, tt)
hex2bin_loop-Reads (suc n) (a ∷ b ∷ hex) bin e =
    let (high, ea, e1) = >>=-eq-some (unhex_digit a) _ e in
    let (low, eb, e2) = >>=-eq-some (unhex_digit b) _ e1 in
    let (rest, er, e3) = >>=-eq-some (hex2bin_loop n hex) _ e2 in
    subst (Reads (suc n) (a ∷ b ∷ hex)) (some-injective _ _ e3)
      (Reads-step a b high low n hex rest ea eb (hex2bin_loop-Reads n hex rest er))
hex2bin_loop-Reads (suc n) (a ∷ []) bin e = cc
hex2bin_loop-Reads (suc n) [] bin e = cc

empty_of_length {ℓ} : {A : Type ℓ} (xs : List A) → length xs ≡ 0 → xs ≡ []
empty_of_length [] h = refl
empty_of_length (x ∷ xs) h = absurd (omega arith)

bin2hex_of_Reads :
    (n : ℕ) (hex bin : List ℕ)
    → length hex ≡ n * 2
    → Reads n hex bin
    → (length bin ≡ n) × All IsByte bin × (bin2hex (n * 2 + 1) bin ≡ some (hex ++ 0 ∷ []))
unfolding bin2hex
bin2hex_of_Reads n hex bin len (rest, r, lb, bytes) =
    let none_left : rest ≡ [] =
      empty_of_length rest
        (omega (arith, ap length r, length-append (hex_digits bin) rest, length-hex_digits bin)) in
    let all : hex ≡ hex_digits bin = rw none_left at r ∙ append-nil (hex_digits bin) in
    let one : n * 2 + 1 - length bin * 2 ≡ 1 = omega arith in
    (lb, bytes, rw (all, one) (ground arith))

-- When hex2bin accepts a buffer of 2 * n digits, its result is n bytes, and bin2hex writes those
-- very digits and a zero byte from it into a buffer of 2 * n + 1.
pub bin2hex-hex2bin :
    (n : ℕ) (hex bin : List ℕ)
    → length hex ≡ n * 2
    → hex2bin n hex ≡ some bin
    → (length bin ≡ n) × All IsByte bin × (bin2hex (n * 2 + 1) bin ≡ some (hex ++ 0 ∷ []))
unfolding hex2bin
bin2hex-hex2bin n hex bin len e =
    bin2hex_of_Reads n hex bin len (hex2bin_loop-Reads n hex bin (ground arith))

-- bin2hex succeeds exactly on a buffer with room for the digits and a zero byte.
pub bin2hex_room :
    (size : ℕ) (bin : List ℕ)
    → length bin * 2 < size
    → bin2hex size bin ≡ some (hex_digits bin ++ replicate (size - length bin * 2) 0)
unfolding bin2hex
bin2hex_room size bin room = ground arith
