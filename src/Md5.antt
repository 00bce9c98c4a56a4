-- ===== src/Md5.antt =====
-- The class MD5 of src/common/hash.h and hash.cpp. Words are numbers below 2 ^ 32; a block is a
-- list of 64 bytes. Lengths of inputs stay below 2 ^ 32.
pub mod Tables
use Tables.{round1, round2, round3, round4}
use kunlun.Prelude.{
  ℕ, zero, suc, ◌+◌, ◌-◌, ◌*◌, ◌/◌, ◌%◌, ◌^◌, bit_and, bit_or, bit_xor, List, [], ◌∷◌, ◌++◌, Bool,
  true, false, length, take, drop, replicate, shr, low_bits, leb, ltb, ◌==◌, if◌then◌else◌,
}

pub record Words : Type 0 where
  pub a : ℕ
  pub b : ℕ
  pub c : ℕ
  pub d : ℕ

pub record Md5 : Type 0 where
  pub state : Words
  pub count0 : ℕ
  pub count1 : ℕ
  pub buffer : List ℕ
  pub finished : Bool
  pub digest_bytes : List ℕ

abbrev word : ℕ → ℕ
word x = x % 2 ^ 32

-- ~x
abbrev flip : ℕ → ℕ
flip x = 2 ^ 32 - 1 - x

-- F, G, H and I of the source.
basic_f : ℕ → ℕ → ℕ → ℕ
basic_f x y z = bit_or (bit_and x y) (bit_and (flip x) z)

basic_g : ℕ → ℕ → ℕ → ℕ
basic_g x y z = bit_or (bit_and x z) (bit_and y (flip z))

basic_h : ℕ → ℕ → ℕ → ℕ
basic_h x y z = bit_xor (bit_xor x y) z

basic_i : ℕ → ℕ → ℕ → ℕ
basic_i x y z = bit_xor y (bit_or x (flip z))

-- ROTATE_LEFT
rotate_left : ℕ → ℕ → ℕ
rotate_left x n = bit_or (word (x * 2 ^ n)) (x / 2 ^ (32 - n))

nth : List ℕ → ℕ → ℕ
nth [] i = 0
nth (x ∷ xs) zero = x
nth (x ∷ xs) (suc i) = nth xs i

-- FF, GG, HH or II, and the turn of the four names before the next step.
round_step : (ℕ → ℕ → ℕ → ℕ) → List ℕ → ℕ × ℕ × ℕ → Words → Words
unfolding rotate_left nth
round_step f xs (k, s, ac) w =
    let sum = word (w.a + word (word (f w.b w.c w.d + nth xs k) + ac)) in
    record { a = w.d; b = word (rotate_left sum s + w.b); c = w.b; d = w.c }

run_round : (ℕ → ℕ → ℕ → ℕ) → List ℕ → List (ℕ × ℕ × ℕ) → Words → Words
unfolding round_step
run_round f xs [] w = w
run_round f xs (t ∷ ts) w = run_round f xs ts (round_step f xs t w)

-- MD5::decode: little-endian words.
pub decode : List ℕ → List ℕ
decode (b0 ∷ b1 ∷ b2 ∷ b3 ∷ rest) =
    bit_or (bit_or (bit_or b0 (b1 * 2 ^ 8)) (b2 * 2 ^ 16)) (b3 * 2 ^ 24) ∷ decode rest
decode _ = []

-- MD5::encode
pub encode : List ℕ → List ℕ
encode [] = []
encode (w ∷ ws) =
    low_bits w 8 ∷ low_bits (shr w 8) 8 ∷ low_bits (shr w 16) 8 ∷ low_bits (shr w 24) 8 ∷ encode ws

-- MD5::transform on the state.
pub transform : List ℕ → Words → Words
unfolding basic_f basic_g basic_h basic_i run_round decode
transform block w =
    let xs = decode block in
    let w1 = run_round basic_f xs round1 w in
    let w2 = run_round basic_g xs round2 w1 in
    let w3 = run_round basic_h xs round3 w2 in
    let w4 = run_round basic_i xs round4 w3 in
    record {
      a = word (w.a + w4.a);
      b = word (w.b + w4.b);
      c = word (w.c + w4.c);
      d = word (w.d + w4.d);
    }

-- memcpy of bytes into the buffer, from an index on.
pub blit : List ℕ → ℕ → List ℕ → List ℕ
blit buffer index bytes = take index buffer ++ bytes ++ drop (index + length bytes) buffer

-- for(i = part_len; i + 63 < length; i += 64) transform(&input[i]), on the input from i on. The
-- result has the rest of the input. Each round takes 64 bytes, so its length is enough fuel.
pub transform_all : ℕ → List ℕ → Words → Words × List ℕ
transform_all zero input w = (w, input)
transform_all (suc fuel) input w =
    let more = transform_all fuel (drop 64 input) (transform (take 64 input) w) in
    if ltb 63 (length input) then more else (w, input)

-- The bytes that the buffer holds: (m_count[0] >> 3) & 0x3f
pub index_of : Md5 → ℕ
index_of m = low_bits (shr m.count0 3) 6

-- The new m_count after `length` more bytes.
pub add_count : Md5 → ℕ → Md5
add_count m n =
    let bits = word (n * 2 ^ 3) in
    let low = word (m.count0 + bits) in
    let carried = if ltb low bits then word (m.count1 + 1) else m.count1 in
    record m { count0 = low; count1 = word (carried + shr n 29) }

pub update : Md5 → List ℕ → Md5
unfolding index_of add_count blit transform_all
update m input =
    let index = index_of m in
    let part_len = 64 - index in
    let counted = add_count m (length input) in
    if leb part_len (length input)
    then (let block = blit m.buffer index (take part_len input) in
        let (state, rest) =
          transform_all (length input) (drop part_len input) (transform block m.state) in
        record counted { state = state; buffer = blit block 0 rest; finished = false })
    else record counted { buffer = blit m.buffer index input; finished = false }

abbrev padding : List ℕ
padding = 0x80 ∷ replicate 63 0

abbrev words : Words → List ℕ
words w = w.a ∷ w.b ∷ w.c ∷ w.d ∷ []

-- MD5::final: the padding and the length go in, the digest comes out, and state and count return
-- to what they were.
pub final : Md5 → Md5
final m =
    let index = index_of m in
    let part_len = if ltb index 56 then 56 - index else 120 - index in
    let padded = update m (take part_len padding) in
    let closed = update padded (encode (m.count0 ∷ m.count1 ∷ [])) in
    record closed {
      state = m.state;
      count0 = m.count0;
      count1 = m.count1;
      digest_bytes = encode (words closed.state);
    }

-- MD5::reset. The buffer and the digest keep what they hold.
pub reset : Md5 → Md5
reset m = record m {
  finished = false;
  count0 = 0;
  count1 = 0;
  state = record { a = 0x67452301; b = 0xefcdab89; c = 0x98badcfe; d = 0x10325476 };
}

-- MD5::digest. The flag is set before final, which ends with it cleared by its updates.
pub digest : Md5 → Md5
digest m = if m.finished then m else final (record m { finished = true })

-- MD5::update of a CFile whose reads all succeed: KL_COMMON_BUF_SIZE bytes at a time. Each round takes
-- a byte at least, so the length of the file is enough fuel.
pub update_file : ℕ → Md5 → List ℕ → Md5
update_file zero m bytes = m
update_file (suc fuel) m bytes =
    let rest = update_file fuel (update m (take 4096 bytes)) (drop 4096 bytes) in
    if length bytes == 0 then m else rest
