-- ===== src/Serializer/Tests.antt =====
-- The codecs of src/common/common_protocol.h on concrete numbers.
use kunlun.Prelude.{◌≡◌, refl, [], ◌∷◌, ◌++◌, some, IsU32, IsU64, arith}
use kunlun.Serializer.{int2buff, long2buff, buff2int32, buff2int64}
use kunlun.Serializer.RoundTrip.{
  buff2int32-int2buff, buff2int64-long2buff, int2buff-buff2int32, long2buff-buff2int64,
}

-- The most significant byte stands first.
big_endian : int2buff 258 ≡ 0 ∷ 0 ∷ 1 ∷ 2 ∷ []
unfolding int2buff
big_endian = refl

buff2int32-int2buff_test : buff2int32 (int2buff 4294967295 ++ 9 ∷ []) ≡ some 4294967295
buff2int32-int2buff_test = buff2int32-int2buff 4294967295 (9 ∷ []) (omega arith)

buff2int64-long2buff_test : buff2int64 (long2buff 81985529216486895 ++ []) ≡ some 81985529216486895
buff2int64-long2buff_test = buff2int64-long2buff 81985529216486895 [] (omega arith)

four : buff2int32 (255 ∷ 0 ∷ 1 ∷ 2 ∷ []) ≡ some 4278190338
unfolding buff2int32
four = refl

four_written : (int2buff 4278190338 ≡ 255 ∷ 0 ∷ 1 ∷ 2 ∷ []) × IsU32 4278190338
four_written = int2buff-buff2int32 255 0 1 2 4278190338 (ground arith) four

eight : buff2int64 (0 ∷ 0 ∷ 0 ∷ 1 ∷ 0 ∷ 0 ∷ 0 ∷ 5 ∷ []) ≡ some 4294967301
unfolding buff2int64
eight = refl

eight_written : (long2buff 4294967301 ≡ 0 ∷ 0 ∷ 0 ∷ 1 ∷ 0 ∷ 0 ∷ 0 ∷ 5 ∷ []) × IsU64 4294967301
eight_written = long2buff-buff2int64 0 0 0 1 0 0 0 5 4294967301 (ground arith) eight
