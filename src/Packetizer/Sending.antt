-- ===== src/Packetizer/Sending.antt =====
-- Messages as they are sent, and the rounds of CStreamMsgPacketizer::work of
-- src/common/stream_msg_packetizer.cpp that take a header or a piece of a body.
use kunlun.Prelude.Run.{ret}
use kunlun.Serializer.{long2buff, buff2int64}
use kunlun.Serializer.RoundTrip.{buff2int64-long2buff}
use kunlun.Packetizer.{
  Package, Packetizer, stop, go_on, header_size, idle, copy_header, new_body, body_round, round,
}
use kunlun.Prelude.{
  ℕ, zero, suc, ◌+◌, ◌-◌, ◌^◌, ◌<◌, ◌≡◌, refl, ap, List, [], ◌∷◌, ◌++◌, some, length, take, drop,
  length-append, arith,
}

-- A message as it is sent: a pkg_header and the body.
pub record Sent : Type 0 where
  pub cmd : ℕ
  pub status : ℕ
  pub body : List ℕ

abbrev pub header : Sent → List ℕ
header m = long2buff (length m.body) ++ m.cmd ∷ m.status ∷ []

-- The package that the receiver makes of it.
abbrev pub package_of : Sent → Package
package_of m = record { pkg_len = length m.body + 2; bytes = m.cmd ∷ m.status ∷ m.body }

-- A body that is not empty, and below the bound of the model.
pub record IsSendable (m : Sent) : Type 0 where
  pub not_empty : 0 < length m.body
  pub bounded : length m.body < 2 ^ 31

-- The packetizer in the middle of a body, of which the bytes `got` have come.
abbrev pub waiting : Sent → List ℕ → Packetizer
waiting m got = record {
  nheader_recv = header_size;
  pkg_header = header m;
  nbody_recv = length got;
  body = some (m.cmd ∷ m.status ∷ got);
}

header-length : (m : Sent) → IsSendable m → buff2int64 (header m) ≡ some (length m.body)
header-length m ok = buff2int64-long2buff (length m.body) (m.cmd ∷ m.status ∷ []) (omega arith)

take-append : (xs ys : List ℕ) (n : ℕ) → n ≡ length xs → take n (xs ++ ys) ≡ xs
take-append [] ys zero h = refl
take-append [] ys (suc n) h = absurd (omega arith)
take-append (x ∷ xs) ys zero h = absurd (omega arith)
take-append (x ∷ xs) ys (suc n) h = ap (◌∷◌ x) (take-append xs ys n (omega arith))

drop-append : (xs ys : List ℕ) (n : ℕ) → n ≡ length xs → drop n (xs ++ ys) ≡ ys
drop-append [] ys zero h = refl
drop-append [] ys (suc n) h = absurd (omega arith)
drop-append (x ∷ xs) ys zero h = absurd (omega arith)
drop-append (x ∷ xs) ys (suc n) h = drop-append xs ys n (omega arith)

-- A piece of the body that does not end it.
pub waiting_more :
    (m : Sent) (got piece : List ℕ)
    → IsSendable m
    → length got + length piece < length m.body
    → body_round (waiting m got) piece ≡ ret (stop (waiting m (got ++ piece)))
unfolding body_round
waiting_more m got piece ok h = ground (arith, header-length m ok, length-append got piece)

-- A piece that ends it, with bytes behind.
pub waiting_end :
    (m : Sent) (got piece rest : List ℕ)
    → IsSendable m
    → got ++ piece ≡ m.body
    → 0 < length piece
    → body_round (waiting m got) (piece ++ rest) ≡ ret (go_on idle rest (some (package_of m)))
unfolding body_round
waiting_end m got piece rest ok e h =
    let len : length m.body - length got ≡ length piece =
      omega (arith, ap (λ (xs : List ℕ). length xs) e, length-append got piece) in
    ground (
      arith,
      header-length m ok,
      len,
      length-append piece rest,
      length-append got piece,
      take-append piece rest (length m.body - length got) len,
      drop-append piece rest (length m.body - length got) len,
    )

-- A header with what follows it, taken by a packetizer between two packages.
pub header_first :
    (m : Sent) (rest : List ℕ)
    → IsSendable m
    → round idle (header m ++ rest) ≡ body_round (waiting m []) rest
unfolding round copy_header body_round new_body long2buff
header_first m rest ok = ground (arith, header-length m ok)
