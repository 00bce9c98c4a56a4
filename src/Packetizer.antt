-- ===== src/Packetizer.antt =====
-- CStreamMsgPacketizer::work of src/common/stream_msg_packetizer.cpp: packages cut out of the
-- bytes that a socket delivers. One call of `receive` stands for one stream_recv and the loop over
-- its bytes. Allocations of a size that is not negative succeed; a body has fewer than 2 ^ 31 bytes.
pub mod Sending
pub mod Pieces
pub mod Stuck
mod Tests
use kunlun.Prelude.Run.{Run, ret, fault, out_of_bounds, endless, uncaught, ◌>>=◌, or_fault}
use kunlun.Serializer.{buff2int64}
use kunlun.Prelude.{
  ℕ, zero, suc, ◌+◌, ◌-◌, ◌^◌, List, [], ◌∷◌, ◌++◌, Option, none, some, length, get_elem?, take,
  drop, replicate, leb, ltb, ◌==◌, if◌then◌else◌,
}

-- A pkg_message that is pushed: pkg_len and the bytes behind pkg_ptr.
pub record Package : Type 0 where
  pub pkg_len : ℕ
  pub bytes : List ℕ

-- m_nheader_recv, m_pkg_header as its ten bytes, m_nbody_recv, and m_pbody with the bytes that
-- have been written into it.
pub record Packetizer : Type 0 where
  pub nheader_recv : ℕ
  pub pkg_header : List ℕ
  pub nbody_recv : ℕ
  pub body : Option (List ℕ)

-- sizeof(pkg_header)
abbrev pub header_size : ℕ
header_size = 10

-- A packetizer between two packages.
abbrev pub idle : Packetizer
idle = record {
  nheader_recv = 0;
  pkg_header = replicate header_size 0;
  nbody_recv = 0;
  body = none;
}

-- memcpy to &m_pkg_header + m_nheader_recv. The sum counts in headers: with a part of the header
-- received already, the bytes go behind the object.
pub copy_header : Packetizer → List ℕ → Run Packetizer
copy_header s bytes =
    if s.nheader_recv == 0
    then ret (record s {
      nheader_recv = length bytes;
      pkg_header = bytes ++ drop (length bytes) s.pkg_header;
    })
    else fault out_of_bounds

-- new byte[nbytes_body + 2] for a body length from the header, with the two bytes written into it.
-- A length of 2 ^ 63 or more is negative.
pub new_body : Packetizer → ℕ → Run (List ℕ)
new_body s nbytes_body =
    if ltb nbytes_body (2 ^ 63)
    then (do
      cmd ← or_fault (get_elem? s.pkg_header 8) out_of_bounds
      status ← or_fault (get_elem? s.pkg_header 9) out_of_bounds
      ret (cmd ∷ status ∷ []))
    else (if ltb nbytes_body (2 ^ 64 - 2) then fault uncaught else fault out_of_bounds)

-- What a round of the loop over the received bytes comes to: a break, or the next round with the
-- bytes left and the package pushed, if there is one.
pub data Round : Type 0 where
  stop : Packetizer → Round
  go_on : Packetizer → List ℕ → Option Package → Round

-- The part of a round behind the header: the header is whole, `rest` is left of the bytes.
pub body_round : Packetizer → List ℕ → Run Round
body_round s rest = do
  nbytes_body ← or_fault (buff2int64 s.pkg_header) out_of_bounds
  bytes ← elim s.body [ none ↦ new_body s nbytes_body | some bytes ↦ ret bytes ]
  let left = nbytes_body - s.nbody_recv
  if ltb s.nbody_recv nbytes_body
      then (if ltb (length rest) left
          then ret (
              stop
                (record s { body = some (bytes ++ rest); nbody_recv = s.nbody_recv + length rest }))
          else ret (
              go_on idle (drop left rest)
                (some (record { pkg_len = nbytes_body + 2; bytes = bytes ++ take left rest }))))
      else ret (go_on (record s { body = some bytes }) rest none)

-- A round of the loop.
pub round : Packetizer → List ℕ → Run Round
round s bytes =
    let missing = header_size - s.nheader_recv in
    if ltb s.nheader_recv header_size
    then (if ltb (length bytes) missing then (do s' ← copy_header s bytes; ret (stop s')) else (do
      s' ← copy_header s (take missing bytes)
      body_round (record s' { nheader_recv = header_size }) (drop missing bytes)))
    else body_round s bytes

-- while(nbytes_recv > 0). A round that goes on without a byte taken is taken again for ever. Every
-- other round takes a byte, so there are at most as many rounds as bytes.
pub rounds : ℕ → Packetizer → List ℕ → Run (Packetizer × List Package)
rounds fuel s [] = ret (s, [])
rounds zero s (b ∷ bs) = fault endless
rounds (suc fuel) s (b ∷ bs) = do
  r ← round s (b ∷ bs)
  elim r [
    | stop s' ↦ ret (s', [])
    | go_on s' rest none ↦
        if leb (length (b ∷ bs)) (length rest) then fault endless else rounds fuel s' rest
    | go_on s' rest (some m) ↦ (do (s'', packages) ← rounds fuel s' rest; ret (s'', m ∷ packages))
  ]

-- One stream_recv and what it leads to.
pub receive : Packetizer → List ℕ → Run (Packetizer × List Package)
receive s bytes = rounds (length bytes) s bytes

-- Several of them.
pub receive_all : Packetizer → List (List ℕ) → Run (Packetizer × List Package)
receive_all s [] = ret (s, [])
receive_all s (bytes ∷ more) = do
  (s', first) ← receive s bytes
  (s'', later) ← receive_all s' more
  ret (s'', first ++ later)
