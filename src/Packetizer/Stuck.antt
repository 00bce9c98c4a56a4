-- ===== src/Packetizer/Stuck.antt =====
-- Streams that CStreamMsgPacketizer of src/common/stream_msg_packetizer.cpp does not survive.
use kunlun.Prelude.Run.{ret, fault, out_of_bounds, endless}
use kunlun.Packetizer.{
  Packetizer, go_on, header_size, idle, copy_header, new_body, body_round, round, rounds, receive,
  receive_all,
}
use kunlun.Serializer.{long2buff, buff2int64}
use kunlun.Serializer.RoundTrip.{buff2int64-long2buff}
use kunlun.Packetizer.Sending.{Sent, header}
use kunlun.Prelude.{ℕ, ◌<◌, ◌≡◌, List, [], ◌∷◌, ◌++◌, length, some, none, arith}

-- When the first stream_recv of a package ends inside the header, the next one writes behind
-- m_pkg_header.
pub receive_cut_header :
    (part more : List ℕ)
    → 0 < length part
    → length part < header_size
    → 0 < length more
    → receive_all idle (part ∷ more ∷ []) ≡ fault out_of_bounds
unfolding receive_all receive rounds round copy_header
receive_cut_header [] more ne lt ne' = elim ne [ ]
receive_cut_header (b ∷ bs) [] ne lt ne' = elim ne' [ ]
receive_cut_header (b ∷ bs) (c ∷ cs) ne lt ne' = ground arith

abbrev pub empty_message : ℕ → ℕ → Sent
empty_message cmd status = record { cmd = cmd; status = status; body = [] }

-- The packetizer with the header of an empty message received.
abbrev after_header : ℕ → ℕ → Packetizer
after_header cmd status = record {
  nheader_recv = header_size;
  pkg_header = header (empty_message cmd status);
  nbody_recv = 0;
  body = some (cmd ∷ status ∷ []);
}

no_length : (cmd status : ℕ) → buff2int64 (header (empty_message cmd status)) ≡ some 0
no_length cmd status = buff2int64-long2buff 0 (cmd ∷ status ∷ []) (omega arith)

empty_first :
    (cmd status : ℕ) (bytes : List ℕ)
    → round idle (header (empty_message cmd status) ++ bytes)
      ≡ ret (go_on (after_header cmd status) bytes none)
unfolding round copy_header body_round new_body long2buff
empty_first cmd status bytes = ground (arith, no_length cmd status)

empty_again :
    (cmd status : ℕ) (bytes : List ℕ)
    → round (after_header cmd status) bytes ≡ ret (go_on (after_header cmd status) bytes none)
unfolding round body_round
empty_again cmd status bytes = rw (no_length cmd status)

-- A package of body length 0 with a byte behind it in the same stream_recv: the loop does not end.
pub receive_empty_body :
    (cmd status b : ℕ) (bs : List ℕ)
    → receive idle (header (empty_message cmd status) ++ b ∷ bs) ≡ fault endless
unfolding receive rounds long2buff
receive_empty_body cmd status b bs =
    ground (arith, empty_first cmd status (b ∷ bs), empty_again cmd status (b ∷ bs))
