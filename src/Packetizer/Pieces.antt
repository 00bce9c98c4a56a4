-- ===== src/Packetizer/Pieces.antt =====
-- The packages that CStreamMsgPacketizer of src/common/stream_msg_packetizer.cpp cuts out of a
-- stream, against the encoding of packages as the senders of the repository write them.
use kunlun.Prelude.Run.{ret}
use mathlib.Core.List.{map-append}
use kunlun.Serializer.{long2buff}
use kunlun.Packetizer.{
  Package, Packetizer, stop, go_on, idle, body_round, round, rounds, receive, receive_all,
}
use kunlun.Prelude.{
  ℕ, zero, suc, ◌+◌, ◌<◌, ◌≤◌, ◌≡◌, refl, sym, ap, ◌∙◌, List, [], ◌∷◌, ◌++◌, some, length,
  length-append, map, arith,
}
use kunlun.Packetizer.Sending.{
  Sent, header, package_of, IsSendable, waiting, waiting_more, waiting_end, header_first,
}

-- Where a packetizer stands in the stream: between two messages, or with the first bytes of a
-- body received.
pub data Place : Type 0 where
  between : Place
  inside : Sent → List ℕ → Place

abbrev pub state_of : Place → Packetizer
state_of between = idle
state_of (inside m got) = waiting m got

-- How the bytes of one stream_recv continue a stream of messages: the place before, the bytes, the
-- messages that they complete, the place after. No header is cut in two.
pub data Cut : Place → List ℕ → List Sent → Place → Type 0 where
  done : Cut between [] [] between
  whole :
      (m : Sent) (bytes : List ℕ) (ms : List Sent) (q : Place)
      → IsSendable m
      → Cut between bytes ms q
      → Cut between (header m ++ (m.body ++ bytes)) (m ∷ ms) q
  begin :
      (m : Sent) (piece : List ℕ)
      → IsSendable m
      → length piece < length m.body
      → Cut between (header m ++ piece) [] (inside m piece)
  middle :
      (m : Sent) (got piece : List ℕ)
      → IsSendable m
      → 0 < length piece
      → length got + length piece < length m.body
      → Cut (inside m got) piece [] (inside m (got ++ piece))
  last :
      (m : Sent) (got piece bytes : List ℕ) (ms : List Sent) (q : Place)
      → IsSendable m
      → 0 < length piece
      → got ++ piece ≡ m.body
      → Cut between bytes ms q
      → Cut (inside m got) (piece ++ bytes) (m ∷ ms) q

rounds_stop :
    (fuel : ℕ) (s s' : Packetizer) (bytes : List ℕ)
    → 0 < length bytes
    → length bytes ≤ fuel
    → round s bytes ≡ ret (stop s')
    → rounds fuel s bytes ≡ ret (s', [])
unfolding rounds
rounds_stop fuel s s' [] ne le e = elim ne [ ]
rounds_stop zero s s' (b ∷ bs) ne le e = elim le [ ]
rounds_stop (suc fuel) s s' (b ∷ bs) ne le e = rw e

rounds_push :
    (fuel : ℕ) (s s' s'' : Packetizer) (bytes rest : List ℕ) (m : Package) (ms : List Package)
    → 0 < length bytes
    → round s bytes ≡ ret (go_on s' rest (some m))
    → rounds fuel s' rest ≡ ret (s'', ms)
    → rounds (suc fuel) s bytes ≡ ret (s'', m ∷ ms)
unfolding rounds
rounds_push fuel s s' s'' [] rest m ms ne e ih = elim ne [ ]
rounds_push fuel s s' s'' (b ∷ bs) rest m ms ne e ih = rw (e, ih)

length-header : (m : Sent) (bytes : List ℕ) → length (header m ++ bytes) ≡ 10 + length bytes
unfolding long2buff
length-header m bytes = omega arith

round-waiting :
    (m : Sent) (got bytes : List ℕ) → round (waiting m got) bytes ≡ body_round (waiting m got) bytes
unfolding round
round-waiting m got bytes = refl

rounds-Cut :
    (fuel : ℕ) {p q : Place} {bytes : List ℕ} {ms : List Sent}
    → Cut p bytes ms q
    → length bytes ≤ fuel
    → rounds fuel (state_of p) bytes ≡ ret (state_of q, map package_of ms)
rounds-Cut fuel done le = unfold rounds in refl
rounds-Cut zero (whole m bytes ms q ok c) le =
    absurd (omega (arith, length-header m (m.body ++ bytes)))
rounds-Cut (suc fuel) (whole m bytes ms q ok c) le =
    rounds_push fuel idle idle _ _ bytes (package_of m) _
      (omega (arith, length-header m (m.body ++ bytes)))
      (header_first m (m.body ++ bytes) ok ∙ waiting_end m [] m.body bytes ok refl ok.not_empty)
      (rounds-Cut fuel c
        (omega (arith, length-header m (m.body ++ bytes), length-append m.body bytes)))
rounds-Cut fuel (begin m piece ok lt) le =
    rounds_stop fuel idle _ _ (omega (arith, length-header m piece)) le
      (header_first m piece ok ∙ waiting_more m [] piece ok (omega arith))
rounds-Cut fuel (middle m got piece ok ne lt) le =
    rounds_stop fuel (waiting m got) _ piece ne le
      (round-waiting m got piece ∙ waiting_more m got piece ok lt)
rounds-Cut zero (last m got piece bytes ms q ok ne e c) le =
    absurd (omega (arith, length-append piece bytes))
rounds-Cut (suc fuel) (last m got piece bytes ms q ok ne e c) le =
    rounds_push fuel (waiting m got) idle _ _ bytes (package_of m) _
      (omega (arith, length-append piece bytes))
      (round-waiting m got (piece ++ bytes) ∙ waiting_end m got piece bytes ok e ne)
      (rounds-Cut fuel c (omega (arith, length-append piece bytes)))

-- A sequence of stream_recvs that continue a stream of messages.
pub data Cuts : Place → List (List ℕ) → List Sent → Place → Type 0 where
  no_more : (p q : Place) → p ≡ q → Cuts p [] [] q
  next :
      (p q r : Place) (bytes : List ℕ) (more : List (List ℕ)) (ms ns : List Sent)
      → Cut p bytes ms q
      → Cuts q more ns r
      → Cuts p (bytes ∷ more) (ms ++ ns) r

-- However a stream of messages is cut into stream_recvs, as long as no header is cut, the receiver
-- pushes exactly the packages of the messages that the bytes complete, in order, and stands at the
-- same place of the stream afterwards. Bodies are not empty and below the bound of the model.
pub receive_all-Cuts :
    {p q : Place} {chunks : List (List ℕ)} {ms : List Sent}
    → Cuts p chunks ms q
    → receive_all (state_of p) chunks ≡ ret (state_of q, map package_of ms)
unfolding receive_all receive
receive_all-Cuts (no_more p q e) = ap (λ (r : Place). ret (state_of r, [])) e
receive_all-Cuts (next p q r bytes more ms ns c cs) =
    rw (rounds-Cut (length bytes) c (omega arith), receive_all-Cuts cs)
      (ap (λ (xs : List Package). ret (state_of r, xs)) (sym (map-append package_of ms ns)))
