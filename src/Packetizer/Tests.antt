-- ===== src/Packetizer/Tests.antt =====
-- CStreamMsgPacketizer of src/common/stream_msg_packetizer.cpp on concrete streams.
use kunlun.Prelude.Run.{ret, fault, out_of_bounds, endless}
use kunlun.Prelude.{ℕ, ◌≡◌, refl, List, [], ◌∷◌, ◌++◌, map, arith}
use kunlun.Packetizer.{idle, receive, receive_all}
use kunlun.Packetizer.Sending.{Sent, header, package_of, IsSendable}
use kunlun.Packetizer.Sending.{Sent, header, package_of, IsSendable}
use kunlun.Packetizer.Pieces.{
  between, inside, done, whole, begin, middle, last, Cuts, no_more, next, receive_all-Cuts,
}
use kunlun.Packetizer.Stuck.{receive_cut_header, receive_empty_body, empty_message}

abbrev hello : Sent
hello = record { cmd = 5; status = 0; body = 1 ∷ 2 ∷ 3 ∷ [] }

abbrev bye : Sent
bye = record { cmd = 6; status = 1; body = 9 ∷ [] }

hello-IsSendable : IsSendable hello
hello-IsSendable = record { not_empty = omega arith; bounded = omega arith }

bye-IsSendable : IsSendable bye
bye-IsSendable = record { not_empty = omega arith; bounded = omega arith }

-- Two messages in three pieces: the first body comes in three parts, the second message whole.
abbrev pieces : List (List ℕ)
pieces = (header hello ++ 1 ∷ []) ∷ (2 ∷ []) ∷ ((3 ∷ []) ++ (header bye ++ (bye.body ++ []))) ∷ []

pieces-Cuts : Cuts between pieces (hello ∷ bye ∷ []) between
pieces-Cuts =
    next between (inside hello (1 ∷ [])) between _ _ [] (hello ∷ bye ∷ [])
      (begin hello (1 ∷ []) hello-IsSendable (omega arith))
      (next (inside hello (1 ∷ [])) (inside hello (1 ∷ 2 ∷ [])) between _ _ [] (hello ∷ bye ∷ [])
        (middle hello (1 ∷ []) (2 ∷ []) hello-IsSendable (omega arith) (omega arith))
        (next (inside hello (1 ∷ 2 ∷ [])) between between _ _ (hello ∷ bye ∷ []) []
          (last hello (1 ∷ 2 ∷ []) (3 ∷ []) _ (bye ∷ []) between hello-IsSendable (omega arith) refl
            (whole bye [] [] between bye-IsSendable done))
          (no_more between between refl)))

receive_all-Cuts_example : receive_all idle pieces ≡ ret (idle, map package_of (hello ∷ bye ∷ []))
receive_all-Cuts_example = receive_all-Cuts pieces-Cuts

receive_cut_header_example : receive_all idle ((0 ∷ 0 ∷ []) ∷ (0 ∷ []) ∷ []) ≡ fault out_of_bounds
receive_cut_header_example =
    receive_cut_header (0 ∷ 0 ∷ []) (0 ∷ []) (omega arith) (omega arith) (omega arith)

receive_empty_body_test : receive idle (header (empty_message 3 0) ++ 7 ∷ []) ≡ fault endless
receive_empty_body_test = receive_empty_body 3 0 7 []
