-- ===== src/Handler.antt =====
-- What the handlers of src/proxynode/proxy_msg_parser.cpp share: messages, response headers and
-- the streams that they answer on.
pub mod Address
pub mod Join
pub mod SyncDown
pub mod Merge
pub mod Report
pub mod Parser
mod Tests
use kunlun.Prelude.Run.{Run, ret, fault, out_of_bounds, ◌>>=◌}
use kunlun.Serializer.{long2buff}
use kunlun.Prelude.{
  ℕ, ◌%◌, List, [], ◌∷◌, ◌++◌, Bool, low_bits, ◌==◌, if◌then◌else◌, ◌≡◌, ◌≢◌, refl, All, arith,
}

-- A pkg_message: pkg_len counts the bytes of its body and two more, and `body` lies behind
-- pkg_ptr + 2.
pub record Message : Type 0 where
  pub pkg_len : ℕ
  pub body : List ℕ

-- The socket under a CTimedStream: the error that its constructor throws, or 0, and what each
-- stream_send on it returns.
pub record Stream : Type 0 where
  pub open_error : ℕ
  pub header_sent : ℕ
  pub body_sent : ℕ

-- KL_PROXY_CMD_MASTER_RESP and KL_PROXY_CMD_SLAVER_RESP
abbrev pub response_cmd : Bool → ℕ
response_cmd is_master = if is_master then 3 else 4

-- The bytes of a pkg_header for a body of a length; the status is cut to a byte.
pub response_header : Bool → ℕ → ℕ → List ℕ
response_header is_master len status =
    long2buff len ++ response_cmd is_master ∷ low_bits status 8 ∷ []

-- The string at the head of a buffer; `strlen` past the end of the buffer is a fault.
unfoldable pub read_string : List ℕ → Run (List ℕ)
read_string [] = fault out_of_bounds
read_string (c ∷ cs) =
    let rest = (do s ← read_string cs; ret (c ∷ s)) in if c == 0 then ret [] else rest

-- A string with its zero is read, whatever follows.
pub read_string_lem :
    (name rest : List ℕ) → All (λ c. c ≢ 0) name → read_string (name ++ 0 ∷ rest) ≡ ret name
unfolding read_string
read_string_lem [] rest h = refl
read_string_lem (c ∷ name) rest (ne, h) = ground (arith, read_string_lem name rest h)

abbrev pub eacces : ℕ
eacces = 13
