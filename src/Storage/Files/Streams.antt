-- ===== src/Storage/Files/Streams.antt =====
-- What the transfers of src/common/file_writer_stream.cpp and file_reader_stream.cpp move.
use kunlun.Prelude.Run.{ret, Run-cases}
use kunlun.Proxy.{same_bytes}
use kunlun.Storage.Files.{
  Files, FileCalls, Moved, moved, stopped, eio, transfer, signed_len, content, write_file,
  stream_writein, stream_readout,
}
use kunlun.Prelude.{
  if◌then◌else◌, ◌==◌, true, ℕ, zero, suc, ◌-◌, ◌^◌, ◌<◌, ◌≤◌, ◌≡◌, inl, inr, refl, ap, List, [],
  ◌∷◌, some, length, take, arith,
}

pub same_bytes_refl : (xs : List ℕ) → same_bytes xs xs ≡ true
unfolding same_bytes
same_bytes_refl [] = refl
same_bytes_refl (x ∷ xs) = ground (arith, same_bytes_refl xs)

-- What sendfile promises: a call moves at least one byte and no more than it is asked for.
abbrev pub IsWithin : List Moved → ℕ → Type 0
IsWithin calls zero = Unit {0}
IsWithin [] (suc left) = Unit {0}
IsWithin (stopped errno ∷ calls) (suc left) = Unit {0}
IsWithin (moved k ∷ calls) (suc left) = (0 < k) × (k ≤ suc left) × IsWithin calls (suc left - k)

-- Calls that move all of the bytes left.
abbrev pub Moves : List Moved → ℕ → Type 0
Moves calls zero = Unit {0}
Moves [] (suc left) = ⊥
Moves (stopped errno ∷ calls) (suc left) = ⊥
Moves (moved k ∷ calls) (suc left) = (0 < k) × (k ≤ suc left) × Moves calls (suc left - k)

pub transfer-Moves : (calls : List Moved) (n : ℕ) → Moves calls n → transfer calls n ≡ ret (n, 0)
unfolding transfer
transfer-Moves calls zero h = refl
transfer-Moves [] (suc n) h = elim h [ ]
transfer-Moves (stopped errno ∷ calls) (suc n) h = elim h [ ]
transfer-Moves (moved k ∷ calls) (suc n) (pos, le, h) =
    rw (transfer-Moves calls (suc n - k) h) (ap (λ (m : ℕ). ret (m, 0)) (omega arith))

-- A transfer that reports no error has moved everything.
pub transfer_whole :
    (calls : List Moved) (n m : ℕ) → IsWithin calls n → transfer calls n ≡ ret (m, 0) → m ≡ n
unfolding transfer
transfer_whole calls zero m h e = ground arith
transfer_whole [] (suc n) m h e = cc
transfer_whole (stopped errno ∷ calls) (suc n) m h e = ground arith
transfer_whole (moved k ∷ calls) (suc n) m (pos, le, h) e =
    elim (Run-cases (transfer calls (suc n - k))) [
      | inl ((i, code), e') ↦ ground (arith, transfer_whole calls (suc n - k) i h)
      | inr (x, e') ↦ ground arith
    ]

-- The bytes at hand are enough for the transfer, and it moves them all.
abbrev pub Delivers : FileCalls → ℕ → Type 0
Delivers io n = (io.open_error ≡ 0) × Moves io.calls n × (n < 2 ^ 63)

-- The code of a transfer that sendfile refuses.
abbrev pub refusal_code : FileCalls → ℕ
refusal_code io = if io.refusal == 0 then eio else io.refusal

-- A file that is opened to receive bytes keeps what it has, and nothing is received.
pub stream_writein_lem :
    (files : Files) (io : FileCalls) (path : List ℕ) (n : ℕ)
    → io.open_error ≡ 0
    → n < 2 ^ 63
    → stream_writein files io path n
      ≡ ret (write_file files path (content (files path)), if n == 0 then 0 else refusal_code io)
unfolding stream_writein transfer
stream_writein_lem files io path zero opened low = rw opened refl
stream_writein_lem files io path (suc n) opened low =
    let small : signed_len (suc n) ≡ suc n = ground (arith, low) in
    rw (opened, small) (ground arith)

pub take_all {ℓ} : {A : Type ℓ} (xs : List A) → take (length xs) xs ≡ xs
take_all [] = refl
take_all (x ∷ xs) = ap (◌∷◌ x) (take_all xs)

pub stream_readout_lem :
    (files : Files) (io : FileCalls) (stat_error : ℕ) (path bytes : List ℕ)
    → files path ≡ some bytes
    → stat_error ≡ 0
    → Delivers io (length bytes)
    → stream_readout files io stat_error path ≡ ret (bytes, 0)
unfolding stream_readout
stream_readout_lem files io stat_error path bytes found stat (opened, moves, low) =
    rw (found, stream_readout)
      (rw (opened, stat, transfer-Moves io.calls (length bytes) moves, take_all bytes) refl)
