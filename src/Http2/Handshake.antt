-- ===== src/Http2/Handshake.antt =====
-- pajamax/src/http2.rs, `handshake`: the client's magic and the SETTINGS that answer it.
use pajamax.Prelude.{
  false, ◌≤◌, lt→ltb, zero, suc, take, drop, replicate, ◌+◌, Bool-cases, inl, inr, ltb→lt,
  not_ltb→le, length-take, le→not_ltb, ℕ, ◌%◌, ◌^◌, ◌<◌, ◌≡◌, ◌≢◌, refl, ap, arith, List, [], ◌∷◌,
  ◌++◌, Bytes, length, ltb, ◌==◌, if◌then◌else◌, bytes_eq,
}
use pajamax.Http2.{build_settings, frame_bytes, FrameKind, to_be_bytes, to_be_bytes16}
use pajamax.Http2.Build.{build_settings_lem}
use pajamax.Outcome.{stuck, Outcome, ok, err, Error, invalid_http2, ◌>>=◌}

-- The bytes of "PRI * HTTP/2.0\r\n\r\nSM\r\n\r\n".
abbrev pub magic : Bytes
magic =
    0x50 ∷ 0x52 ∷ 0x49 ∷ 0x20 ∷ 0x2a ∷ 0x20 ∷ 0x48 ∷ 0x54 ∷ 0x54 ∷ 0x50 ∷ 0x2f ∷ 0x32 ∷ 0x2e ∷ 0x30
    ∷ 0x0d ∷ 0x0a ∷ 0x0d ∷ 0x0a ∷ 0x53 ∷ 0x4d ∷ 0x0d ∷ 0x0a ∷ 0x0d ∷ 0x0a ∷ []

-- What the socket brings: bytes that have arrived together, or an error. Past the last entry, and
-- where an entry is empty, the stream is at its end.
pub data Read : Type 0 where
  bytes : Bytes → Read
  fault : Error → Read

-- What a read leaves of the bytes that had arrived.
left_over : Bytes → List Read → List Read
left_over [] reads = reads
left_over (b ∷ c) reads = bytes (b ∷ c) ∷ reads

-- `stream.read(buf)`: at most as many bytes as the buffer has room for, none if it has none.
unfoldable pub read_into : ℕ → List Read → Outcome (Bytes × List Read)
unfolding left_over
read_into size [] = ok ([], [])
read_into size (fault e ∷ reads) = err e
read_into size (bytes c ∷ reads) = ok (take size c, left_over (drop size c) reads)

closed_early : Error
closed_early = invalid_http2 "connection closed during handshake"

-- The loop that reads the magic. `input.split_off(total)` is the buffer that the read fills: of the
-- 24 bytes before the first read, and empty from the second on, where `input` has `total` bytes.
-- Each round adds a byte to `total`, so 24 rounds are enough.
unfoldable pub read_magic : ℕ → Bytes → ℕ → List Read → Outcome Bytes
unfolding closed_early read_into
read_magic zero input total reads = if ltb total 24 then stuck else ok input
read_magic (suc fuel) input total reads =
    let round = (do
      (returned, rest) ← read_into (length (drop total input)) reads
      if length returned == 0
          then err closed_early
          else read_magic fuel (take total input ++ returned) (total + length returned) rest) in
    if ltb total 24 then round else ok input

-- What is sent: two SETTINGS frames.
unfoldable pub settings_sent : ℕ → ℕ → Bytes
settings_sent max_concurrent_streams max_frame_size =
    build_settings 5 (max_frame_size % 2 ^ 32)
      (build_settings 3 (max_concurrent_streams % 2 ^ 32) [])

-- `handshake`: the bytes that it writes, if the write succeeds.
unfoldable pub handshake : List Read → ℕ → ℕ → Outcome Bytes
unfolding read_magic
handshake reads max_concurrent_streams max_frame_size = do
  input ← read_magic 24 (replicate 24 0) 0 reads
  if bytes_eq input magic
      then ok (settings_sent max_concurrent_streams max_frame_size)
      else err (invalid_http2 "invalid handshake message")

-- What a read into an empty buffer ends the handshake with.
abbrev pub empty_read : List Read → Outcome Bytes
empty_read (fault e ∷ reads) = err e
empty_read _ = err (invalid_http2 "connection closed during handshake")

magic_step :
    (fuel : ℕ) (input : Bytes) (total : ℕ) (reads : List Read)
    → total < 24
    → read_magic (suc fuel) input total reads ≡ (
        read_into (length (drop total input)) reads >>= λ r.
        if length r.0 == 0
        then err (invalid_http2 "connection closed during handshake")
        else read_magic fuel (take total input ++ r.0) (total + length r.0) r.1)
unfolding read_magic closed_early
magic_step fuel input total reads h = rw (lt→ltb _ _ h) refl

magic_done :
    (fuel : ℕ) (input : Bytes) (total : ℕ) (reads : List Read)
    → 24 ≤ total
    → read_magic fuel input total reads ≡ ok input
unfolding read_magic
magic_done zero input total reads h = rw (le→not_ltb _ _ h) refl
magic_done (suc fuel) input total reads h = rw (le→not_ltb _ _ h) refl

drop_all : (xs : Bytes) → drop (length xs) xs ≡ []
drop_all [] = refl
drop_all (x ∷ xs) = drop_all xs

-- From the second read on the buffer is empty.
second_round :
    (fuel : ℕ) (input : Bytes) (reads : List Read)
    → length input < 24
    → read_magic (suc fuel) input (length input) reads ≡ empty_read reads
unfolding read_into
second_round fuel input [] h = rw (magic_step fuel input (length input) [] h) refl
second_round fuel input (fault e ∷ reads) h =
    rw (magic_step fuel input (length input) (fault e ∷ reads) h) refl
second_round fuel input (bytes c ∷ reads) h =
    rw (magic_step fuel input (length input) (bytes c ∷ reads) h, drop_all input) refl

take_all : (n : ℕ) (xs : Bytes) → length xs ≤ n → take n xs ≡ xs
take_all zero [] h = refl
take_all zero (x ∷ xs) h = absurd (omega arith)
take_all (suc n) [] h = refl
take_all (suc n) (x ∷ xs) h = ap (λ ys. x ∷ ys) (take_all n xs (omega arith))

drop_past : (n : ℕ) (xs : Bytes) → length xs ≤ n → drop n xs ≡ []
drop_past zero [] h = refl
drop_past zero (x ∷ xs) h = absurd (omega arith)
drop_past (suc n) [] h = refl
drop_past (suc n) (x ∷ xs) h = drop_past n xs (omega arith)

filled : (xs : Bytes) → xs ≢ [] → (length xs == 0) ≡ false
filled [] n = absurd (n refl)
filled (x ∷ xs) n = ground arith

after_first :
    (fuel total : ℕ) (first : Bytes) (reads : List Read)
    → first ≢ []
    → total ≡ length (take 24 first)
    → (if length (take 24 first) == 0
        then err (invalid_http2 "connection closed during handshake")
        else read_magic (suc fuel) (take 24 first) total (left_over (drop 24 first) reads))
      ≡ (if ltb (length first) 24 then empty_read reads else ok (take 24 first))
unfolding left_over
after_first fuel total first reads n e = elim (Bool-cases (ltb (length first) 24)) [
  | inl short ↦
      let lt : length first < 24 = ltb→lt _ _ short in
      rw
        (
          e,
          take_all 24 first (omega arith),
          drop_past 24 first (omega arith),
          filled first n,
          short,
        )
        (second_round fuel first reads lt)
  | inr long ↦
      let size : length (take 24 first) ≡ 24 = length-take 24 first (not_ltb→le _ _ long) in
      rw (e, size, long)
        (magic_done (suc fuel) (take 24 first) 24 (left_over (drop 24 first) reads) (omega arith))
]

first_round :
    (fuel : ℕ) (input first : Bytes) (reads : List Read)
    → length input ≡ 24
    → first ≢ []
    → read_magic (suc (suc fuel)) input 0 (bytes first ∷ reads)
      ≡ (if ltb (length first) 24 then empty_read reads else ok (take 24 first))
unfolding read_into
first_round fuel input first reads size n =
    rw (magic_step (suc fuel) input 0 (bytes first ∷ reads) (omega arith), size)
      (after_first fuel (0 + length (take 24 first)) first reads n (omega arith))

settings_written :
    (m n : ℕ)
    → settings_sent m n
      ≡ frame_bytes FrameKind.settings 0 0 (to_be_bytes16 3 ++ to_be_bytes (m % 2 ^ 32))
        ++ frame_bytes FrameKind.settings 0 0 (to_be_bytes16 5 ++ to_be_bytes (n % 2 ^ 32))
unfolding settings_sent
settings_written m n = rw (build_settings_lem 3 (m % 2 ^ 32) [], build_settings_lem 5 (n % 2 ^ 32))

empty_fails : (rs : List Read) (f : Bytes → Outcome Bytes) → (empty_read rs >>= f) ≡ empty_read rs
empty_fails [] f = refl
empty_fails (fault e ∷ rs) f = refl
empty_fails (bytes c ∷ rs) f = refl

-- The handshake is decided by what the first read brings, if it brings anything. With 24 bytes or
-- more it succeeds exactly on the magic, and writes SETTINGS_MAX_CONCURRENT_STREAMS and
-- SETTINGS_MAX_FRAME_SIZE in two frames. With fewer it fails, whatever arrives later: the second
-- read is given an empty buffer.
pub handshake_first :
    (first : Bytes) (reads : List Read) (max_concurrent_streams max_frame_size : ℕ)
    → first ≢ []
    → handshake (bytes first ∷ reads) max_concurrent_streams max_frame_size ≡ (
        if ltb (length first) 24
        then empty_read reads
        else (if bytes_eq (take 24 first) magic
            then ok (
                frame_bytes FrameKind.settings 0 0
                  (to_be_bytes16 3 ++ to_be_bytes (max_concurrent_streams % 2 ^ 32))
                ++ frame_bytes FrameKind.settings 0 0
                    (to_be_bytes16 5 ++ to_be_bytes (max_frame_size % 2 ^ 32)))
            else err (invalid_http2 "invalid handshake message")))
unfolding handshake
handshake_first first reads m n h = elim (Bool-cases (ltb (length first) 24)) [
  | inl short ↦ rw (first_round 22 (replicate 24 0) first reads refl h, short) (empty_fails reads _)
  | inr long ↦
      rw (first_round 22 (replicate 24 0) first reads refl h, long, settings_written m n) refl
]
