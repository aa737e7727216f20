-- ===== src/Buffer/Transfer.antt =====
-- `readFd` of net/buffer.cpp, and `toStringPiece` and `shrink` of net/buffer.h.
use xweb.Prelude.{
  Yields, ℕ, ◌+◌, ◌-◌, ◌%◌, ◌^◌, ◌≤◌, ◌<◌, ◌≡◌, refl, List, ◌++◌, Option, some, arith, leb, ltb,
  if◌then◌else◌, length, take, drop, ◌∙◌, ap, ◌>>=◌, ◌>>◌, assert, add_size, append_assoc,
  take-append-drop, length-take, dec_lt, length-drop,
}
use xweb.Prelude.Slices.{length-splice, take_all}
use xweb.Prelude.Memory.{copy_to, copy_to_lem}
use xweb.Buffer.{
  Buffer, content, new_buffer, initial_size, max_size, append, ensure_writable_bytes,
  readable_bytes, writable_bytes, peek, swap,
}
use xweb.Buffer.Invariant.{IsValid, readable_bytes_lem, writable_bytes_lem, length-content}
use xweb.Buffer.Retrieve.{peek_lem}
use native.Mathlib.Nat.{mod-eq_of_lt}
use xweb.Buffer.Append.{
  writer_index-fresh, new_buffer-default, written, written_lem, append_refines, append_in_place,
  ensure_writable_bytes_lem, fresh-IsValid,
}

-- What a system call that reads returns: a count with the bytes, or -1 with `errno`.
pub data ReadResult : Type 0 where
  got : List ℕ → ReadResult
  failed : ℕ → ReadResult

-- `sizeof extrabuf`
abbrev pub extra_size : ℕ
extra_size = 65536

-- The room that the vectors of `readv` offer: the second one only if the first is small.
unfoldable pub iov_room : Buffer → ℕ
iov_room b = writable_bytes b + (if ltb (writable_bytes b) extra_size then extra_size else 0)

-- `readFd`, by the result of its `readv`, which fills the writable part first and then `extrabuf`.
unfoldable pub read_fd : Buffer → ReadResult → Option Buffer
unfolding writable_bytes
read_fd b (failed errno) = some b
read_fd b (got ds) = do
  let writable = writable_bytes b
  bytes ← copy_to b.buffer b.writer_index (take writable ds)
  let b' = record b { buffer = bytes }
  if leb (length ds) writable
      then some (record b' { writer_index = add_size b'.writer_index (length ds) })
      else append (record b' { writer_index = length bytes }) (drop writable ds)

-- A `size_t` that passes through the `int` of a StringPiece.
pub piece_size : ℕ → ℕ
piece_size n = if ltb (n % 2 ^ 32) (2 ^ 31) then n % 2 ^ 32 else (2 ^ 64 - 2 ^ 32) + n % 2 ^ 32

pub to_string_piece : Buffer → Option (List ℕ)
unfolding piece_size
to_string_piece b = do
  let size = piece_size (readable_bytes b)
  assert (leb (b.reader_index + size) (length b.buffer))
  some (peek b size)

pub shrink : Buffer → ℕ → Option Buffer
unfolding swap
shrink b reserve = do
  other ← new_buffer initial_size
  other ← ensure_writable_bytes other (add_size (readable_bytes b) reserve)
  piece ← to_string_piece b
  other ← append other piece
  some ((swap b other).0)

pub read_fd-failed : (b : Buffer) (errno : ℕ) → read_fd b (failed errno) ≡ some b
unfolding read_fd
read_fd-failed b errno = refl

module _ {b : Buffer} (v : IsValid b) (ds : List ℕ) where
  abbrev first : List ℕ
  first = take (writable_bytes b) ds

  abbrev rest : List ℕ
  rest = drop (writable_bytes b) ds

  read_fd_small : length ds ≤ writable_bytes b → read_fd b (got ds) ≡ some (written b ds)
  unfolding read_fd
  read_fd_small h = ground (
    arith,
    writable_bytes_lem v,
    take_all (writable_bytes b) ds,
    copy_to_lem b.buffer b.writer_index ds,
  )

  length-first : writable_bytes b < length ds → b.writer_index + length first ≡ length b.buffer
  length-first h = omega (arith, length-take (writable_bytes b) ds, writable_bytes_lem v)

  read_fd_large : writable_bytes b < length ds → read_fd b (got ds) ≡ append (written b first) rest
  unfolding read_fd
  read_fd_large h = ground (
    arith,
    length-first h,
    copy_to_lem b.buffer b.writer_index first,
    length-splice b.buffer b.writer_index first,
  )

  -- Bytes that `readv` can return, if the write index stays within the largest vector, all join the
  -- content in order, also those that went to `extrabuf`, and the buffer stays valid.
  pub read_fd_refines :
      length ds ≤ iov_room b
      → b.writer_index + length ds ≤ max_size
      → Yields (read_fd b (got ds)) (λ b'. IsValid b' × (content b' ≡ content b ++ ds))
  read_fd_refines room fits = elim (dec_lt (writable_bytes b) (length ds)) [
    | yes h ↦
        let (valid1, bytes1) = written_lem v first (omega (arith, length-first h)) in
        let (b', made, (valid, bytes)) = append_refines valid1 rest (
          omega (arith, length-first h, length-drop (writable_bytes b) ds, writable_bytes_lem v)) in
        (
          b',
          read_fd_large h ∙ made,
          (
            valid,
            bytes
                ∙ ap (λ c. c ++ rest) bytes1
                ∙ append_assoc (content b) first rest
                ∙ ap (λ c. content b ++ c) (take-append-drop (writable_bytes b) ds),
          ),
        )
    | no h ↦ (
      written b ds,
      read_fd_small (omega arith),
      written_lem v ds (omega (arith, writable_bytes_lem v)),
    )
  ]

module _ {b : Buffer} (v : IsValid b) where
  piece_size-readable :
      length (content b) < 2 ^ 31 → piece_size (readable_bytes b) ≡ length (content b)
  unfolding piece_size
  piece_size-readable small = ground (arith, readable_bytes_lem v, length-content v)

  to_string_piece_lem : length (content b) < 2 ^ 31 → to_string_piece b ≡ some (content b)
  unfolding to_string_piece
  to_string_piece_lem small = ground (
    arith,
    piece_size-readable small,
    length-content v,
    peek_lem v (length (content b)),
    take_all (length (content b)) (content b),
  )

  -- `shrink` keeps the content and leaves at least `reserve` bytes of room.
  pub shrink_refines :
      (reserve : ℕ)
      → length (content b) < 2 ^ 31
      → length (content b) + reserve + 8 ≤ max_size
      → Yields
          (shrink b reserve)
          (λ b'. IsValid b' × (content b' ≡ content b) × (reserve ≤ writable_bytes b'))
  unfolding shrink
  shrink_refines reserve small fits =
      let (other, made, (valid, empty, room)) =
        ensure_writable_bytes_lem fresh-IsValid.0 (length (content b) + reserve)
          (omega (arith, writer_index-fresh)) in
      let (valid', bytes) = written_lem valid (content b) (omega (arith, room)) in
      (
        written other (content b),
        rw
            (
              readable_bytes_lem v,
              ← length-content v,
              new_buffer-default,
              mod-eq_of_lt {n = length (content b) + reserve} {m = 2 ^ 64} (omega arith),
              made,
              to_string_piece_lem small,
              append_in_place valid (content b) (omega (arith, room)),
            )
            refl,
        (
          valid',
          bytes ∙ ap (λ c. c ++ content b) (empty ∙ fresh-IsValid.1),
          omega (
            arith,
            writable_bytes_lem valid',
            length-splice other.buffer other.writer_index (content b),
            room,
          ),
        ),
      )
