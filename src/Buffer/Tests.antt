-- ===== src/Buffer/Tests.antt =====
-- Runs of net/buffer.h on small buffers, and the theorems at such inputs.
use mathlib.Core.Option
use xweb.Prelude.{Yields, ℕ, ◌+◌, ◌*◌, ◌≡◌, refl, [], ◌∷◌, ◌++◌, some, arith, length}
use xweb.Buffer.{peek, Buffer, content, append, retrieve, writable_bytes}
use xweb.Buffer.Invariant.{IsValid}
use xweb.Buffer.Append.{append_refines}
use xweb.Buffer.Words.{from_be, append_int, read_int, read-append_int}
use xweb.Buffer.Search.{search_crlf, find_crlf}
use xweb.Buffer.Transfer.{iov_room, read_fd, got, read_fd_refines}

-- Three readable bytes, "a\r\n", and two bytes of room behind them.
abbrev small : Buffer
small = record {
  buffer = 0 ∷ 0 ∷ 0 ∷ 0 ∷ 0 ∷ 0 ∷ 0 ∷ 0 ∷ 0 ∷ 0 ∷ b'a' ∷ b'\r' ∷ b'\n' ∷ 0 ∷ 0 ∷ [];
  reader_index = 10;
  writer_index = 13;
}

small-IsValid : IsValid small
small-IsValid = omega arith

content-small : content small ≡ b'a' ∷ b'\r' ∷ b'\n' ∷ []
unfolding content
content-small = refl

abbrev shape : Buffer → ℕ × ℕ × ℕ
shape b = (b.reader_index, b.writer_index, length b.buffer)

-- Four bytes fit once the content moves to the front, five make the vector grow.
append_moves : Option.map shape (append small (1 ∷ 2 ∷ 3 ∷ 4 ∷ [])) ≡ some (8, 15, 15)
unfolding append
append_moves = refl

append_grows : Option.map shape (append small (1 ∷ 2 ∷ 3 ∷ 4 ∷ 5 ∷ [])) ≡ some (10, 18, 18)
unfolding append
append_grows = refl

read_int_runs : Option.map (λ r. r.0) (read_int 2 small) ≡ some (b'a' * 256 + b'\r')
unfolding read_int from_be retrieve peek
read_int_runs = refl

find_crlf_runs : find_crlf small ≡ some 11
unfolding find_crlf search_crlf
find_crlf_runs = refl

append_refines_example :
    Yields
      (append small (1 ∷ 2 ∷ 3 ∷ []))
      (λ b. IsValid b × (content b ≡ content small ++ 1 ∷ 2 ∷ 3 ∷ []))
append_refines_example = append_refines small-IsValid (1 ∷ 2 ∷ 3 ∷ []) (omega arith)

read-append_int_example : Yields (append_int 2 small 0xcafe) (λ b.
    Yields
      (retrieve b (length (content small)))
      (λ c. Yields (read_int 2 c) (λ r. (r.0 ≡ 0xcafe) × (content r.1 ≡ []))))
read-append_int_example = read-append_int 2 0xcafe small-IsValid (omega arith) (omega arith)

read_fd_refines_example :
    Yields
      (read_fd small (got (1 ∷ 2 ∷ 3 ∷ [])))
      (λ b. IsValid b × (content b ≡ content small ++ 1 ∷ 2 ∷ 3 ∷ []))
unfolding iov_room writable_bytes
read_fd_refines_example = read_fd_refines small-IsValid (1 ∷ 2 ∷ 3 ∷ []) (omega arith) (omega arith)
