-- ===== src/Buffer.antt =====
-- net/buffer.h and net/buffer.cpp: the growing byte buffer of a connection. A byte is a number, a
-- pointer into the vector is its index, and a method returns the new buffer. `none` is a failed
-- `assert`, an exception of the vector, or a copy out of its range.
pub mod Invariant
pub mod Append
pub mod Retrieve
pub mod Words
pub mod Search
pub mod Transfer
mod Tests
use xweb.Prelude.{
  ℕ, suc, ◌+◌, ◌-◌, ◌*◌, ◌/◌, ◌%◌, ◌^◌, List, [], ◌∷◌, ◌++◌, Option, none, some, Bool, true, false,
  ◌&&◌, ltb, leb, ◌==◌, if◌then◌else◌, length, take, drop, replicate, ◌>>=◌, ◌>>◌, assert, add_size,
  sub_size, not,
}
use xweb.Prelude.Slices.{slice}
use xweb.Prelude.Memory.{copy_to}

pub record Buffer : Type 0 where
  pub buffer : List ℕ
  pub reader_index : ℕ
  pub writer_index : ℕ

-- The readable bytes, oldest first.
unfoldable pub content : Buffer → List ℕ
content b = slice b.buffer b.reader_index (b.writer_index - b.reader_index)

abbrev pub cheap_prepend : ℕ
cheap_prepend = 8

abbrev pub initial_size : ℕ
initial_size = 1024

-- The `max_size` of a `vector<char>`.
abbrev pub max_size : ℕ
max_size = 2 ^ 63 - 1

unfoldable pub readable_bytes : Buffer → ℕ
readable_bytes b = sub_size b.writer_index b.reader_index

pub writable_bytes : Buffer → ℕ
writable_bytes b = sub_size (length b.buffer) b.writer_index

pub prependable_bytes : Buffer → ℕ
prependable_bytes b = b.reader_index

-- The vector that the constructor makes; its argument does not matter.
unfoldable pub fresh : Buffer
fresh = record {
  buffer = replicate (cheap_prepend + initial_size) 0;
  reader_index = cheap_prepend;
  writer_index = cheap_prepend;
}

pub new_buffer : ℕ → Option Buffer
unfolding fresh readable_bytes writable_bytes
new_buffer init_size = do
  assert (readable_bytes fresh == 0)
  assert (writable_bytes fresh == init_size)
  some fresh

pub swap : Buffer → Buffer → Buffer × Buffer
swap b rhs = (rhs, b)

-- `vector::resize`.
pub resize : List ℕ → ℕ → Option (List ℕ)
resize bytes n =
    if ltb max_size n then none else some (take n bytes ++ replicate (n - length bytes) 0)

unfoldable pub peek : Buffer → ℕ → List ℕ
peek b len = slice b.buffer b.reader_index len

pub retrieve_all : Buffer → Buffer
retrieve_all b = record b { reader_index = cheap_prepend; writer_index = cheap_prepend }

unfoldable pub retrieve : Buffer → ℕ → Option Buffer
unfolding readable_bytes retrieve_all
retrieve b len = do
  assert (leb len (readable_bytes b))
  some (
      if ltb len (readable_bytes b)
      then record b { reader_index = add_size b.reader_index len }
      else retrieve_all b)

unfoldable pub retrieve_as_string : Buffer → ℕ → Option (List ℕ × Buffer)
unfolding readable_bytes peek retrieve
retrieve_as_string b len = do
  assert (leb len (readable_bytes b))
  let result = peek b len
  b' ← retrieve b len
  some (result, b')

pub retrieve_all_as_string : Buffer → Option (List ℕ × Buffer)
retrieve_all_as_string b = retrieve_as_string b (readable_bytes b)

-- Growing the vector, or moving the readable bytes to the front.
pub make_space : Buffer → ℕ → Option Buffer
unfolding readable_bytes writable_bytes prependable_bytes copy_to resize
make_space b len =
    if ltb (add_size (writable_bytes b) (prependable_bytes b)) (add_size len cheap_prepend)
    then (do
      bytes ← resize b.buffer (add_size b.writer_index len)
      some (record b { buffer = bytes }))
    else (do
      assert (ltb cheap_prepend b.reader_index)
      let readable = readable_bytes b
      bytes ← copy_to b.buffer cheap_prepend (slice b.buffer b.reader_index readable)
      let b' = record b {
        buffer = bytes;
        reader_index = cheap_prepend;
        writer_index = add_size cheap_prepend readable;
      }
      assert (readable == readable_bytes b')
      some b')

pub ensure_writable_bytes : Buffer → ℕ → Option Buffer
unfolding writable_bytes make_space
ensure_writable_bytes b len = do
  b' ← if ltb (writable_bytes b) len then make_space b len else some b
  assert (leb len (writable_bytes b'))
  some b'

pub has_written : Buffer → ℕ → Option Buffer
unfolding writable_bytes
has_written b len = do
  assert (leb len (writable_bytes b))
  some (record b { writer_index = add_size b.writer_index len })

pub unwrite : Buffer → ℕ → Option Buffer
unfolding readable_bytes
unwrite b len = do
  assert (leb len (readable_bytes b))
  some (record b { writer_index = sub_size b.writer_index len })

unfoldable pub append : Buffer → List ℕ → Option Buffer
unfolding ensure_writable_bytes copy_to has_written
append b ds = do
  b' ← ensure_writable_bytes b (length ds)
  bytes ← copy_to b'.buffer b'.writer_index ds
  has_written (record b' { buffer = bytes }) (length ds)

pub prepend : Buffer → List ℕ → Option Buffer
unfolding prependable_bytes copy_to
prepend b ds = do
  assert (leb (length ds) (prependable_bytes b))
  let start = sub_size b.reader_index (length ds)
  bytes ← copy_to b.buffer start ds
  some (record b { buffer = bytes; reader_index = start })
