-- ===== src/AsyncLogging.antt =====
-- base/async_logging.h and base/async_logging.cpp: producers fill buffers under a mutex, and one
-- backend thread writes them out. A locked region is one step, so a schedule of steps is any
-- interleaving of producers and backend. `none` is a failed `assert` or a write out of an array.
pub mod Stock
pub mod Ready
pub mod Conserve
pub mod Life
mod Tests
use xweb.Prelude.{
  ℕ, ◌+◌, ◌-◌, List, [], ◌∷◌, ◌++◌, map, Option, none, some, Bool, ltb, ◌==◌, if◌then◌else◌, length,
  take, ◌>>=◌, ◌>>◌, assert,
}
use mathlib.Core.List.{flatten}
use xweb.Prelude.Int.{pos}
use xweb.LogStream
use xweb.LogStream.{FixedBuffer, new_fixed, avail, reset, convert}
use xweb.LogStream.Fixed.{text}

-- Where the backend stands: before the locked region of its loop, or behind it.
pub data Phase : Type 0 where
  collecting writing : Phase

-- The members of the object, the local variables of `threadFunc`, and what went to the log file.
-- `size` is the SIZE of a buffer; a moved-from pointer is `none`.
pub record AsyncLogging : Type 0 where
  pub size : ℕ
  pub current_buffer : Option FixedBuffer
  pub next_buffer : Option FixedBuffer
  pub buffers : List FixedBuffer
  pub phase : Phase
  pub new_buffer1 : Option FixedBuffer
  pub new_buffer2 : Option FixedBuffer
  pub buffers_to_write : List FixedBuffer
  pub output : List ℕ

-- The constructor, and the local variables at the start of `threadFunc`.
unfoldable pub start : ℕ → AsyncLogging
start size = record {
  size = size;
  current_buffer = some (new_fixed size);
  next_buffer = some (new_fixed size);
  buffers = [];
  phase = Phase.collecting;
  new_buffer1 = some (new_fixed size);
  new_buffer2 = some (new_fixed size);
  buffers_to_write = [];
  output = [];
}

-- `nextBuffer_`, or a new buffer.
abbrev pub spare : ℕ → Option FixedBuffer → FixedBuffer
spare size none = new_fixed size
spare size (some b) = b

pub append : AsyncLogging → List ℕ → Option AsyncLogging
append s line = do
  current ← s.current_buffer
  if ltb (length line) (avail current)
      then (do
        current' ← LogStream.append current line
        some (record s { current_buffer = some current' }))
      else (do
        current' ← LogStream.append (spare s.size s.next_buffer) line
        some (record s {
          buffers = s.buffers ++ current ∷ [];
          current_buffer = some current';
          next_buffer = none;
        }))

-- `assert(newBuffer && newBuffer->length() == 0)`
abbrev pub assert_empty : Option FixedBuffer → Option (Unit {0})
assert_empty none = none
assert_empty (some b) = assert (b.cur == 0)

abbrev pub or_else : Option FixedBuffer → Option FixedBuffer → Option FixedBuffer
or_else none o = o
or_else (some b) o = some b

abbrev pub unless_moved : Option FixedBuffer → Option FixedBuffer → Option FixedBuffer
unless_moved none o = none
unless_moved (some b) o = o

-- The locked region of the loop.
unfoldable pub taken : AsyncLogging → FixedBuffer → AsyncLogging
taken s current = record s {
  phase = Phase.writing;
  buffers_to_write = s.buffers ++ current ∷ [];
  buffers = [];
  current_buffer = s.new_buffer1;
  new_buffer1 = none;
  next_buffer = or_else s.next_buffer s.new_buffer2;
  new_buffer2 = unless_moved s.next_buffer s.new_buffer2;
}

-- The loop's asserts and its locked region; a wait on the condition changes nothing by itself.
unfoldable pub collect : AsyncLogging → Option AsyncLogging
unfolding taken
collect s = do
  assert_empty s.new_buffer1
  assert_empty s.new_buffer2
  assert (length s.buffers_to_write == 0)
  current ← s.current_buffer
  some (taken s current)

abbrev max_buffers : ℕ
max_buffers = 25

-- "Dropped log messages %zd larger buffers\n"
pub drop_notice : ℕ → List ℕ
drop_notice n =
    (b'D' ∷ b'r' ∷ b'o' ∷ b'p' ∷ b'p' ∷ b'e' ∷ b'd' ∷ b' ' ∷ b'l' ∷ b'o' ∷ b'g' ∷ b' ' ∷ b'm' ∷ b'e'
      ∷ b's' ∷ b's' ∷ b'a' ∷ b'g' ∷ b'e' ∷ b's' ∷ b' ' ∷ [])
    ++ (convert (pos n)
        ++ (b' ' ∷ b'l' ∷ b'a' ∷ b'r' ∷ b'g' ∷ b'e' ∷ b'r' ∷ b' ' ∷ b'b' ∷ b'u' ∷ b'f' ∷ b'f' ∷ b'e'
            ∷ b'r' ∷ b's' ∷ b'\n' ∷ []))

abbrev pub texts : List FixedBuffer → List ℕ
texts bs = flatten (map text bs)

-- The buffers that are kept for writing, and what is written before them.
unfoldable pub kept : List FixedBuffer → List FixedBuffer
kept bs = if ltb max_buffers (length bs) then take 2 bs else bs

unfoldable pub notice : List FixedBuffer → List ℕ
unfolding drop_notice
notice bs = if ltb max_buffers (length bs) then drop_notice (length bs - 2) else []

-- `back()` with `pop_back()`, on a list that must not be empty.
abbrev pub pop_back : List FixedBuffer → Option (FixedBuffer × List FixedBuffer)
pop_back [] = none
pop_back (b ∷ []) = some (b, [])
pop_back (b ∷ c ∷ bs) = pop_back (c ∷ bs) >>= λ r. some (r.0, b ∷ r.1)

-- `if (buffersToWrite.size() > 2) buffersToWrite.resize(2)`
unfoldable pub resize_two : List FixedBuffer → List FixedBuffer
resize_two bs = if ltb 2 (length bs) then take 2 bs else bs

-- `if (!newBuffer) { assert(!buffersToWrite.empty()); ... newBuffer->reset(); }`
abbrev pub refill : Option FixedBuffer → List FixedBuffer → Option (FixedBuffer × List FixedBuffer)
refill (some b) bs = some (b, bs)
refill none bs = pop_back bs >>= λ r. some (reset r.0, r.1)

-- The end of the loop's body.
unfoldable pub written : AsyncLogging → FixedBuffer → FixedBuffer → AsyncLogging
unfolding kept notice
written s new1 new2 = record s {
  phase = Phase.collecting;
  output = s.output ++ (notice s.buffers_to_write ++ texts (kept s.buffers_to_write));
  new_buffer1 = some new1;
  new_buffer2 = some new2;
  buffers_to_write = [];
}

-- The rest of the loop's body, outside the lock.
unfoldable pub write : AsyncLogging → Option AsyncLogging
unfolding written kept resize_two
write s = do
  assert (ltb 0 (length s.buffers_to_write))
  r1 ← refill s.new_buffer1 (resize_two (kept s.buffers_to_write))
  r2 ← refill s.new_buffer2 r1.1
  some (written s r1.0 r2.0)

-- The backend's next step.
unfoldable pub backend : Phase → AsyncLogging → Option AsyncLogging
unfolding collect write
backend Phase.collecting s = collect s
backend Phase.writing s = write s

pub data Event : Type 0 where
  log : List ℕ → Event
  thread : Event

pub step : AsyncLogging → Event → Option AsyncLogging
unfolding append backend
step s (log line) = append s line
step s thread = backend s.phase s

pub run : AsyncLogging → List Event → Option AsyncLogging
run s [] = some s
run s (e ∷ es) = step s e >>= λ s'. run s' es
