-- ===== src/HttpData.antt =====
-- net/http_data.h and net/http_data.cpp: one HTTP connection. What the system calls return is an
-- argument, and so is what the arrays on the stack hold at first; `none` is a call that blocks,
-- a loop whose turns run out, or a write out of an array.
pub mod Headers
pub mod Static
mod Tests
use xweb.Prelude.{
  ltb, assert, ◌>>◌, length, ℕ, zero, suc, ◌+◌, ◌-◌, ◌<◌, ◌≡◌, List, [], ◌∷◌, ◌++◌, Option, some,
  none, Bool, true, false, ◌==◌, ◌&&◌, ◌||◌, if◌then◌else◌, length, take, drop, ◌>>=◌,
}
use xweb.Prelude.Int.{pos}
use xweb.Buffer.Transfer.{ReadResult}
use xweb.TcpConnection.{WriteResult}
use xweb.LogStream.{convert}
use xweb.Channel.{Channel, new_channel, set_event, channel_read, channel_write}
use xweb.Rio.{
  Rio, rio_init, LineResult, line, end_of_file, line_failed, rio_readlineb, BlockResult, block,
  block_failed, rio_readn, rio_writen,
}
use Prim.Native.Nat.{bit_or}

abbrev pub max_line : ℕ
max_line = 1024

-- The C string in an array.
pub c_text : List ℕ → List ℕ
c_text [] = []
c_text (zero ∷ cs) = []
c_text (suc c ∷ cs) = suc c ∷ c_text cs

-- `!strcmp(buf, "\r\n")`
pub is_crlf : List ℕ → Bool
is_crlf (a ∷ b ∷ []) = (a == b'\r') && (b == b'\n')
is_crlf _ = false

-- An array after a write at its front.
pub overwrite : List ℕ → List ℕ → List ℕ
overwrite buf bytes = bytes ++ drop (length bytes) buf

-- The array after `rio_readlineb`.
pub after_line : List ℕ → LineResult → List ℕ
unfolding overwrite
after_line buf (line n bytes) = overwrite buf (bytes ++ 0 ∷ [])
after_line buf end_of_file = buf
after_line buf (line_failed errno bytes) = overwrite buf bytes

-- One turn of the loop of `read_requesthdrs`, after the line is read; `next` is the next turn.
pub after_call :
    (List ℕ → Rio → Option (Bool × Rio)) → List ℕ → LineResult → Rio → Option (Bool × Rio)
unfolding after_line
after_call next buf end_of_file r = some (true, r)
after_call next buf (line n bytes) r = next (after_line buf (line n bytes)) r
after_call next buf (line_failed errno bytes) r = next (after_line buf (line_failed errno bytes)) r

-- The loop of `read_requesthdrs`, for a number of turns.
pub headers_loop : ℕ → List ℕ → Rio → Option (Bool × Rio)
unfolding c_text is_crlf after_call
headers_loop zero buf r = none
headers_loop (suc turns) buf r =
    if is_crlf (c_text buf)
    then some (false, r)
    else rio_readlineb r max_line >>= λ (result, r'). after_call (headers_loop turns) buf result r'

-- `read_requesthdrs` returns 1, which is `true`, when the file ends before the headers do.
pub read_requesthdrs : ℕ → List ℕ → Rio → Option (Bool × Rio)
unfolding headers_loop
read_requesthdrs turns buf r = do
  (result, r') ← rio_readlineb r max_line
  headers_loop turns (after_line buf result) r'

pub starts_with : List ℕ → List ℕ → Bool
starts_with [] hay = true
starts_with (n ∷ needle) [] = false
starts_with (n ∷ needle) (h ∷ hay) = (n == h) && starts_with needle hay

-- `strstr`
pub contains : List ℕ → List ℕ → Bool
unfolding starts_with
contains [] needle = starts_with needle []
contains (h ∷ hay) needle = starts_with needle (h ∷ hay) || contains hay needle

-- `get_filetype`
pub file_type : List ℕ → List ℕ
unfolding contains
file_type name =
    if contains name (b'.' ∷ b'h' ∷ b't' ∷ b'm' ∷ b'l' ∷ [])
    then b't' ∷ b'e' ∷ b'x' ∷ b't' ∷ b'/' ∷ b'h' ∷ b't' ∷ b'm' ∷ b'l' ∷ []
    else if contains name (b'.' ∷ b'g' ∷ b'i' ∷ b'f' ∷ [])
    then b'i' ∷ b'm' ∷ b'a' ∷ b'g' ∷ b'e' ∷ b'/' ∷ b'g' ∷ b'i' ∷ b'f' ∷ []
    else if contains name (b'.' ∷ b'p' ∷ b'n' ∷ b'g' ∷ [])
    then b'i' ∷ b'm' ∷ b'a' ∷ b'g' ∷ b'e' ∷ b'/' ∷ b'p' ∷ b'n' ∷ b'g' ∷ []
    else if contains name (b'i' ∷ b'm' ∷ b'a' ∷ b'g' ∷ b'e' ∷ b'/' ∷ b'j' ∷ b'p' ∷ b'e' ∷ b'g' ∷ [])
    then b'i' ∷ b'm' ∷ b'a' ∷ b'g' ∷ b'e' ∷ b'/' ∷ b'j' ∷ b'p' ∷ b'e' ∷ b'g' ∷ []
    else if contains name (b'.' ∷ b'm' ∷ b'p' ∷ b'4' ∷ [])
    then b'v' ∷ b'i' ∷ b'd' ∷ b'e' ∷ b'o' ∷ b'/' ∷ b'm' ∷ b'p' ∷ b'4' ∷ []
    else b't' ∷ b'e' ∷ b'x' ∷ b't' ∷ b'/' ∷ b'p' ∷ b'l' ∷ b'a' ∷ b'i' ∷ b'n' ∷ []

-- What the `sprintf` calls of `serve_static` make of its array, with the file type and the size.
-- All but the first read the array that they write, which C leaves undefined, so it is an argument.
abbrev pub Header : Type 0
Header = List ℕ → List ℕ → ℕ → List ℕ

-- What the later reads of the file and writes to the connection return, `errno`, and what was sent.
pub record Io : Type 0 where
  pub reads : List ReadResult
  pub writes : List WriteResult
  pub errno : ℕ
  pub sent : List ℕ

abbrev pub bytes_of : BlockResult → List ℕ
bytes_of (block bytes) = bytes
bytes_of (block_failed bytes) = bytes

-- `rio_writen` to the connection, whose result is not looked at.
pub send_block : Io → List ℕ → Option Io
send_block io ds = do
  (result, writes, errno) ← rio_writen io.writes io.errno ds
  some (record io { writes = writes; errno = errno; sent = io.sent ++ bytes_of result })

-- One turn of the loop of `serve_static`, after a block is read.
pub after_read : (List ℕ → Io → Option Io) → List ℕ → Io → BlockResult → Option Io
unfolding send_block overwrite
after_read next buf io (block []) = some io
after_read next buf io (block (d ∷ ds)) =
    let buf' = overwrite buf (d ∷ ds) in send_block io buf' >>= next buf'
after_read next buf io (block_failed bytes) =
    let buf' = overwrite buf bytes in send_block io buf' >>= next buf'

-- The loop of `serve_static`, for a number of turns.
pub copy_loop : ℕ → List ℕ → Io → Option Io
unfolding after_read
copy_loop zero buf io = none
copy_loop (suc turns) buf io = do
  (result, reads, errno) ← rio_readn io.reads io.errno max_line
  after_read (copy_loop turns) buf (record io { reads = reads; errno = errno }) result

-- With an `open` that fails, the reads are those of the descriptor -1. `none` is also a `strlen`
-- that leaves the array.
pub serve_static : Header → ℕ → List ℕ → Io → List ℕ → ℕ → Option Io
unfolding copy_loop file_type c_text
serve_static header turns buf io name filesize = do
  let printed = header buf (file_type name) filesize
  assert (ltb (length (c_text printed)) (length printed))
  io' ← send_block io (c_text printed)
  copy_loop turns printed io'

-- A connection, and the channels that it handed to the loop, each as it was then.
pub record HttpData : Type 0 where
  pub channel : Channel
  pub updates : List Channel

pub new_http_data : ℕ → ℕ → HttpData
new_http_data active fd = record { channel = new_channel active fd false; updates = [] }

pub watch_for : HttpData → ℕ → HttpData
watch_for d events =
    let channel = set_event d.channel events in
    record { channel = channel; updates = d.updates ++ channel ∷ [] }

pub new_request : HttpData → HttpData
unfolding watch_for
new_request d = watch_for d channel_read

-- `handleRead`, with the array of `read_requesthdrs`; the request line is read and not used.
pub handle_read : HttpData → ℕ → List ℕ → List ReadResult → Option HttpData
unfolding read_requesthdrs
handle_read d turns buf reads = do
  (result, r) ← rio_readlineb (rio_init reads) max_line
  (unfinished, r') ← read_requesthdrs turns buf r
  some (if unfinished then d else watch_for d (bit_or channel_read channel_write))

-- `handleWrite`, by the size that `stat` finds, if it finds the file.
pub handle_write : Header → HttpData → ℕ → List ℕ → Io → Option ℕ → Option (HttpData × Io)
unfolding serve_static
handle_write header d turns buf io none = some (d, io)
handle_write header d turns buf io (some filesize) = do
  io' ← serve_static header turns buf io home filesize
  some (watch_for d channel_read, io')
  where
    home : List ℕ
    home = b'.' ∷ b'/' ∷ b'h' ∷ b'o' ∷ b'm' ∷ b'e' ∷ b'.' ∷ b'h' ∷ b't' ∷ b'm' ∷ b'l' ∷ []
