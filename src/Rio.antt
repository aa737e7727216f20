-- ===== src/Rio.antt =====
-- base/rio.h and base/rio.cpp: reading lines through a buffer, and whole blocks. What the calls
-- of `read` and `write` return, one after another, is a list; `none` is a call that still blocks
-- at its end.
pub mod Lines
pub mod Chunks
pub mod Blocks
mod Tests
use xweb.Prelude.{
  ℕ, zero, suc, ◌+◌, ◌-◌, List, [], ◌∷◌, ◌++◌, Option, none, some, Bool, true, false, ltb, ◌==◌,
  if◌then◌else◌, length, take, drop, ◌>>=◌,
}
use xweb.Buffer.Transfer.{ReadResult, got, failed}
use xweb.TcpConnection.{WriteResult, wrote, write_failed}

abbrev pub eintr : ℕ
eintr = 4

abbrev pub newline : ℕ
newline = b'\n'

-- The unread bytes of `rio_buf`, and what `read` returns next on its descriptor.
pub record Rio : Type 0 where
  pub unread : List ℕ
  pub reads : List ReadResult

unfoldable pub rio_init : List ReadResult → Rio
rio_init reads = record { unread = []; reads = reads }

-- The loop of `rio_read`: with no unread bytes, `read` again after a signal.
pub refill : List ReadResult → Option (ReadResult × List ReadResult)
refill [] = none
refill (got ds ∷ rest) = some (got ds, rest)
refill (failed errno ∷ rest) =
    let again = refill rest in if errno == eintr then again else some (failed errno, rest)

-- The end of `rio_read`, with unread bytes: up to n of them.
pub serve : List ℕ → List ReadResult → ℕ → ReadResult × Rio
serve unread reads n =
    let cnt = if ltb (length unread) n then length unread else n in
    (got (take cnt unread), record { unread = drop cnt unread; reads = reads })

pub rio_read : Rio → ℕ → Option (ReadResult × Rio)
unfolding refill serve
rio_read r n =
    if ltb 0 (length r.unread)
    then some (serve r.unread r.reads n)
    else (do (result, reads) ← refill r.reads; some (fill result reads n))
  where
    fill : ReadResult → List ReadResult → ℕ → ReadResult × Rio
    fill (failed errno) reads n = (failed errno, record { unread = []; reads = reads })
    fill (got []) reads n = (got [], record { unread = []; reads = reads })
    fill (got (d ∷ ds)) reads n = serve (d ∷ ds) reads n

-- What `rio_readlineb` returns: a count, with the bytes that it wrote before the final 0, or 0,
-- or -1, with `errno` and the bytes that it wrote.
pub data LineResult : Type 0 where
  line : ℕ → List ℕ → LineResult
  end_of_file : LineResult
  line_failed : ℕ → List ℕ → LineResult

-- One turn, at the count n with the bytes so far, after `rio_read` of one byte; `next` is the
-- next turn.
take_byte :
    ℕ
    → List ℕ
    → (List ℕ → Rio → Option (LineResult × Rio))
    → ReadResult
    → Rio
    → Option (LineResult × Rio)
take_byte n bytes next (failed errno) r = some (line_failed errno bytes, r)
take_byte n bytes next (got []) r = some (if n == 1 then end_of_file else line n bytes, r)
take_byte n bytes next (got (c ∷ cs)) r =
    if c == newline then some (line n (bytes ++ c ∷ []), r) else next (bytes ++ c ∷ []) r

-- The loop, with `left` more turns.
pub readline_loop : ℕ → ℕ → List ℕ → Rio → Option (LineResult × Rio)
unfolding rio_read take_byte
readline_loop zero n bytes r = some (line n bytes, r)
readline_loop (suc left) n bytes r =
    rio_read r 1 >>= λ (rc, r'). take_byte n bytes (readline_loop left (suc n)) rc r'

pub rio_readlineb : Rio → ℕ → Option (LineResult × Rio)
unfolding readline_loop
rio_readlineb r maxlen = readline_loop (maxlen - 1) 1 [] r

-- What `rio_readn` and `rio_writen` return: a count, with the bytes, or -1, with those before.
pub data BlockResult : Type 0 where
  block : List ℕ → BlockResult
  block_failed : List ℕ → BlockResult

-- The loop of `rio_readn`, with `left` bytes to read; it leaves the later reads and `errno`.
pub readn_loop : List ReadResult → ℕ → ℕ → List ℕ → Option (BlockResult × List ReadResult × ℕ)
readn_loop reads errno zero bytes = some (block bytes, reads, errno)
readn_loop [] errno (suc left) bytes = none
readn_loop (failed e ∷ reads) errno (suc left) bytes =
    let again = readn_loop reads e (suc left) bytes in
    if e == eintr then again else some (block_failed bytes, reads, e)
readn_loop (got [] ∷ reads) errno (suc left) bytes = some (block bytes, reads, errno)
readn_loop (got (d ∷ ds) ∷ reads) errno (suc left) bytes =
    readn_loop reads errno (left - length ds) (bytes ++ d ∷ ds)

pub rio_readn : List ReadResult → ℕ → ℕ → Option (BlockResult × List ReadResult × ℕ)
unfolding readn_loop
rio_readn reads errno n = readn_loop reads errno n []

-- The loop of `rio_writen`; a `write` that returns 0 leaves `errno` as it was.
pub writen_loop :
    List WriteResult → ℕ → List ℕ → List ℕ → Option (BlockResult × List WriteResult × ℕ)
writen_loop writes errno [] sent = some (block sent, writes, errno)
writen_loop [] errno (d ∷ ds) sent = none
writen_loop (write_failed e ∷ writes) errno (d ∷ ds) sent =
    let again = writen_loop writes e (d ∷ ds) sent in
    if e == eintr then again else some (block_failed sent, writes, e)
writen_loop (wrote zero ∷ writes) errno (d ∷ ds) sent =
    let again = writen_loop writes errno (d ∷ ds) sent in
    if errno == eintr then again else some (block_failed sent, writes, errno)
writen_loop (wrote (suc n) ∷ writes) errno (d ∷ ds) sent =
    writen_loop writes errno (drop n ds) (sent ++ d ∷ take n ds)

pub rio_writen : List WriteResult → ℕ → List ℕ → Option (BlockResult × List WriteResult × ℕ)
unfolding writen_loop
rio_writen writes errno ds = writen_loop writes errno ds []
