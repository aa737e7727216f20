-- ===== src/TcpConnection/Run.antt =====
-- net/tcp_connection.cpp: a connection over any sequence of what can happen to it: sends and
-- shutdowns of its users, functors that the loop runs, and events of its socket.
pub mod Keeps
pub mod Last
pub mod Watched
pub mod Handlers
pub mod Peers
mod Tests
use xweb.Prelude.{
  Yields, ℕ, ◌+◌, ◌≤◌, ◌≡◌, refl, List, [], ◌∷◌, ◌++◌, Option, none, some, Bool, true, false, ◌||◌,
  if◌then◌else◌, ◌>>=◌, length, arith, Bool-cases, inl, inr, append_assoc, append-nil, sym, ◌∙◌, ap,
  subst,
}
use xweb.Buffer.{Buffer, content, max_size}
use xweb.Buffer.Invariant.{IsValid}
use xweb.Buffer.Transfer.{ReadResult, got, failed, read_fd_refines, read_fd-failed}
use xweb.Channel.{is_writing}
use xweb.TcpConnection.{
  TcpConnection, Effect, WriteResult, wrote, write_failed, Task, send, send_in_loop, shutdown,
  shutdown_in_loop, handle_read, handle_error, handle_write, run_task, emit, emit_if, queue, StateE,
  is_connected, is_disconnected, is_disconnecting,
}
use xweb.TcpConnection.State.{send_in_loop-state, shutdown_in_loop-state}
use xweb.TcpConnection.Stream.{
  Inv, stream, bytes_of, transmitted, transmitted-emit, transmitted-quiet,
}
use xweb.TcpConnection.Send.{kept, Plausible, send_in_loop_refines}
use xweb.TcpConnection.Write.{handle_write_refines}
use xweb.TcpConnection.Read.{Readable}
use xweb.TcpConnection.Lifecycle.{closed, handle_close-alive}

-- A result is that of the system call, if the code makes it.
pub data Op : Type 0 where
  -- `send`, on the loop's thread or on another
  sends : Bool → List ℕ → WriteResult → Op
  shuts : Bool → Op
  -- the loop runs the oldest functor that another thread queued
  runs : WriteResult → Op
  readable : ReadResult → Op
  writable : WriteResult → Op

unfoldable pub run_oldest : TcpConnection → List Task → WriteResult → Option TcpConnection
unfolding run_task
run_oldest c [] result = some c
run_oldest c (t ∷ ts) result = run_task (record c { pending = ts }) t result

pub run_oldest-state :
    (c c' : TcpConnection) (ts : List Task) (result : WriteResult)
    → run_oldest c ts result ≡ some c'
    → c'.state ≡ c.state
unfolding run_oldest run_task
run_oldest-state c c' [] result h = ground arith
run_oldest-state c c' (Task.send_task ds ∷ ts) result h =
    send_in_loop-state (record c { pending = ts }) c' true ds result h
run_oldest-state c c' (Task.shutdown_task ∷ ts) result h =
    shutdown_in_loop-state (record c { pending = ts }) c' true h

pub step : TcpConnection → Op → Option TcpConnection
unfolding send shutdown run_oldest handle_read handle_write
step c (Op.sends in_loop ds result) = send c in_loop ds result
step c (Op.shuts in_loop) = shutdown c in_loop
step c (Op.runs result) = run_oldest c c.pending result
step c (Op.readable read) = handle_read c true read
step c (Op.writable result) = handle_write c true result

pub run : TcpConnection → List Op → Option TcpConnection
unfolding step
run c [] = some c
run c (op ∷ ops) = step c op >>= λ c'. run c' ops

-- What `sendInLoop` adds to the stream.
pub added : TcpConnection → List ℕ → WriteResult → List ℕ
added c ds result = if is_disconnected c.state then [] else kept c ds result

-- What the oldest functor adds.
pub added_by : TcpConnection → List Task → WriteResult → List ℕ
unfolding added
added_by c [] result = []
added_by c (Task.send_task ds ∷ ts) result = added c ds result
added_by c (Task.shutdown_task ∷ ts) result = []

-- The bytes that a step adds to the stream.
pub accepted : TcpConnection → Op → List ℕ
unfolding added added_by
accepted c (Op.sends in_loop ds result) =
    if in_loop then (if is_connected c.state then added c ds result else []) else []
accepted c (Op.shuts in_loop) = []
accepted c (Op.runs result) = added_by c c.pending result
accepted c (Op.readable read) = []
accepted c (Op.writable result) = []

-- Those of a whole run, in its order.
pub accepted_all : TcpConnection → List Op → List ℕ
unfolding accepted step
accepted_all c [] = []
accepted_all c (op ∷ ops) =
    accepted c op ++ elim (step c op) [ none ↦ [] | some c' ↦ accepted_all c' ops ]

-- Room for a message, and a result that `write` can have for it.
unfoldable pub Fits : TcpConnection → List ℕ → WriteResult → Type 0
unfolding Plausible
Fits c ds result =
    (c.output_buffer.writer_index + length ds ≤ max_size) × Plausible result (length ds)

unfoldable pub FitsOldest : TcpConnection → List Task → WriteResult → Type 0
unfolding Fits
FitsOldest c [] result = Unit {0}
FitsOldest c (Task.send_task ds ∷ ts) result = Fits c ds result
FitsOldest c (Task.shutdown_task ∷ ts) result = Unit {0}

-- What the system can do in a state: a message fits, a result is one that the call can have, and
-- the poller reports a readable socket only before its channel is removed.
pub Ready : TcpConnection → Op → Type 0
unfolding Fits FitsOldest Readable Plausible
Ready c (Op.sends in_loop ds result) = Fits c ds result
Ready c (Op.shuts in_loop) = Unit {0}
Ready c (Op.runs result) = FitsOldest c c.pending result
Ready c (Op.readable read) =
    ((is_connected c.state || is_disconnecting c.state) ≡ true) × Readable c read
Ready c (Op.writable result) = Plausible result (length (content c.output_buffer))

pub Possible : TcpConnection → List Op → Type 0
unfolding Ready step
Possible c [] = Unit {0}
Possible c (op ∷ ops) =
    Ready c op × elim (step c op) [ none ↦ Unit {0} | some c' ↦ Possible c' ops ]

-- The output's invariant, and a valid input buffer.
unfoldable pub Good : TcpConnection → Type 0
Good c = Inv c × IsValid c.input_buffer

pub Adds : TcpConnection → List ℕ → TcpConnection → Type 0
unfolding Good
Adds c ds c' = Good c' × (stream c' ≡ stream c ++ ds)
