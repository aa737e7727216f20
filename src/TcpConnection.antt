-- ===== src/TcpConnection.antt =====
-- net/tcp_connection.h and net/tcp_connection.cpp: a connection between its socket and two buffers.
-- What the code calls outside the connection (the socket, the loop, the user's callbacks) is a list
-- of effects, oldest first; what a system call returns is an argument. A functor that another
-- thread hands to the loop waits in `pending`. `none` is a failed `assert`.
mod Core
pub mod Stream
pub mod Send
pub mod Write
pub mod Lifecycle
pub mod Read
pub mod Input
pub mod Run
pub mod Drain
pub mod State
pub mod Shut
pub mod Watch
mod Tests
unfoldable pub use Core.*
use xweb.Prelude.{
  ℕ, ◌*◌, List, [], ◌∷◌, ◌++◌, Option, none, some, Bool, true, false, not, ◌&&◌, ◌||◌, ltb, leb,
  ◌==◌, if◌then◌else◌, length, take, drop, ◌>>=◌, ◌>>◌, assert, add_size, sub_size,
}
use xweb.Buffer
use xweb.Buffer.{
  Buffer, readable_bytes, peek, retrieve, retrieve_all, retrieve_all_as_string, fresh,
}
use xweb.Buffer.Transfer.{ReadResult, got, failed, read_fd, piece_size}
use xweb.Channel
use xweb.Channel.{
  Channel, new_channel, set_event, is_writing, logical_not, channel_read, channel_write, Handler,
  handle_event, set_active_event,
}
use Prim.Native.Nat.{bit_and, bit_or}

-- The local variables of `sendInLoop` after its first part.
pub record Attempt : Type 0 where
  pub conn : TcpConnection
  pub nwrote : ℕ
  pub remaining : ℕ
  pub fault_error : Bool

-- `write` on the socket with an empty queue.
pub write_directly : TcpConnection → List ℕ → WriteResult → Attempt
write_directly c ds (wrote n) =
    let remaining = sub_size (length ds) n in
    record {
      conn =
          emit_if (remaining == 0 && c.has_write_complete) (emit c (Effect.sent (take n ds)))
            Effect.write_complete_callback;
      nwrote = n;
      remaining = remaining;
      fault_error = false;
    }
write_directly c ds (write_failed errno) = record {
  conn = c;
  nwrote = 0;
  remaining = length ds;
  fault_error = not (errno == ewouldblock) && (errno == epipe || errno == econnreset);
}

-- The call of the high water mark callback, with `remaining` more bytes to wait. It runs at once,
-- before the rest is queued; the model is of a callback that does not itself send on the connection
-- or shut it down.
abbrev pub note_high_water : TcpConnection → ℕ → TcpConnection
note_high_water c remaining =
    let old_len = readable_bytes c.output_buffer in
    let total = add_size old_len remaining in
    emit_if (leb c.high_water_mark total && ltb old_len c.high_water_mark && c.has_high_water) c
      (Effect.high_water_mark_callback total)

-- The rest of a message goes to the output buffer.
pub queue_rest : TcpConnection → List ℕ → Option TcpConnection
unfolding is_writing set_event
queue_rest c rest = do
  let c1 = note_high_water c (length rest)
  output ← Buffer.append c1.output_buffer rest
  let c2 = record c1 { output_buffer = output }
  some (if is_writing c2.channel then c2 else watch c2 (bit_or c2.channel.events channel_write))

-- The second part of `sendInLoop`.
pub queue_remaining : Attempt → List ℕ → Option TcpConnection
unfolding queue_rest
queue_remaining a ds = do
  assert (leb a.remaining (length ds))
  if not a.fault_error && ltb 0 a.remaining
      then queue_rest a.conn (take a.remaining (drop a.nwrote ds))
      else some a.conn

-- `sendInLoop`; the result is that of `write`, if it is called.
pub send_in_loop : TcpConnection → Bool → List ℕ → WriteResult → Option TcpConnection
unfolding is_writing write_directly queue_remaining
send_in_loop c in_loop ds result = do
  assert in_loop
  if is_disconnected c.state
      then some c
      else (if not (is_writing c.channel) && readable_bytes c.output_buffer == 0
          then queue_remaining (write_directly c ds result) ds
          else queue_remaining
              (record { conn = c; nwrote = 0; remaining = length ds; fault_error = false }) ds)

unfoldable pub send : TcpConnection → Bool → List ℕ → WriteResult → Option TcpConnection
unfolding send_in_loop
send c in_loop ds result =
    if is_connected c.state
    then (if in_loop then send_in_loop c in_loop ds result else some (queue c (Task.send_task ds)))
    else some c

-- `send` of a Buffer, which it empties. The string of another thread's buffer passes through a
-- StringPiece, whose size is an int.
pub send_buffer : TcpConnection → Bool → Buffer → WriteResult → Option (TcpConnection × Buffer)
unfolding send_in_loop
send_buffer c in_loop buf result =
    if is_connected c.state
    then (if in_loop
        then (do
          c' ← send_in_loop c in_loop (peek buf (readable_bytes buf)) result
          some (c', retrieve_all buf))
        else (do
          (bytes, buf') ← retrieve_all_as_string buf
          assert (leb (piece_size (length bytes)) (length bytes))
          some (queue c (Task.send_task (take (piece_size (length bytes)) bytes)), buf')))
    else some (c, buf)

unfoldable pub connect_established : TcpConnection → Option TcpConnection
unfolding set_event
connect_established c = do
  assert (is_connecting c.state)
  some
      (emit (watch (record c { state = StateE.connected }) channel_read) Effect.connection_callback)

pub shutdown_in_loop : TcpConnection → Bool → Option TcpConnection
unfolding is_writing
shutdown_in_loop c in_loop = do
  assert in_loop
  some (emit_if (not (is_writing c.channel)) c Effect.shutdown_write)

pub shutdown : TcpConnection → Bool → Option TcpConnection
unfolding shutdown_in_loop
shutdown c in_loop =
    if is_connected c.state
    then (let c' = record c { state = StateE.disconnecting } in
        if in_loop then shutdown_in_loop c' in_loop else some (queue c' Task.shutdown_task))
    else some c

pub handle_close : TcpConnection → Bool → Option TcpConnection
handle_close c in_loop = do
  assert in_loop
  assert (is_connected c.state || is_disconnecting c.state)
  some (
      emit (emit (record c { state = StateE.disconnected }) Effect.remove_channel)
        Effect.close_callback)

pub handle_error : TcpConnection → TcpConnection
handle_error c = emit c Effect.get_socket_error

-- By the result of the `readv` in `readFd`.
unfoldable pub handle_read : TcpConnection → Bool → ReadResult → Option TcpConnection
unfolding handle_close handle_error
handle_read c in_loop (got ds) = do
  input ← read_fd c.input_buffer (got ds)
  let c' = record c { input_buffer = input }
  if ltb 0 (length ds) then some (emit c' Effect.message_callback) else handle_close c' in_loop
handle_read c in_loop (failed errno) = do
  input ← read_fd c.input_buffer (failed errno)
  some (handle_error (record c { input_buffer = input }))

-- The output buffer is empty.
pub drained : TcpConnection → Bool → Option TcpConnection
unfolding set_event logical_not shutdown_in_loop
drained c in_loop = do
  let c1 = watch c (bit_and c.channel.events (logical_not channel_write))
  let c2 = emit_if c1.has_write_complete c1 Effect.write_complete_callback
  if is_disconnecting c2.state then shutdown_in_loop c2 in_loop else some c2

-- The result is that of `write`, if it is called.
pub handle_write : TcpConnection → Bool → WriteResult → Option TcpConnection
unfolding is_writing
handle_write c in_loop (wrote n) = do
  assert in_loop
  if is_writing c.channel && ltb 0 n
      then (do
        let bytes = take n (peek c.output_buffer (readable_bytes c.output_buffer))
        output ← retrieve c.output_buffer n
        let c1 = emit (record c { output_buffer = output }) (Effect.sent bytes)
        if readable_bytes output == 0 then drained c1 in_loop else some c1)
      else some c
handle_write c in_loop (write_failed errno) = do assert in_loop; some c

-- A functor of `pending`, run by the loop.
pub run_task : TcpConnection → Task → WriteResult → Option TcpConnection
unfolding send_in_loop shutdown_in_loop
run_task c (Task.send_task ds) result = send_in_loop c true ds result
run_task c Task.shutdown_task result = shutdown_in_loop c true

-- The handlers that the constructor sets.
unfoldable pub run_handler :
    TcpConnection → Option Handler → ReadResult → WriteResult → Option TcpConnection
unfolding handle_read handle_write
run_handler c none read write = some c
run_handler c (some Handler.read_handler) read write = handle_read c true read
run_handler c (some Handler.write_handler) read write = handle_write c true write
run_handler c (some Handler.conn_handler) read write = none
run_handler c (some Handler.timer_handler) read write = none

-- `handleEvent` on the channel of the connection.
unfoldable pub handle_channel : TcpConnection → ℕ → ReadResult → WriteResult → Option TcpConnection
handle_channel c active read write =
    let c' = record c { channel = set_active_event c.channel active } in
    run_handler c' (handle_event c'.channel) read write

-- The destructor.
unfoldable pub destroy : TcpConnection → Option (Unit {0})
destroy c = assert (is_disconnected c.state)
