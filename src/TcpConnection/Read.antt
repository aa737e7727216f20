-- ===== src/TcpConnection/Read.antt =====
-- net/tcp_connection.cpp: `handleRead`, by what its `readv` returned.
use xweb.Prelude.{Yields, ◌+◌, ◌≤◌, ◌≡◌, refl, [], ◌∷◌, ◌++◌, true, length, ◌||◌, arith}
use xweb.Buffer.{Buffer, content, max_size}
use xweb.Buffer.Invariant.{IsValid}
use xweb.Buffer.Transfer.{ReadResult, got, failed, read_fd_refines, read_fd-failed, iov_room}
use xweb.TcpConnection.{
  TcpConnection, Effect, emit, handle_read, handle_error, is_connected, is_disconnecting,
  is_disconnected,
}
use xweb.TcpConnection.Lifecycle.{closed, handle_close-alive}

-- What `readv` can return, with room for it in the largest vector.
unfoldable pub Readable : TcpConnection → ReadResult → Type 0
Readable c (got ds) =
    (length ds ≤ iov_room c.input_buffer) × (c.input_buffer.writer_index + length ds ≤ max_size)
Readable c (failed errno) = Unit {0}

-- Bytes join the input, and the message callback is called; the end of the stream closes the
-- connection; an error only asks for the socket's error.
unfoldable pub Handled : TcpConnection → ReadResult → TcpConnection → Type 0
Handled c (got []) c' =
    (is_disconnected c'.state ≡ true)
    × (c'.effects ≡ (c.effects ++ Effect.remove_channel ∷ []) ++ Effect.close_callback ∷ [])
Handled c (got (d ∷ ds)) c' =
    (content c'.input_buffer ≡ content c.input_buffer ++ d ∷ ds)
    × IsValid c'.input_buffer
    × (c'.state ≡ c.state)
    × (c'.effects ≡ c.effects ++ Effect.message_callback ∷ [])
Handled c (failed errno) c' = c' ≡ emit c Effect.get_socket_error

abbrev with_input : TcpConnection → Buffer → TcpConnection
with_input c input = record c { input_buffer = input }

module _ (c : TcpConnection) (valid : IsValid c.input_buffer)
    (alive : (is_connected c.state || is_disconnecting c.state) ≡ true) where
  -- With a valid input buffer, on a connected or disconnecting connection, `handleRead` does not
  -- stop whatever `readv` returned, and does what `Handled` says of that result.
  pub handle_read_refines :
      (result : ReadResult)
      → Readable c result
      → Yields (handle_read c true result) (Handled c result)
  unfolding handle_read Readable Handled handle_error closed
  handle_read_refines (failed errno) h =
      (emit c Effect.get_socket_error, rw (read_fd-failed c.input_buffer errno) refl, refl)
  handle_read_refines (got []) h =
      let (input, made, (valid', bytes)) = read_fd_refines valid [] h.0 h.1 in
      (
        closed (with_input c input),
        rw made (handle_close-alive (with_input c input) alive),
        (refl, refl),
      )
  handle_read_refines (got (d ∷ ds)) h =
      let (input, made, (valid', bytes)) = read_fd_refines valid (d ∷ ds) h.0 h.1 in
      (
        emit (with_input c input) Effect.message_callback,
        rw made (ground arith),
        (bytes, valid', refl, refl),
      )
