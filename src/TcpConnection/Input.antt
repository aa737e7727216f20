-- ===== src/TcpConnection/Input.antt =====
-- net/tcp_connection.cpp: `send` and `handleWrite` do not touch the input buffer.
use xweb.Prelude.{
  ℕ, ◌≡◌, refl, List, inl, inr, some, Bool, false, arith, Option-cases, take, drop, length,
}
use xweb.Buffer.{retrieve, peek, readable_bytes}
use xweb.TcpConnection.{
  TcpConnection, WriteResult, wrote, write_failed, send_in_loop, queue_rest, queue_remaining,
  write_directly, handle_write, drained, shutdown_in_loop, emit, Effect, Attempt,
}

queue_rest-input :
    (c c' : TcpConnection) (rest : List ℕ)
    → queue_rest c rest ≡ some c'
    → c'.input_buffer ≡ c.input_buffer
unfolding queue_rest
queue_rest-input c c' rest h = ground arith

queue_remaining-input :
    (a : Attempt) (c' : TcpConnection) (ds : List ℕ)
    → queue_remaining a ds ≡ some c'
    → c'.input_buffer ≡ a.conn.input_buffer
unfolding queue_remaining
queue_remaining-input a c' ds h =
    ground (arith, queue_rest-input a.conn c' (take a.remaining (drop a.nwrote ds)))

write_directly-input :
    (c : TcpConnection) (ds : List ℕ) (result : WriteResult)
    → (write_directly c ds result).conn.input_buffer ≡ c.input_buffer
unfolding write_directly
write_directly-input c ds (wrote n) = refl
write_directly-input c ds (write_failed errno) = refl

pub send_in_loop-input :
    (c c' : TcpConnection) (in_loop : Bool) (ds : List ℕ) (result : WriteResult)
    → send_in_loop c in_loop ds result ≡ some c'
    → c'.input_buffer ≡ c.input_buffer
unfolding send_in_loop
send_in_loop-input c c' in_loop ds result h = ground (
  arith,
  queue_remaining-input (write_directly c ds result) c' ds,
  write_directly-input c ds result,
  queue_remaining-input
      (record { conn = c; nwrote = 0; remaining = length ds; fault_error = false }) c' ds,
)

drained-input :
    (c c' : TcpConnection) (in_loop : Bool)
    → drained c in_loop ≡ some c'
    → c'.input_buffer ≡ c.input_buffer
unfolding drained shutdown_in_loop
drained-input c c' in_loop h = ground arith

pub handle_write-input :
    (c c' : TcpConnection) (in_loop : Bool) (result : WriteResult)
    → handle_write c in_loop result ≡ some c'
    → c'.input_buffer ≡ c.input_buffer
unfolding handle_write
handle_write-input c c' in_loop (write_failed errno) h = ground arith
handle_write-input c c' in_loop (wrote n) h = elim (Option-cases (retrieve c.output_buffer n)) [
  | inl e ↦ ground (arith, e)
  | inr (output, e) ↦
      let bytes = take n (peek c.output_buffer (readable_bytes c.output_buffer)) in
      ground (
        arith,
        e,
        drained-input (emit (record c { output_buffer = output }) (Effect.sent bytes)) c' in_loop,
      )
]
