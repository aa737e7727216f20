-- ===== src/TcpConnection/State.antt =====
-- net/tcp_connection.cpp: how each operation changes the state of a connection, when it returns.
use xweb.Prelude.{
  ℕ, ◌≡◌, refl, ◌⊎◌, inl, inr, List, Option, sym, ◌∙◌, ap, none, some, Bool, true, false,
  if◌then◌else◌, arith, Option-cases, take, drop, length,
}
use xweb.Buffer.{retrieve, peek, readable_bytes}
use xweb.Buffer.Transfer.{ReadResult, read_fd, got, failed}
use xweb.Channel.{set_active_event, handle_event, Handler}
use xweb.TcpConnection.{
  TcpConnection, StateE, WriteResult, run_handler, wrote, write_failed, is_connected, send,
  shutdown, send_in_loop, queue_rest, queue_remaining, write_directly, handle_channel, handle_read,
  handle_write, handle_close, handle_error, drained, shutdown_in_loop, emit, Effect, Attempt,
  connect_established,
}

queue_rest-state :
    (c c' : TcpConnection) (rest : List ℕ) → queue_rest c rest ≡ some c' → c'.state ≡ c.state
unfolding queue_rest
queue_rest-state c c' rest h = ground arith

write_directly-state :
    (c : TcpConnection) (ds : List ℕ) (result : WriteResult)
    → (write_directly c ds result).conn.state ≡ c.state
unfolding write_directly
write_directly-state c ds (wrote n) = refl
write_directly-state c ds (write_failed errno) = refl

queue_remaining-state :
    (a : Attempt) (c' : TcpConnection) (ds : List ℕ)
    → queue_remaining a ds ≡ some c'
    → c'.state ≡ a.conn.state
unfolding queue_remaining
queue_remaining-state a c' ds h =
    ground (arith, queue_rest-state a.conn c' (take a.remaining (drop a.nwrote ds)))

pub send_in_loop-state :
    (c c' : TcpConnection) (in_loop : Bool) (ds : List ℕ) (result : WriteResult)
    → send_in_loop c in_loop ds result ≡ some c'
    → c'.state ≡ c.state
unfolding send_in_loop
send_in_loop-state c c' in_loop ds result h = ground (
  arith,
  queue_remaining-state (write_directly c ds result) c' ds,
  write_directly-state c ds result,
  queue_remaining-state
      (record { conn = c; nwrote = 0; remaining = length ds; fault_error = false }) c' ds,
)

-- `send` leaves the state as it is.
pub send-state :
    (c c' : TcpConnection) (in_loop : Bool) (ds : List ℕ) (result : WriteResult)
    → send c in_loop ds result ≡ some c'
    → c'.state ≡ c.state
unfolding send
send-state c c' in_loop ds result h = ground (arith, send_in_loop-state c c' in_loop ds result)

pub shutdown_in_loop-state :
    (c c' : TcpConnection) (in_loop : Bool)
    → shutdown_in_loop c in_loop ≡ some c'
    → c'.state ≡ c.state
unfolding shutdown_in_loop
shutdown_in_loop-state c c' in_loop h = ground arith

-- A connected connection that is shut down is disconnecting; any other keeps its state.
pub shutdown-state :
    (c c' : TcpConnection) (in_loop : Bool)
    → shutdown c in_loop ≡ some c'
    → c'.state ≡ (if is_connected c.state then StateE.disconnecting else c.state)
unfolding shutdown
shutdown-state c c' in_loop h =
    ground (arith, shutdown_in_loop-state (record c { state = StateE.disconnecting }) c' in_loop)

drained-state :
    (c c' : TcpConnection) (in_loop : Bool) → drained c in_loop ≡ some c' → c'.state ≡ c.state
unfolding drained
drained-state c c' in_loop h = ground arith

pub handle_write-state :
    (c c' : TcpConnection) (in_loop : Bool) (result : WriteResult)
    → handle_write c in_loop result ≡ some c'
    → c'.state ≡ c.state
unfolding handle_write
handle_write-state c c' in_loop (write_failed errno) h = ground arith
handle_write-state c c' in_loop (wrote n) h = elim (Option-cases (retrieve c.output_buffer n)) [
  | inl e ↦ ground (arith, e)
  | inr (output, e) ↦
      let bytes = take n (peek c.output_buffer (readable_bytes c.output_buffer)) in
      ground (
        arith,
        e,
        drained-state (emit (record c { output_buffer = output }) (Effect.sent bytes)) c' in_loop,
      )
]

handle_close-state :
    (c c' : TcpConnection) (in_loop : Bool)
    → handle_close c in_loop ≡ some c'
    → c'.state ≡ StateE.disconnected
unfolding handle_close
handle_close-state c c' in_loop h = ground arith

pub handle_read-state :
    (c c' : TcpConnection) (in_loop : Bool) (result : ReadResult)
    → handle_read c in_loop result ≡ some c'
    → (c'.state ≡ c.state) ⊎ (c'.state ≡ StateE.disconnected)
unfolding handle_read handle_error
handle_read-state c c' in_loop (failed errno) h =
    elim (Option-cases (read_fd c.input_buffer (failed errno))) [
      | inl e ↦ ground (arith, e)
      | inr (input, e) ↦ ground (arith, e)
    ]
handle_read-state c c' in_loop (got ds) h = elim (Option-cases (read_fd c.input_buffer (got ds))) [
  | inl e ↦ ground (arith, e)
  | inr (input, e) ↦
      ground (arith, e, handle_close-state (record c { input_buffer = input }) c' in_loop)
]

run_handler-state :
    (c c' : TcpConnection) (o : Option Handler) (read : ReadResult) (write : WriteResult)
    → run_handler c o read write ≡ some c'
    → (c'.state ≡ c.state) ⊎ (c'.state ≡ StateE.disconnected)
unfolding run_handler
run_handler-state c c' (some Handler.read_handler) read write h = handle_read-state c c' true read h
run_handler-state c c' (some Handler.write_handler) read write h =
    inl (handle_write-state c c' true write h)
run_handler-state c c' (some Handler.conn_handler) read write h = ground arith
run_handler-state c c' (some Handler.timer_handler) read write h = ground arith
run_handler-state c c' none read write h = ground arith

-- `handleEvent` by the handler that it finds.
pub handle_channel_lem :
    (c : TcpConnection) (active : ℕ) (o : Option Handler) (read : ReadResult) (write : WriteResult)
    → handle_event (set_active_event c.channel active) ≡ o
    → handle_channel c active read write
      ≡ run_handler (record c { channel = set_active_event c.channel active }) o read write
unfolding handle_channel
handle_channel_lem c active o read write h =
    ap
      (λ found.
        run_handler (record c { channel = set_active_event c.channel active }) found read write)
      h

-- A handler of the channel keeps the state, or closes the connection.
pub handle_channel-state :
    (c c' : TcpConnection) (active : ℕ) (read : ReadResult) (write : WriteResult)
    → handle_channel c active read write ≡ some c'
    → (c'.state ≡ c.state) ⊎ (c'.state ≡ StateE.disconnected)
unfolding set_active_event
handle_channel-state c c' active read write h =
    let ready = record c { channel = set_active_event c.channel active } in
    run_handler-state ready c' (handle_event ready.channel) read write
      (sym (handle_channel_lem c active (handle_event ready.channel) read write refl) ∙ h)

pub connect_established-state :
    (c c' : TcpConnection) → connect_established c ≡ some c' → c'.state ≡ StateE.connected
unfolding connect_established
connect_established-state c c' h = ground arith
