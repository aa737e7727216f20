-- ===== src/TcpConnection/Shut.antt =====
-- net/tcp_connection.cpp: when the write side of the socket is shut down, and what the
-- operations of a connection do to that, to what they sent and to the functors that wait.
pub mod Closing
use xweb.Prelude.{
  ℕ, ◌+◌, ◌≤◌, ◌≡◌, refl, List, [], ◌∷◌, ◌++◌, none, some, Bool, true, false, ◌||◌, if◌then◌else◌,
  length, length-append, take, drop, arith, Bool-cases, Option-cases, add_size, inl, inr, ap, ◌∙◌,
}
use xweb.Buffer
use xweb.Buffer.{Buffer, peek, readable_bytes, retrieve}
use xweb.Buffer.Transfer.{ReadResult, got, failed, read_fd}
use Prim.Native.Nat.{bit_or}
use xweb.Channel.{channel_write}
use xweb.TcpConnection.{
  TcpConnection, Effect, Task, WriteResult, wrote, write_failed, Attempt, queue_rest,
  queue_remaining, write_directly, send_in_loop, send, shutdown, shutdown_in_loop, handle_read,
  handle_write, handle_close, handle_error, drained, emit, note_high_water,
}
use xweb.TcpConnection.Stream.{transmitted, transmitted-emit, bytes_of}

unfoldable pub is_shutdown_write : Effect → Bool
is_shutdown_write e = elim e [ Effect.shutdown_write ↦ true | _ ↦ false ]

-- Whether the write side of the socket was shut down.
unfoldable pub is_shut : List Effect → Bool
unfolding is_shutdown_write
is_shut [] = false
is_shut (e ∷ es) = is_shutdown_write e || is_shut es

-- How many bytes the socket took.
unfoldable pub count_sent : List Effect → ℕ
count_sent es = length (transmitted es)

pub is_shut-emit :
    (es : List Effect) (e : Effect) → is_shut (es ++ e ∷ []) ≡ (is_shut es || is_shutdown_write e)
unfolding is_shut
is_shut-emit [] e = ground arith
is_shut-emit (d ∷ es) e = ground (arith, is_shut-emit es e)

-- Effects after others: more may be sent, and nothing is shut down.
abbrev pub Sends : List Effect → List Effect → Type 0
Sends es es' = (is_shut es' ≡ is_shut es) × (count_sent es ≤ count_sent es')

pub count_sent-emit : (es : List Effect) (e : Effect) → count_sent es ≤ count_sent (es ++ e ∷ [])
unfolding count_sent
count_sent-emit es e =
    omega (arith, ap length (transmitted-emit es e), length-append (transmitted es) (bytes_of e))

pub Sends-emit :
    (es : List Effect) (e : Effect) → is_shutdown_write e ≡ false → Sends es (es ++ e ∷ [])
Sends-emit es e h = (rw (is_shut-emit es e, h) (ground arith), count_sent-emit es e)

-- What `sendInLoop` does to them, and that it leaves the functors alone.
abbrev pub Keeps : TcpConnection → TcpConnection → Type 0
Keeps c c' =
    (is_shut c'.effects ≡ is_shut c.effects)
    × (count_sent c.effects ≤ count_sent c'.effects)
    × (c'.pending ≡ c.pending)

queue_rest-Keeps : (c c' : TcpConnection) (rest : List ℕ) → queue_rest c rest ≡ some c' → Keeps c c'
unfolding queue_rest is_shutdown_write
queue_rest-Keeps c c' rest h =
    let total = add_size (readable_bytes c.output_buffer) (length rest) in
    let marked = c.effects ++ Effect.high_water_mark_callback total ∷ [] in
    let update = Effect.update_channel (bit_or c.channel.events channel_write) in
    ground (
      arith,
      Option-cases (Buffer.append c.output_buffer rest),
      Sends-emit c.effects (Effect.high_water_mark_callback total) refl,
      Sends-emit c.effects update refl,
      Sends-emit marked update refl,
    )

write_directly-Keeps :
    (c : TcpConnection) (ds : List ℕ) (result : WriteResult)
    → Keeps c (write_directly c ds result).conn
unfolding write_directly is_shutdown_write
write_directly-Keeps c ds (write_failed errno) = (refl, omega arith, refl)
write_directly-Keeps c ds (wrote n) =
    let sent = Effect.sent (take n ds) in
    ground (
      arith,
      Sends-emit c.effects sent refl,
      Sends-emit (c.effects ++ sent ∷ []) Effect.write_complete_callback refl,
    )

queue_remaining-Keeps :
    (a : Attempt) (c' : TcpConnection) (ds : List ℕ)
    → queue_remaining a ds ≡ some c'
    → Keeps a.conn c'
unfolding queue_remaining
queue_remaining-Keeps a c' ds h =
    ground (arith, queue_rest-Keeps a.conn c' (take a.remaining (drop a.nwrote ds)))

pub send_in_loop-Keeps :
    (c c' : TcpConnection) (in_loop : Bool) (ds : List ℕ) (result : WriteResult)
    → send_in_loop c in_loop ds result ≡ some c'
    → Keeps c c'
unfolding send_in_loop
send_in_loop-Keeps c c' in_loop ds result h = ground (
  arith,
  queue_remaining-Keeps (write_directly c ds result) c' ds,
  write_directly-Keeps c ds result,
  queue_remaining-Keeps
      (record { conn = c; nwrote = 0; remaining = length ds; fault_error = false }) c' ds,
)

handle_close-Keeps :
    (c c' : TcpConnection) (in_loop : Bool) → handle_close c in_loop ≡ some c' → Keeps c c'
unfolding handle_close is_shutdown_write
handle_close-Keeps c c' in_loop h = ground (
  arith,
  Sends-emit c.effects Effect.remove_channel refl,
  Sends-emit (c.effects ++ Effect.remove_channel ∷ []) Effect.close_callback refl,
)

pub handle_read-Keeps :
    (c c' : TcpConnection) (in_loop : Bool) (result : ReadResult)
    → handle_read c in_loop result ≡ some c'
    → Keeps c c'
unfolding handle_read handle_error is_shutdown_write
handle_read-Keeps c c' in_loop (failed errno) h = ground (
  arith,
  Option-cases (read_fd c.input_buffer (failed errno)),
  Sends-emit c.effects Effect.get_socket_error refl,
)
handle_read-Keeps c c' in_loop (got ds) h = elim (Option-cases (read_fd c.input_buffer (got ds))) [
  | inl e ↦ ground (arith, e)
  | inr (input, e) ↦ ground (
    arith,
    e,
    handle_close-Keeps (record c { input_buffer = input }) c' in_loop,
    Sends-emit c.effects Effect.message_callback refl,
  )
]

pub handle_read-channel :
    (c c' : TcpConnection) (in_loop : Bool) (result : ReadResult)
    → handle_read c in_loop result ≡ some c'
    → c'.channel ≡ c.channel
unfolding handle_read handle_error handle_close
handle_read-channel c c' in_loop (failed errno) h =
    ground (arith, Option-cases (read_fd c.input_buffer (failed errno)))
handle_read-channel c c' in_loop (got ds) h =
    ground (arith, Option-cases (read_fd c.input_buffer (got ds)))
