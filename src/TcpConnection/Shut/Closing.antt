-- ===== src/TcpConnection/Shut/Closing.antt =====
-- net/tcp_connection.cpp: what holds of a connection once the write side of its socket is shut
-- down.
use xweb.Prelude.{
  ℕ, ◌≤◌, ◌≡◌, refl, List, [], ◌∷◌, ◌++◌, some, Bool, true, false, ◌||◌, take, arith, Option-cases,
  inl, inr,
}
use xweb.Buffer.{peek, readable_bytes, retrieve}
use xweb.Channel.{is_writing, has_flag, set_event}
use xweb.TcpConnection.{
  TcpConnection, Effect, Task, WriteResult, wrote, write_failed, send_in_loop, handle_write, emit,
  epipe, is_connected, is_disconnecting,
}
use xweb.TcpConnection.Stream.{Inv}
use xweb.TcpConnection.Send.{kept}
use xweb.Buffer.Invariant.{readable_bytes_lem, length-content}
use xweb.TcpConnection.Write.{after_drain, drained_lem}
use xweb.TcpConnection.Shut.{
  is_shut, is_shutdown_write, count_sent, count_sent-emit, is_shut-emit, Sends-emit,
}

unfoldable pub is_shutdown_task : Task → Bool
is_shutdown_task (Task.send_task ds) = false
is_shutdown_task Task.shutdown_task = true

-- Whether a functor that shuts down waits.
unfoldable pub asks : List Task → Bool
unfolding is_shutdown_task
asks [] = false
asks (t ∷ ts) = is_shutdown_task t || asks ts

-- Once the write side is shut down nothing waits to be sent and the connection has left
-- `kConnected`, which it has also once a functor that shuts down waits.
pub record Closing (c : TcpConnection) : Type 0 where
  pub idle : is_shut c.effects ≡ true → is_writing c.channel ≡ false
  pub left : is_shut c.effects ≡ true → is_connected c.state ≡ false
  pub asked : asks c.pending ≡ true → is_connected c.state ≡ false

-- After the write side was shut down a `write` fails with EPIPE.
unfoldable pub Refused : TcpConnection → WriteResult → Type 0
Refused c result = is_shut c.effects ≡ true → result ≡ write_failed epipe

pub asks-queue : (ts : List Task) (t : Task) → asks (ts ++ t ∷ []) ≡ (asks ts || is_shutdown_task t)
unfolding asks
asks-queue [] t = ground arith
asks-queue (u ∷ ts) t = ground (arith, asks-queue ts t)

-- Then `sendInLoop` takes nothing.
module _ (c : TcpConnection) (i : Inv c) (k : Closing c) (shut : is_shut c.effects ≡ true) where
  pub kept-shut : (ds : List ℕ) → kept c ds (write_failed epipe) ≡ []
  unfolding kept
  kept-shut ds = rw (k.idle shut) refl

  pub send_in_loop-shut : (ds : List ℕ) → send_in_loop c true ds (write_failed epipe) ≡ some c
  unfolding send_in_loop
  send_in_loop-shut ds =
      ground (
        arith,
        k.idle shut,
        i.idle (k.idle shut),
        readable_bytes_lem i.valid,
        length-content i.valid,
      )

after_drain-shut :
    (c : TcpConnection)
    → is_shut c.effects ≡ false
    → (count_sent c.effects ≤ count_sent (after_drain c).effects)
      × (is_shut (after_drain c).effects ≡ true → is_disconnecting c.state ≡ true)
unfolding is_shutdown_write
after_drain-shut c open_yet =
    let update = c.effects ++ Effect.update_channel 0 ∷ [] in
    let complete = update ++ Effect.write_complete_callback ∷ [] in
    ground (
      arith,
      Sends-emit c.effects (Effect.update_channel 0) refl,
      Sends-emit update Effect.write_complete_callback refl,
      is_shut-emit update Effect.shutdown_write,
      is_shut-emit complete Effect.shutdown_write,
      count_sent-emit update Effect.shutdown_write,
      count_sent-emit complete Effect.shutdown_write,
    )

-- What `handleWrite` leaves of an open connection.
abbrev pub Open : TcpConnection → TcpConnection → Type 0
Open c c' =
    (count_sent c.effects ≤ count_sent c'.effects)
    × (c'.pending ≡ c.pending)
    × (is_shut c'.effects ≡ true → is_writing c'.channel ≡ false)
    × (is_shut c'.effects ≡ true → is_disconnecting c.state ≡ true)

pub handle_write-Open :
    (c c' : TcpConnection) (result : WriteResult)
    → Inv c
    → is_shut c.effects ≡ false
    → handle_write c true result ≡ some c'
    → Open c c'
unfolding handle_write is_writing has_flag set_event is_shutdown_write
handle_write-Open c c' (write_failed errno) i open_yet h = ground arith
handle_write-Open c c' (wrote n) i open_yet h = elim (Option-cases (retrieve c.output_buffer n)) [
  | inl e ↦ ground (arith, e)
  | inr (output, e) ↦
      let bytes = Effect.sent (take n (peek c.output_buffer (readable_bytes c.output_buffer))) in
      let c1 = emit (record c { output_buffer = output }) bytes in
      ground (arith, e, Sends-emit c.effects bytes refl, drained_lem c1 i.mask, after_drain-shut c1)
]
