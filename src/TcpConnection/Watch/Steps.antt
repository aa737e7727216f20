-- ===== src/TcpConnection/Watch/Steps.antt =====
-- net/tcp_connection.cpp: every step keeps the poller informed of the mask.
use xweb.Prelude.{
  ℕ, ◌<◌, ◌≡◌, refl, List, [], ◌∷◌, ◌++◌, none, some, Bool, true, false, arith, add_size, length,
  take, drop, Option-cases, Bool-cases, inl, inr,
}
use Prim.Native.Nat.{bit_or}
use xweb.Buffer
use xweb.Buffer.{readable_bytes, peek, retrieve}
use xweb.Buffer.Transfer.{ReadResult, got, failed, read_fd}
use xweb.Channel.{channel_write, set_event}
use xweb.TcpConnection.{
  TcpConnection, Effect, WriteResult, wrote, write_failed, Attempt, queue_rest, queue_remaining,
  write_directly, send_in_loop, shutdown_in_loop, handle_read, handle_write, handle_close,
  handle_error, emit, is_disconnected,
}
use xweb.TcpConnection.Stream.{Inv}
use xweb.TcpConnection.Write.{after_drain, drained_lem}
use xweb.TcpConnection.Watch.{
  Synced, last_mask, mask_after, all_low, is_low, last_mask-emit, all_low-emit, bit_or-low,
}

-- An effect that tells the poller nothing.
told :
    (es : List Effect) (e : Effect)
    → mask_after (last_mask none es) e ≡ last_mask none es
    → is_low e ≡ true
    → (last_mask none (es ++ e ∷ []) ≡ last_mask none es) × (all_low (es ++ e ∷ []) ≡ all_low es)
told es e quiet low =
    (rw (last_mask-emit none es e) quiet, rw (all_low-emit es e, low) (ground arith))

updated :
    (es : List Effect) (mask : ℕ)
    → mask < 8
    → (last_mask none (es ++ Effect.update_channel mask ∷ []) ≡ some mask)
      × (all_low (es ++ Effect.update_channel mask ∷ []) ≡ all_low es)
unfolding is_low mask_after
updated es mask low = (
  last_mask-emit none es (Effect.update_channel mask),
  rw (all_low-emit es (Effect.update_channel mask)) (ground arith),
)

module _ (c : TcpConnection) (s : Synced c) (open_yet : is_disconnected c.state ≡ false) where
  queue_rest-Synced : (c' : TcpConnection) (rest : List ℕ) → queue_rest c rest ≡ some c' → Synced c'
  unfolding queue_rest is_low mask_after set_event
  queue_rest-Synced c' rest h =
      let total = add_size (readable_bytes c.output_buffer) (length rest) in
      let mark = Effect.high_water_mark_callback total in
      let mask = bit_or c.channel.events channel_write in
      let low = bit_or-low c.channel.events s.low in
      ground (
        arith,
        low,
        open_yet,
        s.last,
        Option-cases (Buffer.append c.output_buffer rest),
        told c.effects mark refl refl,
        updated c.effects mask low,
        updated (c.effects ++ mark ∷ []) mask low,
      )

  -- `write` changes neither the channel nor the state.
  write_directly-Synced :
      (ds : List ℕ) (result : WriteResult)
      → Synced (write_directly c ds result).conn
        × (is_disconnected (write_directly c ds result).conn.state ≡ false)
  unfolding write_directly is_low mask_after
  write_directly-Synced ds (write_failed errno) = (s, open_yet)
  write_directly-Synced ds (wrote n) =
      let sent = Effect.sent (take n ds) in
      ground (
        arith,
        open_yet,
        s.last,
        told c.effects sent refl refl,
        told (c.effects ++ sent ∷ []) Effect.write_complete_callback refl refl,
      )

queue_remaining-Synced :
    (a : Attempt) (c' : TcpConnection) (ds : List ℕ)
    → Synced a.conn
    → is_disconnected a.conn.state ≡ false
    → queue_remaining a ds ≡ some c'
    → Synced c'
unfolding queue_remaining
queue_remaining-Synced a c' ds s open_yet h =
    ground (arith, queue_rest-Synced a.conn s open_yet c' (take a.remaining (drop a.nwrote ds)))

module _ (c : TcpConnection) (s : Synced c) where
  pub send_in_loop-Synced :
      (c' : TcpConnection) (in_loop : Bool) (ds : List ℕ) (result : WriteResult)
      → send_in_loop c in_loop ds result ≡ some c'
      → Synced c'
  unfolding send_in_loop
  send_in_loop-Synced c' in_loop ds result h = elim (Bool-cases (is_disconnected c.state)) [
    | inl over ↦ ground (arith, over)
    | inr open_yet ↦
        let (s1, open1) = write_directly-Synced c s open_yet ds result in
        let waiting : Attempt = record {
          conn = c;
          nwrote = 0;
          remaining = length ds;
          fault_error = false;
        } in
        ground (
          arith,
          open_yet,
          queue_remaining-Synced (write_directly c ds result) c' ds s1 open1,
          queue_remaining-Synced waiting c' ds s open_yet,
        )
  ]

  handle_close-Synced :
      (c' : TcpConnection) (in_loop : Bool) → handle_close c in_loop ≡ some c' → Synced c'
  unfolding handle_close is_low mask_after
  handle_close-Synced c' in_loop h =
      let gone = c.effects ++ Effect.remove_channel ∷ [] in
      ground (
        arith,
        last_mask-emit none c.effects Effect.remove_channel,
        all_low-emit c.effects Effect.remove_channel,
        told gone Effect.close_callback refl refl,
      )

  emit-Synced :
      (e : Effect)
      → mask_after (last_mask none c.effects) e ≡ last_mask none c.effects
      → is_low e ≡ true
      → Synced (emit c e)
  emit-Synced e quiet low = ground (arith, s.last, told c.effects e quiet low)

-- A change of the buffers, the functors or, short of the end, the state.
pub same-Synced :
    (c c' : TcpConnection)
    → Synced c
    → c'.channel ≡ c.channel
    → c'.effects ≡ c.effects
    → is_disconnected c'.state ≡ is_disconnected c.state
    → Synced c'
same-Synced c c' s channel effects state = ground (arith, s.last, channel, effects, state)

module _ (c : TcpConnection) (s : Synced c) where
  pub handle_read-Synced :
      (c' : TcpConnection) (result : ReadResult) → handle_read c true result ≡ some c' → Synced c'
  unfolding handle_read handle_error is_low mask_after
  handle_read-Synced c' (failed errno) h =
      elim (Option-cases (read_fd c.input_buffer (failed errno))) [
        | inl e ↦ ground (arith, e)
        | inr (input, e) ↦
            let c1 = record c { input_buffer = input } in
            let s1 = same-Synced c c1 s refl refl refl in
            ground (arith, e, emit-Synced c1 s1 Effect.get_socket_error refl refl)
      ]
  handle_read-Synced c' (got ds) h = elim (Option-cases (read_fd c.input_buffer (got ds))) [
    | inl e ↦ ground (arith, e)
    | inr (input, e) ↦
        let c1 = record c { input_buffer = input } in
        let s1 = same-Synced c c1 s refl refl refl in
        ground (
          arith,
          e,
          handle_close-Synced c1 s1 c' true,
          emit-Synced c1 s1 Effect.message_callback refl refl,
        )
  ]

  after_drain-Synced : is_disconnected c.state ≡ false → Synced (after_drain c)
  unfolding is_low mask_after set_event
  after_drain-Synced open_yet =
      let update = c.effects ++ Effect.update_channel 0 ∷ [] in
      let complete = update ++ Effect.write_complete_callback ∷ [] in
      ground (
        arith,
        open_yet,
        updated c.effects 0 (omega arith),
        told update Effect.write_complete_callback refl refl,
        told update Effect.shutdown_write refl refl,
        told complete Effect.shutdown_write refl refl,
      )

pub handle_write-Synced :
    (c c' : TcpConnection) (result : WriteResult)
    → Inv c
    → Synced c
    → is_disconnected c.state ≡ false
    → handle_write c true result ≡ some c'
    → Synced c'
unfolding handle_write is_low mask_after
handle_write-Synced c c' (write_failed errno) i s open_yet h = ground (arith, s.last)
handle_write-Synced c c' (wrote n) i s open_yet h =
    elim (Option-cases (retrieve c.output_buffer n)) [
      | inl e ↦ ground (arith, e, s.last)
      | inr (output, e) ↦
          let bytes =
            Effect.sent (take n (peek c.output_buffer (readable_bytes c.output_buffer))) in
          let c0 = record c { output_buffer = output } in
          let c1 = emit c0 bytes in
          let s1 = emit-Synced c0 (same-Synced c c0 s refl refl refl) bytes refl refl in
          ground (arith, e, s.last, drained_lem c1 i.mask, after_drain-Synced c1 s1 open_yet, s1)
    ]

pub shutdown_in_loop-Synced :
    (c c' : TcpConnection) → Synced c → shutdown_in_loop c true ≡ some c' → Synced c'
unfolding shutdown_in_loop is_low mask_after
shutdown_in_loop-Synced c c' s h =
    ground (arith, s.last, emit-Synced c s Effect.shutdown_write refl refl)
