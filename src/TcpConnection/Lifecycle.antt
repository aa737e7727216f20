-- ===== src/TcpConnection/Lifecycle.antt =====
-- net/tcp_connection.cpp: the states of a connection, from `connectEstablished` to its destructor.
use xweb.Prelude.{
  Yields, ℕ, ◌≡◌, refl, List, [], ◌∷◌, ◌++◌, none, some, Bool, true, false, ◌||◌, ◌⊎◌, length,
  ◌>>=◌, arith, Bool-cases, inl, inr,
}
use xweb.Buffer.{content}
use xweb.Buffer.Append.{fresh-IsValid}
use xweb.Channel.{is_writing, is_reading, set_event, has_flag}
use xweb.TcpConnection.{
  TcpConnection, Effect, WriteResult, wrote, StateE, shutdown, handle_write, emit, new_connection,
  connect_established, handle_close, destroy, send, is_connected, is_disconnecting, is_disconnected,
}
use xweb.TcpConnection.Stream.{Inv}
use xweb.TcpConnection.Write.{handle_write_drains}

-- A new connection that is established waits for reads, keeps the write flag in step with its
-- empty output buffer, and cannot be established again.
pub established-Inv :
    (garbage fd : ℕ) (complete high : Bool)
    → Yields (connect_established (new_connection garbage fd complete high)) (λ c.
      Inv c
      × (is_reading c.channel ≡ true)
      × (is_connected c.state ≡ true)
      × (connect_established c ≡ none))
unfolding connect_established new_connection is_writing is_reading has_flag set_event
established-Inv garbage fd complete high = (
  _,
  refl,
  (
    record {
      valid = fresh-IsValid.0;
      mask = omega arith;
      idle = λ e. rw fresh-IsValid.1 refl;
      busy = λ e. absurd (ground (arith, e));
    },
    refl,
    refl,
    refl,
  ),
)

disconnecting_conn : TcpConnection → TcpConnection
disconnecting_conn c = record c { state = StateE.disconnecting }

shutdown_busy :
    (c : TcpConnection)
    → is_connected c.state ≡ true
    → is_writing c.channel ≡ true
    → shutdown c true ≡ some (disconnecting_conn c)
unfolding shutdown disconnecting_conn
shutdown_busy c alive busy = rw (alive, busy) refl

-- `shutdown` of a connected connection whose output still waits has no effect at once; when a
-- later `write` takes all of it, these bytes go out first, and the shutdown of the
-- write side is the last effect.
pub shutdown-waits :
    (c : TcpConnection)
    → Inv c
    → is_connected c.state ≡ true
    → is_writing c.channel ≡ true
    → Yields
        (shutdown c true >>= λ c'. handle_write c' true (wrote (length (content c.output_buffer))))
        (λ c'.
          (es : List Effect) × (c'.effects ≡ es ++ Effect.shutdown_write ∷ [])
          × ((es
                ≡ (c.effects ++ Effect.sent (content c.output_buffer) ∷ [])
                  ++ Effect.update_channel 0 ∷ [])
              ⊎ (es
                  ≡ ((c.effects ++ Effect.sent (content c.output_buffer) ∷ [])
                      ++ Effect.update_channel 0 ∷ [])
                    ++ Effect.write_complete_callback ∷ [])))
unfolding disconnecting_conn
shutdown-waits c i alive busy =
    let (c', made, (nothing, valid, channel, effects)) =
      handle_write_drains (disconnecting_conn c)
        (record { valid = i.valid; mask = i.mask; idle = i.idle; busy = i.busy }) busy in
    (
      c',
      rw (shutdown_busy c alive busy) made,
      elim (Bool-cases c.has_write_complete) [
        | inl e ↦ (_, rw (effects, e) refl, inr refl)
        | inr e ↦ (_, rw (effects, e) refl, inl refl)
      ],
    )

unfoldable pub closed : TcpConnection → TcpConnection
closed c =
    emit (emit (record c { state = StateE.disconnected }) Effect.remove_channel)
      Effect.close_callback

pub handle_close-alive :
    (c : TcpConnection)
    → (is_connected c.state || is_disconnecting c.state) ≡ true
    → handle_close c true ≡ some (closed c)
unfolding handle_close closed
handle_close-alive c alive = rw alive refl

-- `handleClose` on a connected or disconnecting connection removes its channel and calls the close
-- callback; then the destructor may run, and before it a `send` changes nothing and a second
-- `handleClose` stops.
pub handle_close-final :
    (c : TcpConnection)
    → (is_connected c.state || is_disconnecting c.state) ≡ true
    → Yields (handle_close c true) (λ c'.
      (c'.effects ≡ (c.effects ++ Effect.remove_channel ∷ []) ++ Effect.close_callback ∷ [])
      × (destroy c' ≡ some tt)
      × ((in_loop : Bool) (ds : List ℕ) (result : WriteResult)
          → send c' in_loop ds result ≡ some c')
      × (handle_close c' true ≡ none))
unfolding handle_close destroy send closed
handle_close-final c alive =
    (closed c, rw alive refl, (refl, refl, λ in_loop ds result. refl, refl))

-- The destructor stops unless the connection was closed.
pub destroy-early : (c : TcpConnection) → is_disconnected c.state ≡ false → destroy c ≡ none
unfolding destroy
destroy-early c h = rw h refl

pub destroy-late : (c : TcpConnection) → is_disconnected c.state ≡ true → destroy c ≡ some tt
unfolding destroy
destroy-late c h = rw h refl
