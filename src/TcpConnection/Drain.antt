-- ===== src/TcpConnection/Drain.antt =====
-- net/tcp_connection.cpp: a connection whose socket goes on taking bytes.
use xweb.Prelude.{
  Yields, ℕ, ◌≤◌, ◌<◌, ◌≡◌, refl, List, [], ◌∷◌, ◌++◌, Option, some, true, false, min, length,
  length-drop, ◌>>=◌, arith, Bool-cases, inl, inr, dec_lt, ◌∙◌, ap, sym, append-nil,
}
use xweb.Buffer.{content}
use xweb.Channel.{is_writing, has_flag, set_event}
use xweb.TcpConnection.{
  TcpConnection, Effect, wrote, handle_write, is_disconnecting, emit, emit_if, watch,
}
use xweb.TcpConnection.Stream.{Inv, stream, transmitted}
use xweb.TcpConnection.State.{handle_write-state}
use xweb.TcpConnection.Write.{
  handle_write_idle, write_partly, write_all-refines, handle_write_drains,
}

-- `handleWrite` for each report of the poller, where the socket takes so many bytes, or all that
-- wait.
unfoldable pub handle_writes : List ℕ → TcpConnection → Option TcpConnection
handle_writes [] c = some c
handle_writes (n ∷ ns) c =
    handle_write c true (wrote (min n (length (content c.output_buffer)))) >>= handle_writes ns

handle_writes_next :
    (n m : ℕ) (ns : List ℕ) (c c1 : TcpConnection)
    → min n (length (content c.output_buffer)) ≡ m
    → handle_write c true (wrote m) ≡ some c1
    → handle_writes (n ∷ ns) c ≡ handle_writes ns c1
unfolding handle_writes
handle_writes_next n m ns c c1 e made = rw (e, made) refl

unfoldable pub Positive : List ℕ → Type 0
Positive [] = Unit {0}
Positive (n ∷ ns) = (0 < n) × Positive ns

handle_writes_idle :
    (ns : List ℕ) (c : TcpConnection) → is_writing c.channel ≡ false → handle_writes ns c ≡ some c
unfolding handle_writes
handle_writes_idle [] c idle = refl
handle_writes_idle (n ∷ ns) c idle =
    rw (handle_write_idle c (wrote (min n (length (content c.output_buffer)))) idle)
      (handle_writes_idle ns c idle)

-- Everything is sent, and the write side of the socket is shut down last.
abbrev Drained : List ℕ → TcpConnection → Type 0
Drained ds c =
    (content c.output_buffer ≡ [])
    × (c.channel.events ≡ 0)
    × (transmitted c.effects ≡ ds)
    × ((es : List Effect) × (c.effects ≡ es ++ Effect.shutdown_write ∷ []))

-- What goes before the shutdown.
abbrev before : TcpConnection → TcpConnection
before c =
    emit_if c.has_write_complete (watch (emit c (Effect.sent (content c.output_buffer))) 0)
      Effect.write_complete_callback

unwatched : (c : TcpConnection) → c.channel.events ≡ 0 → is_writing c.channel ≡ false
unfolding is_writing has_flag
unwatched c h = rw h refl

-- The last `write`.
last_lem :
    (c : TcpConnection)
    → Inv c
    → is_writing c.channel ≡ true
    → is_disconnecting c.state ≡ true
    → Yields (handle_write c true (wrote (length (content c.output_buffer)))) (Drained (stream c))
unfolding stream is_writing has_flag set_event
last_lem c i busy closing =
    let (c1, made, (nothing, valid, channel, effects)) = handle_write_drains c i busy in
    let (c2, made2, (inv, same)) = write_all-refines c i busy in
    let e : c2 ≡ c1 = ground (arith, made, made2) in
    (
      c1,
      made,
      (
        nothing,
        ap (λ ch. ch.events) channel,
        sym (append-nil (transmitted c1.effects))
            ∙ ap (λ ds. transmitted c1.effects ++ ds) (sym nothing)
            ∙ ap stream (sym e)
            ∙ same,
        ((before c).effects, rw (effects, closing) refl),
      ),
    )

-- While the connection is disconnecting and its output waits, enough reports that the socket is
-- writable, each of which lets it take at least one byte, send everything that waited, in order
-- and behind what was sent before; the mask of its channel is then 0, without the read flag too,
-- and the shutdown of the write side is the last effect.
pub handle_writes-Drained :
    (ns : List ℕ) (c : TcpConnection)
    → Inv c
    → is_writing c.channel ≡ true
    → is_disconnecting c.state ≡ true
    → Positive ns
    → length (content c.output_buffer) ≤ length ns
    → Yields (handle_writes ns c) (λ c'.
      (content c'.output_buffer ≡ [])
      × (c'.channel.events ≡ 0)
      × (transmitted c'.effects ≡ stream c)
      × ((es : List Effect) × (c'.effects ≡ es ++ Effect.shutdown_write ∷ [])))
unfolding handle_writes Positive
handle_writes-Drained [] c i busy closing p enough = absurd (omega (arith, i.busy busy))
handle_writes-Drained (n ∷ ns) c i busy closing p enough =
    elim (dec_lt n (length (content c.output_buffer))) [
      | yes part ↦
          let (c1, made, (inv, same, rest)) = write_partly c i busy n p.0 part in
          let taken : min n (length (content c.output_buffer)) ≡ n = omega arith in
          let left : 0 < length (content c1.output_buffer) =
            omega (arith, ap length rest, length-drop n (content c.output_buffer)) in
          let less : length (content c1.output_buffer) ≤ length ns =
            omega (arith, ap length rest, length-drop n (content c.output_buffer), p.0) in
          let state = handle_write-state c c1 true (wrote n) made in
          let busy1 : is_writing c1.channel ≡ true = elim (Bool-cases (is_writing c1.channel)) [
            | inl e ↦ e
            | inr e ↦ absurd (omega (arith, inv.idle e))
          ] in
          let (c2, done, (nothing, idle, sent_all, last)) =
            handle_writes-Drained ns c1 inv busy1 (rw state closing) p.1 less in
          (
            c2,
            handle_writes_next n n ns c c1 taken made ∙ done,
            (nothing, idle, sent_all ∙ same, last),
          )
      | no all ↦
          let taken : min n (length (content c.output_buffer)) ≡ length (content c.output_buffer) =
            omega arith in
          let (c1, made, (nothing, idle, sent_all, last)) = last_lem c i busy closing in
          (
            c1,
            handle_writes_next n _ ns c c1 taken made
                ∙ handle_writes_idle ns c1 (unwatched c1 idle),
            (nothing, idle, sent_all, last),
          )
    ]
