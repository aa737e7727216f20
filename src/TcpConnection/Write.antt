-- ===== src/TcpConnection/Write.antt =====
-- net/tcp_connection.cpp: what `handleWrite` does with the waiting bytes.
use xweb.Prelude.{
  Yields, ℕ, ◌<◌, ◌≡◌, refl, List, [], ◌++◌, some, arith, lt→ltb, length, take, drop, ◌∙◌, ap,
  subst, append_assoc, append-nil, true, false, Bool-cases, inl, inr, take-append-drop, length-drop,
  subst, dec_lt,
}
use xweb.Prelude.Slices.{take_all}
use xweb.Buffer.{Buffer, content}
use xweb.Buffer.Invariant.{IsValid, readable_bytes_lem, length-content}
use xweb.Buffer.Retrieve.{retrieve_refines, peek_lem}
use xweb.Channel.{is_writing, set_event, has_flag}
use xweb.TcpConnection.{
  TcpConnection, Effect, WriteResult, wrote, write_failed, emit, emit_if, watch, handle_write,
  drained,
}
use xweb.Channel.{bit_and-logical_not}
use xweb.TcpConnection.{is_disconnecting}
use xweb.TcpConnection.Send.{Plausible, empty}
use xweb.TcpConnection.Stream.{
  Inv, stream, transmitted-quiet, transmitted-emit, transmitted, bytes_of,
}

-- What `handleWrite` leaves after the last byte.
abbrev pub after_drain : TcpConnection → TcpConnection
after_drain c =
    emit_if (is_disconnecting c.state)
      (emit_if c.has_write_complete (watch c 0) Effect.write_complete_callback)
      Effect.shutdown_write

pub drained_lem :
    (c : TcpConnection) → c.channel.events < 16 → drained c true ≡ some (after_drain c)
unfolding drained has_flag
drained_lem c mask =
    rw (bit_and-logical_not c.channel.events mask)
      (elim (Bool-cases (is_disconnecting c.state)) [ inl e ↦ rw e refl | inr e ↦ rw e refl ])

transmitted-after_drain :
    (c : TcpConnection) → transmitted (after_drain c).effects ≡ transmitted c.effects
unfolding bytes_of
transmitted-after_drain c =
    transmitted-quiet _ _ _ refl
    ∙ transmitted-quiet _ _ _ refl
    ∙ transmitted-emit c.effects _
    ∙ append-nil (transmitted c.effects)

-- With the write flag clear, `handleWrite` does nothing.
pub handle_write_idle :
    (c : TcpConnection) (result : WriteResult)
    → is_writing c.channel ≡ false
    → handle_write c true result ≡ some c
unfolding handle_write
handle_write_idle c (wrote n) idle = rw idle refl
handle_write_idle c (write_failed errno) idle = refl

module _ (c : TcpConnection) (i : Inv c) (busy : is_writing c.channel ≡ true) where
  abbrev held : List ℕ
  held = content c.output_buffer

  -- After the socket took n bytes.
  abbrev advanced : ℕ → Buffer → TcpConnection
  advanced n output = emit (record c { output_buffer = output }) (Effect.sent (take n held))

  stream-advanced :
      (n : ℕ) (output : Buffer)
      → content output ≡ drop n held
      → stream (advanced n output) ≡ stream c
  unfolding stream bytes_of
  stream-advanced n output rest =
      rw (transmitted-emit c.effects (Effect.sent (take n held)), rest)
        (append_assoc (transmitted c.effects) (take n held) (drop n held)
          ∙ ap (λ ds. transmitted c.effects ++ ds) (take-append-drop n held))

  write_nothing_failed : (errno : ℕ) → handle_write c true (write_failed errno) ≡ some c
  unfolding handle_write
  write_nothing_failed errno = refl

  write_nothing : (n : ℕ) → n ≡ 0 → handle_write c true (wrote n) ≡ some c
  unfolding handle_write
  write_nothing n h = rw (busy, h) refl

  pub write_partly :
      (n : ℕ)
      → 0 < n
      → n < length held
      → Yields
          (handle_write c true (wrote n))
          (λ c'. Inv c' × (stream c' ≡ stream c) × (content c'.output_buffer ≡ drop n held))
  unfolding handle_write
  write_partly n some_n part =
      let (output, made, (valid, rest, top)) = retrieve_refines i.valid n (omega arith) in
      let left : 0 < length (content output) = omega (arith, ap length rest, length-drop n held) in
      (
        advanced n output,
        rw
            (
              busy,
              readable_bytes_lem i.valid,
              ← length-content i.valid,
              peek_lem i.valid (length held) (omega arith),
              take_all (length held) held (omega arith),
              made,
              readable_bytes_lem valid,
              ← length-content valid,
            )
            (ground (arith, left)),
        (
          record {
            valid = valid;
            mask = i.mask;
            idle = λ e. absurd (ground (arith, busy));
            busy = λ e. left;
          },
          stream-advanced n output rest,
          rest,
        ),
      )

  -- While the write flag is set, a `write` that takes every waiting byte leaves an empty output
  -- buffer; the effects are those bytes, the new mask, the write complete callback if it is set
  -- and, only when the connection is disconnecting, the shutdown of the socket's write side.
  pub handle_write_drains : Yields (handle_write c true (wrote (length held))) (λ c'.
      (content c'.output_buffer ≡ [])
      × IsValid c'.output_buffer
      × (c'.channel ≡ set_event c.channel 0)
      × (c'.effects ≡ (after_drain (emit c (Effect.sent held))).effects))
  unfolding handle_write
  handle_write_drains =
      let (output, made, (valid, rest, top)) =
        retrieve_refines i.valid (length held) (omega arith) in
      let none_left : length (content output) ≡ 0 =
        omega (arith, ap length rest, length-drop (length held) held) in
      (
        after_drain (emit (record c { output_buffer = output }) (Effect.sent held)),
        rw
            (
              busy,
              readable_bytes_lem i.valid,
              ← length-content i.valid,
              peek_lem i.valid (length held) (omega arith),
              take_all (length held) held (omega arith),
              take_all (length held) held (omega arith),
              made,
              readable_bytes_lem valid,
              ← length-content valid,
              none_left,
              lt→ltb 0 (length held) (i.busy busy),
            )
            (drained_lem (emit (record c { output_buffer = output }) (Effect.sent held)) i.mask),
        (empty (content output) none_left, valid, refl, refl),
      )

  pub write_all-refines :
      Yields (handle_write c true (wrote (length held))) (λ c'. Inv c' × (stream c' ≡ stream c))
  unfolding stream bytes_of set_event is_writing has_flag
  write_all-refines =
      let (c', made, (nothing, valid, channel, effects)) = handle_write_drains in
      (
        c',
        made,
        (
          record {
            valid = valid;
            mask = rw channel (omega arith);
            idle = λ e. rw nothing refl;
            busy = λ e. absurd (ground (arith, channel));
          },
          rw
              (
                nothing,
                effects,
                append-nil (transmitted (after_drain (emit c (Effect.sent held))).effects),
              )
              (transmitted-after_drain (emit c (Effect.sent held))
                ∙ transmitted-emit c.effects (Effect.sent held)),
        ),
      )

  -- While the write flag is set, `handleWrite` does not stop whatever `write` does with the
  -- waiting bytes, keeps the connection valid and the write flag in step with the output buffer,
  -- and loses and repeats no byte.
  pub handle_write_refines :
      (result : WriteResult)
      → Plausible result (length held)
      → Yields (handle_write c true result) (λ c'. Inv c' × (stream c' ≡ stream c))
  unfolding Plausible
  handle_write_refines (write_failed errno) h = (c, write_nothing_failed errno, (i, refl))
  handle_write_refines (wrote n) h = elim (dec_lt 0 n) [
    | no none_taken ↦ (c, write_nothing n (omega arith), (i, refl))
    | yes some_taken ↦ elim (dec_lt n (length held)) [
      | yes part ↦
          let (c', made, (inv, bytes, rest)) = write_partly n some_taken part in
          (c', made, (inv, bytes))
      | no all ↦
          subst
            (λ k. Yields (handle_write c true (wrote k)) (λ c'. Inv c' × (stream c' ≡ stream c)))
            (omega arith) write_all-refines
    ]
  ]
