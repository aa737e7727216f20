-- ===== src/TcpConnection/Send.antt =====
-- net/tcp_connection.cpp: every message that `sendInLoop` takes.
use xweb.Prelude.{
  Yields, ℕ, ◌+◌, ◌≤◌, ◌≡◌, refl, List, [], ◌∷◌, ◌++◌, some, arith, if◌then◌else◌, length, take,
  drop, ◌∙◌, ap, sym, subst, append_assoc, append-nil, true, false, not, ◌&&◌, ◌||◌, ◌==◌,
  Bool-cases, inl, inr, take-append-drop,
}
use xweb.Buffer.{content, max_size}
use xweb.Buffer.Invariant.{readable_bytes_lem, length-content}
use xweb.Channel.{is_writing}
use xweb.TcpConnection.{
  TcpConnection, Attempt, queue_remaining, Effect, WriteResult, wrote, write_failed, send_in_loop,
  write_directly, is_disconnected, epipe, econnreset,
}
use xweb.TcpConnection.Stream.{
  Inv, stream, transmitted-quiet, transmitted-emit, transmitted, bytes_of, queue_remaining_lem,
}

pub empty : (ds : List ℕ) → length ds ≡ 0 → ds ≡ []
empty [] h = refl
empty (d ∷ ds) h = absurd (omega arith)

-- The part of a message that the connection takes: all of it, unless the socket is broken.
unfoldable pub kept : TcpConnection → List ℕ → WriteResult → List ℕ
kept c ds (wrote n) = ds
kept c ds (write_failed errno) =
    if not (is_writing c.channel) && (errno == epipe || errno == econnreset) then [] else ds

-- `write` takes no more than it is given.
unfoldable pub Plausible : WriteResult → ℕ → Type 0
Plausible (wrote n) len = n ≤ len
Plausible (write_failed errno) len = Unit {0}

Queued : TcpConnection → List ℕ → TcpConnection → Type 0
Queued c ds c' = Inv c' × (stream c' ≡ stream c ++ ds)

module _ (c : TcpConnection) (i : Inv c) (alive : is_disconnected c.state ≡ false) (ds : List ℕ)
    (fits : c.output_buffer.writer_index + length ds ≤ max_size) where
  abbrev waiting : Attempt
  waiting = record { conn = c; nwrote = 0; remaining = length ds; fault_error = false }

  waiting_lem : Yields (queue_remaining waiting ds) (Queued c ds)
  unfolding Queued
  waiting_lem = queue_remaining_lem waiting i ds (omega arith) refl fits

  send_busy :
      (result : WriteResult)
      → is_writing c.channel ≡ true
      → send_in_loop c true ds result ≡ queue_remaining waiting ds
  unfolding send_in_loop
  send_busy result busy = rw (alive, busy) refl

  send_idle :
      (result : WriteResult)
      → is_writing c.channel ≡ false
      → send_in_loop c true ds result ≡ queue_remaining (write_directly c ds result) ds
  unfolding send_in_loop
  send_idle result idle =
      rw (alive, idle)
        (ground (arith, readable_bytes_lem i.valid, length-content i.valid, i.idle idle))

  abbrev taken : ℕ → Attempt
  taken n = write_directly c ds (wrote n)

  taken-Inv : (n : ℕ) → Inv (taken n).conn
  unfolding write_directly
  taken-Inv n = record { valid = i.valid; mask = i.mask; idle = i.idle; busy = i.busy }

  stream-taken :
      (n : ℕ) → is_writing c.channel ≡ false → stream (taken n).conn ≡ stream c ++ take n ds
  unfolding stream write_directly bytes_of
  stream-taken n idle =
      let nothing = empty (content c.output_buffer) (i.idle idle) in
      rw (nothing, append-nil _, append-nil (transmitted c.effects))
        (transmitted-quiet _ (c.effects ++ Effect.sent (take n ds) ∷ []) _ refl
          ∙ transmitted-emit c.effects _)

  send_written :
      (n : ℕ)
      → n ≤ length ds
      → is_writing c.channel ≡ false
      → Yields (queue_remaining (taken n) ds) (Queued c ds)
  unfolding Queued write_directly
  send_written n h idle =
      let (c', made, (inv, bytes)) =
        queue_remaining_lem (taken n) (taken-Inv n) ds (omega arith) refl (omega arith) in
      (
        c',
        made,
        (
          inv,
          bytes
              ∙ ap (λ s. s ++ drop n ds) (stream-taken n idle)
              ∙ append_assoc (stream c) _ _
              ∙ ap (λ s. stream c ++ s) (take-append-drop n ds),
        ),
      )

  fault_lem :
      (errno : ℕ)
      → (write_directly c ds (write_failed errno)).fault_error
        ≡ (errno == epipe || errno == econnreset)
  unfolding write_directly
  fault_lem errno = ground arith

  module _ (errno : ℕ) (idle : is_writing c.channel ≡ false) where
    abbrev refused : Attempt
    refused = write_directly c ds (write_failed errno)

    send_broken :
        (errno == epipe || errno == econnreset) ≡ true
        → (queue_remaining refused ds ≡ some c) × (kept c ds (write_failed errno) ≡ [])
    unfolding kept queue_remaining write_directly
    send_broken broken = (rw (fault_lem errno, broken) (ground arith), rw (idle, broken) refl)

    kept_fine :
        (errno == epipe || errno == econnreset) ≡ false → kept c ds (write_failed errno) ≡ ds
    unfolding kept
    kept_fine fine = rw (idle, fine) refl

    refused_lem : refused.fault_error ≡ false → Yields (queue_remaining refused ds) (Queued c ds)
    unfolding Queued write_directly
    refused_lem fine = queue_remaining_lem refused i ds (omega arith) fine fits

    send_failed : Yields (queue_remaining refused ds) (Queued c (kept c ds (write_failed errno)))
    unfolding Queued
    send_failed = elim (Bool-cases (errno == epipe || errno == econnreset)) [
      | inl broken ↦
          (c, (send_broken broken).0, (i, rw (send_broken broken).1 (sym (append-nil (stream c)))))
      | inr fine ↦ rw (kept_fine fine) (refused_lem (fault_lem errno ∙ fine))
    ]

  kept_busy : (result : WriteResult) → is_writing c.channel ≡ true → kept c ds result ≡ ds
  unfolding kept
  kept_busy (wrote n) busy = refl
  kept_busy (write_failed errno) busy = rw busy refl

  after_write :
      (result : WriteResult)
      → Plausible result (length ds)
      → is_writing c.channel ≡ false
      → Yields (queue_remaining (write_directly c ds result) ds) (Queued c (kept c ds result))
  unfolding Plausible kept
  after_write (wrote n) h idle = send_written n h idle
  after_write (write_failed errno) h idle = send_failed errno idle

  -- With a valid connection that is not disconnected and room for the message, `sendInLoop` does
  -- not stop, whatever its `write` does: the connection stays valid, and the bytes that the
  -- socket has or will get are those before, followed by the message (by nothing, if the direct
  -- `write` failed with EPIPE or ECONNRESET).
  pub send_in_loop_refines :
      (result : WriteResult)
      → Plausible result (length ds)
      → Yields
          (send_in_loop c true ds result)
          (λ c'. Inv c' × (stream c' ≡ stream c ++ kept c ds result))
  unfolding Plausible kept Queued
  send_in_loop_refines result h = elim (Bool-cases (is_writing c.channel)) [
    | inl busy ↦ rw (send_busy result busy) (
        subst (λ m. Yields (queue_remaining waiting ds) (Queued c m)) (sym (kept_busy result busy))
          waiting_lem)
    | inr idle ↦ rw (send_idle result idle) (after_write result h idle)
  ]
