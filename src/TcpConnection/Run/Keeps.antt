-- ===== src/TcpConnection/Run/Keeps.antt =====
-- net/tcp_connection.cpp: what every step of a connection does to its stream.
use xweb.Prelude.{
  Yields, ℕ, ◌≡◌, refl, List, [], ◌∷◌, ◌++◌, Bool, true, ◌||◌, length, arith, Bool-cases, inl, inr,
  append_assoc, append-nil, sym, ◌∙◌, ap, subst, not,
}
use xweb.Buffer.{Buffer, content}
use xweb.Buffer.Invariant.{IsValid}
use xweb.Buffer.Transfer.{ReadResult, got, failed, read_fd_refines, read_fd-failed}
use xweb.Channel.{is_writing}
use xweb.TcpConnection.{
  TcpConnection, Effect, WriteResult, Task, send, send_in_loop, shutdown, shutdown_in_loop,
  handle_read, handle_error, handle_write, run_task, emit, emit_if, queue, StateE, is_connected,
  is_disconnected, is_disconnecting,
}
use xweb.TcpConnection.Stream.{stream, bytes_of, transmitted-quiet}
use xweb.TcpConnection.Input.{send_in_loop-input, handle_write-input}
use xweb.TcpConnection.Send.{kept, Plausible, send_in_loop_refines}
use xweb.TcpConnection.Write.{handle_write_refines, handle_write_idle}
use xweb.TcpConnection.Read.{Readable}
use xweb.TcpConnection.Lifecycle.{closed, handle_close-alive}
use xweb.TcpConnection.Run.{
  Op, run_oldest, step, run, added, added_by, accepted, accepted_all, Fits, FitsOldest, Ready,
  Possible, Good, Adds,
}

-- A change that keeps the buffers and the mask, and sends nothing.
module _ (c : TcpConnection) (g : Good c) where
  with_state-Good : (s : StateE) → Good (record c { state = s })
  unfolding Good
  with_state-Good s =
      (record { valid = g.0.valid; mask = g.0.mask; idle = g.0.idle; busy = g.0.busy }, g.1)

  without_oldest-Good : (ts : List Task) → Good (record c { pending = ts })
  unfolding Good
  without_oldest-Good ts =
      (record { valid = g.0.valid; mask = g.0.mask; idle = g.0.idle; busy = g.0.busy }, g.1)

  stays-Adds : Adds c [] c
  unfolding Adds
  stays-Adds = (g, sym (append-nil (stream c)))

  emit_if-Adds : (b : Bool) (e : Effect) → bytes_of e ≡ [] → Adds c [] (emit_if b c e)
  unfolding Adds Good stream
  emit_if-Adds b e quiet = (
    (record { valid = g.0.valid; mask = g.0.mask; idle = g.0.idle; busy = g.0.busy }, g.1),
    rw (transmitted-quiet b c.effects e quiet) (sym (append-nil _)),
  )

  emit-Adds : (e : Effect) → bytes_of e ≡ [] → Adds c [] (emit c e)
  emit-Adds e quiet = emit_if-Adds true e quiet

  queue-Adds : (t : Task) → Adds c [] (queue c t)
  unfolding Adds Good stream
  queue-Adds t = (without_oldest-Good _, sym (append-nil _))

  send_in_loop-Adds :
      (ds : List ℕ) (result : WriteResult)
      → Fits c ds result
      → Yields (send_in_loop c true ds result) (Adds c (added c ds result))
  unfolding Adds Good Fits added send_in_loop
  send_in_loop-Adds ds result h = elim (Bool-cases (is_disconnected c.state)) [
    | inl over ↦ (c, rw over refl, (g, rw over (sym (append-nil (stream c)))))
    | inr alive ↦
        let (c', made, (inv, bytes)) = send_in_loop_refines c g.0 alive ds h.0 result h.1 in
        (
          c',
          made,
          (
            (inv, subst IsValid (sym (send_in_loop-input c c' true ds result made)) g.1),
            rw alive bytes,
          ),
        )
  ]

  send-Adds :
      (in_loop : Bool) (ds : List ℕ) (result : WriteResult)
      → Fits c ds result
      → Yields (send c in_loop ds result) (Adds c (accepted c (Op.sends in_loop ds result)))
  unfolding send accepted
  send-Adds in_loop ds result h = elim (Bool-cases (is_connected c.state)) [
    | inl live ↦ elim (Bool-cases in_loop) [
      | inl here ↦ rw (live, here) (send_in_loop-Adds ds result h)
      | inr there ↦
          rw (live, there) (queue c (Task.send_task ds), refl, queue-Adds (Task.send_task ds))
    ]
    | inr over ↦ (
      c,
      rw over refl,
      elim (Bool-cases in_loop) [
        | inl here ↦ rw (here, over) stays-Adds
        | inr there ↦ rw there stays-Adds
      ],
    )
  ]

  pub handle_write-Adds :
      (result : WriteResult)
      → Plausible result (length (content c.output_buffer))
      → Yields (handle_write c true result) (Adds c [])
  unfolding Adds Good
  handle_write-Adds result h = elim (Bool-cases (is_writing c.channel)) [
    | inl busy ↦
        let (c', made, (inv, bytes)) = handle_write_refines c g.0 busy result h in
        (
          c',
          made,
          (
            (inv, subst IsValid (sym (handle_write-input c c' true result made)) g.1),
            bytes ∙ sym (append-nil (stream c)),
          ),
        )
    | inr idle ↦ (c, handle_write_idle c result idle, stays-Adds)
  ]

pub then-Adds :
    (xs ys : List ℕ) (c c1 c2 : TcpConnection) → Adds c xs c1 → Adds c1 ys c2 → Adds c (xs ++ ys) c2
unfolding Adds
then-Adds xs ys c c1 c2 h k = (k.0, k.1 ∙ ap (λ s. s ++ ys) h.1 ∙ append_assoc (stream c) xs ys)

module _ (c : TcpConnection) (g : Good c) where
  abbrev with_input : Buffer → TcpConnection
  with_input input = record c { input_buffer = input }

  module _ (input : Buffer) (v : IsValid input) where
    with_input-Good : Good (with_input input)
    unfolding Good
    with_input-Good =
        (record { valid = g.0.valid; mask = g.0.mask; idle = g.0.idle; busy = g.0.busy }, v)

    message-Adds : Adds c [] (emit (with_input input) Effect.message_callback)
    unfolding Adds stream bytes_of
    message-Adds = emit-Adds (with_input input) with_input-Good Effect.message_callback refl

    closed-Adds : Adds c [] (closed (with_input input))
    unfolding closed bytes_of Adds stream
    closed-Adds =
        let off = record (with_input input) { state = StateE.disconnected } in
        let ready = with_state-Good (with_input input) with_input-Good StateE.disconnected in
        let first = emit-Adds off ready Effect.remove_channel refl in
        let gone = emit off Effect.remove_channel in
        then-Adds [] [] off gone (emit gone Effect.close_callback) first
          (emit-Adds gone first.0 Effect.close_callback refl)

  pub handle_read-Adds :
      (read : ReadResult)
      → (is_connected c.state || is_disconnecting c.state) ≡ true
      → Readable c read
      → Yields (handle_read c true read) (Adds c [])
  unfolding handle_read Readable handle_error Good bytes_of
  handle_read-Adds (failed errno) alive h = (
    emit c Effect.get_socket_error,
    rw (read_fd-failed c.input_buffer errno) refl,
    emit-Adds c g Effect.get_socket_error refl,
  )
  handle_read-Adds (got []) alive h =
      let (input, made, (v, bytes)) = read_fd_refines g.1 [] h.0 h.1 in
      (
        closed (with_input input),
        rw made (handle_close-alive (with_input input) alive),
        closed-Adds input v,
      )
  handle_read-Adds (got (d ∷ ds)) alive h =
      let (input, made, (v, bytes)) = read_fd_refines g.1 (d ∷ ds) h.0 h.1 in
      (
        emit (with_input input) Effect.message_callback,
        rw made (ground arith),
        message-Adds input v,
      )

  shutdown-Adds : (in_loop : Bool) → Yields (shutdown c in_loop) (Adds c [])
  unfolding shutdown shutdown_in_loop bytes_of Adds stream
  shutdown-Adds in_loop =
      let c' = record c { state = StateE.disconnecting } in
      let ready = with_state-Good c g StateE.disconnecting in
      elim (Bool-cases (is_connected c.state)) [
        | inl live ↦ elim (Bool-cases in_loop) [
          | inl here ↦
              rw (live, here)
                (
                  _,
                  refl,
                  emit_if-Adds c' ready (not (is_writing c.channel)) Effect.shutdown_write refl,
                )
          | inr there ↦ rw (live, there) (_, refl, queue-Adds c' ready Task.shutdown_task)
        ]
        | inr over ↦ rw over (c, refl, stays-Adds c g)
      ]

  run_oldest-Adds :
      (ts : List Task) (result : WriteResult)
      → FitsOldest c ts result
      → Yields (run_oldest c ts result) (Adds c (added_by c ts result))
  unfolding run_oldest run_task shutdown_in_loop FitsOldest Fits added_by added kept bytes_of Adds
      stream
  run_oldest-Adds [] result h = (c, refl, stays-Adds c g)
  run_oldest-Adds (Task.send_task ds ∷ ts) result h =
      send_in_loop-Adds (record c { pending = ts }) (without_oldest-Good c g ts) ds result h
  run_oldest-Adds (Task.shutdown_task ∷ ts) result h = (
    _,
    refl,
    emit_if-Adds (record c { pending = ts }) (without_oldest-Good c g ts)
        (not (is_writing c.channel)) Effect.shutdown_write refl,
  )

  -- Every step yields, keeps the invariant and adds what it accepts.
  pub step-Adds : (op : Op) → Ready c op → Yields (step c op) (Adds c (accepted c op))
  unfolding step Ready accepted
  step-Adds (Op.sends in_loop ds result) h = send-Adds c g in_loop ds result h
  step-Adds (Op.shuts in_loop) h = shutdown-Adds in_loop
  step-Adds (Op.runs result) h = run_oldest-Adds c.pending result h
  step-Adds (Op.readable read) h = handle_read-Adds read h.0 h.1
  step-Adds (Op.writable result) h = handle_write-Adds c g result h

-- From a connection with the invariant, a sequence of sends, shutdowns, functors and socket events
-- that the system can produce never stops in an `assert`, keeps the invariant (the write flag
-- set exactly while output waits), and the bytes that the socket took, followed by those that
-- wait, are the ones before the run followed by all bytes that the steps accepted, in order.
pub run-accepted_all :
    (ops : List Op) (c : TcpConnection)
    → Good c
    → Possible c ops
    → Yields (run c ops) (λ c'. Good c' × (stream c' ≡ stream c ++ accepted_all c ops))
unfolding run Possible accepted_all Adds
run-accepted_all [] c g h = (c, refl, stays-Adds c g)
run-accepted_all (op ∷ ops) c g (ready, later) =
    let (c1, made, first) = step-Adds c g op ready in
    let later1 : Possible c1 ops = rw made at later in
    let (c2, finished, rest) = run-accepted_all ops c1 first.0 later1 in
    (c2, rw made finished, rw made (then-Adds _ _ c c1 c2 first rest))
