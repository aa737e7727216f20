-- ===== src/TcpConnection/Run/Last.antt =====
-- net/tcp_connection.cpp: the shutdown of the write side is the last that a connection does to
-- its stream.
use xweb.Prelude.{
  ℕ, ◌≤◌, ◌≡◌, refl, List, [], ◌∷◌, some, Bool, true, false, arith, Bool-cases, inl, inr, subst,
  sym,
}
use xweb.Buffer.Transfer.{ReadResult}
use xweb.TcpConnection.{
  TcpConnection, Effect, Task, WriteResult, send_in_loop, send, shutdown, shutdown_in_loop,
  handle_read, handle_write, run_task, is_connected,
}
use xweb.TcpConnection.Stream.{Inv}
use xweb.TcpConnection.State.{handle_write-state, send_in_loop-state, handle_read-state}
use xweb.TcpConnection.Write.{handle_write_idle}
use xweb.TcpConnection.Shut.{
  is_shut, is_shutdown_write, count_sent, count_sent-emit, is_shut-emit, send_in_loop-Keeps,
  handle_read-Keeps, handle_read-channel,
}
use xweb.TcpConnection.Shut.Closing.{
  Closing, Refused, asks, asks-queue, is_shutdown_task, handle_write-Open, send_in_loop-shut,
  kept-shut,
}
use xweb.TcpConnection.Run.{Op, step, run_oldest, accepted, added, added_by}

-- A `write` that follows the shutdown fails.
unfoldable pub RefusedBy : TcpConnection → Op → Type 0
unfolding Refused
RefusedBy c (Op.sends in_loop ds result) = Refused c result
RefusedBy c (Op.shuts in_loop) = Unit {0}
RefusedBy c (Op.runs result) = Refused c result
RefusedBy c (Op.readable read) = Unit {0}
RefusedBy c (Op.writable result) = Unit {0}

-- The connection stays closed, and takes back nothing that the socket has.
abbrev pub Later : TcpConnection → TcpConnection → Type 0
Later c c' =
    Closing c'
    × (count_sent c.effects ≤ count_sent c'.effects)
    × (is_shut c.effects ≡ true → is_shut c'.effects ≡ true)

stays-Later : (c c' : TcpConnection) → Closing c → c' ≡ c → Later c c'
stays-Later c c' k e = subst (λ d. Later c d) (sym e) (k, omega arith, λ shut. shut)

without_oldest-Closing :
    (c : TcpConnection) (ts : List Task)
    → Closing c
    → (asks ts ≡ true → is_connected c.state ≡ false)
    → Closing (record c { pending = ts })
without_oldest-Closing c ts k h = record { idle = k.idle; left = k.left; asked = h }

module _ (c : TcpConnection) (i : Inv c) (k : Closing c) where
  send_in_loop-Later :
      (c' : TcpConnection) (ds : List ℕ) (result : WriteResult)
      → Refused c result
      → send_in_loop c true ds result ≡ some c'
      → Later c c'
  unfolding Refused
  send_in_loop-Later c' ds result r h = elim (Bool-cases (is_shut c.effects)) [
    | inl shut ↦ stays-Later c c' k (ground (arith, r shut, send_in_loop-shut c i k shut ds))
    | inr open_yet ↦ ground (
      arith,
      k.asked,
      open_yet,
      send_in_loop-Keeps c c' true ds result,
      send_in_loop-state c c' true ds result,
    )
  ]

  send-Later :
      (c' : TcpConnection) (in_loop : Bool) (ds : List ℕ) (result : WriteResult)
      → Refused c result
      → send c in_loop ds result ≡ some c'
      → Later c c'
  unfolding send is_shutdown_task
  send-Later c' in_loop ds result r h = ground (
    arith,
    k.asked,
    k.idle,
    k.left,
    send_in_loop-Later c' ds result r,
    asks-queue c.pending (Task.send_task ds),
  )

  shutdown_in_loop-Later :
      (c' : TcpConnection)
      → is_connected c.state ≡ false
      → shutdown_in_loop c true ≡ some c'
      → Later c c'
  unfolding shutdown_in_loop is_shutdown_write
  shutdown_in_loop-Later c' left h = ground (
    arith,
    k.asked,
    k.idle,
    k.left,
    is_shut-emit c.effects Effect.shutdown_write,
    count_sent-emit c.effects Effect.shutdown_write,
  )

  handle_read-Later :
      (c' : TcpConnection) (read : ReadResult) → handle_read c true read ≡ some c' → Later c c'
  handle_read-Later c' read h = ground (
    arith,
    k.asked,
    k.idle,
    k.left,
    handle_read-Keeps c c' true read,
    handle_read-state c c' true read,
    handle_read-channel c c' true read,
  )

  handle_write-Later :
      (c' : TcpConnection) (result : WriteResult)
      → handle_write c true result ≡ some c'
      → Later c c'
  handle_write-Later c' result h = elim (Bool-cases (is_shut c.effects)) [
    | inl shut ↦ stays-Later c c' k (ground (arith, handle_write_idle c result (k.idle shut)))
    | inr open_yet ↦ ground (
      arith,
      k.asked,
      open_yet,
      handle_write-Open c c' result i open_yet h,
      handle_write-state c c' true result h,
    )
  ]

  shutdown-Later : (c' : TcpConnection) (in_loop : Bool) → shutdown c in_loop ≡ some c' → Later c c'
  unfolding shutdown is_shutdown_task shutdown_in_loop is_shutdown_write
  shutdown-Later c' in_loop h = ground (
    arith,
    k.asked,
    k.idle,
    k.left,
    is_shut-emit c.effects Effect.shutdown_write,
    count_sent-emit c.effects Effect.shutdown_write,
    asks-queue c.pending Task.shutdown_task,
  )

without_oldest-Inv : (c : TcpConnection) (ts : List Task) → Inv c → Inv (record c { pending = ts })
without_oldest-Inv c ts i = record { valid = i.valid; mask = i.mask; idle = i.idle; busy = i.busy }

run_oldest-Later :
    (ts : List Task) (c c' : TcpConnection) (result : WriteResult)
    → Inv c
    → Closing c
    → c.pending ≡ ts
    → Refused c result
    → run_oldest c ts result ≡ some c'
    → Later c c'
unfolding run_oldest run_task Refused asks is_shutdown_task
run_oldest-Later [] c c' result i k e r h = stays-Later c c' k (ground (arith, h))
run_oldest-Later (Task.send_task ds ∷ ts) c c' result i k e r h =
    let k1 = without_oldest-Closing c ts k (λ a. k.asked (ground (arith, e, a))) in
    send_in_loop-Later (record c { pending = ts }) (without_oldest-Inv c ts i) k1 c' ds result r h
run_oldest-Later (Task.shutdown_task ∷ ts) c c' result i k e r h =
    let left : is_connected c.state ≡ false = k.asked (ground (arith, e)) in
    let k1 = without_oldest-Closing c ts k (λ a. left) in
    shutdown_in_loop-Later (record c { pending = ts }) (without_oldest-Inv c ts i) k1 c' left h

-- Every step of a connection in which nothing follows the shutdown of the write side leaves one.
pub step-Later :
    (op : Op) (c c' : TcpConnection)
    → Inv c
    → Closing c
    → RefusedBy c op
    → step c op ≡ some c'
    → Later c c'
unfolding step RefusedBy
step-Later (Op.sends in_loop ds result) c c' i k r h = send-Later c i k c' in_loop ds result r h
step-Later (Op.shuts in_loop) c c' i k r h = shutdown-Later c i k c' in_loop h
step-Later (Op.runs result) c c' i k r h = run_oldest-Later c.pending c c' result i k refl r h
step-Later (Op.readable read) c c' i k r h = handle_read-Later c i k c' read h
step-Later (Op.writable result) c c' i k r h = handle_write-Later c i k c' result h

-- After the shutdown a connection accepts nothing.
added-shut :
    (c : TcpConnection) (ds : List ℕ) (result : WriteResult)
    → Inv c
    → Closing c
    → Refused c result
    → is_shut c.effects ≡ true
    → added c ds result ≡ []
unfolding added Refused
added-shut c ds result i k r shut = ground (arith, r shut, kept-shut c i k shut ds)

added_by-shut :
    (ts : List Task) (c : TcpConnection) (result : WriteResult)
    → Inv c
    → Closing c
    → Refused c result
    → is_shut c.effects ≡ true
    → added_by c ts result ≡ []
unfolding added_by
added_by-shut [] c result i k r shut = refl
added_by-shut (Task.send_task ds ∷ ts) c result i k r shut = added-shut c ds result i k r shut
added_by-shut (Task.shutdown_task ∷ ts) c result i k r shut = refl

pub accepted-shut :
    (op : Op) (c : TcpConnection)
    → Inv c
    → Closing c
    → RefusedBy c op
    → is_shut c.effects ≡ true
    → accepted c op ≡ []
unfolding accepted RefusedBy
accepted-shut (Op.sends in_loop ds result) c i k r shut = ground (arith, k.left shut)
accepted-shut (Op.shuts in_loop) c i k r shut = refl
accepted-shut (Op.runs result) c i k r shut = added_by-shut c.pending c result i k r shut
accepted-shut (Op.readable read) c i k r shut = refl
accepted-shut (Op.writable result) c i k r shut = refl
