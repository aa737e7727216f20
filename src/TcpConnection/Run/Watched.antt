-- ===== src/TcpConnection/Run/Watched.antt =====
-- net/tcp_connection.cpp and net/linux/epoller.cpp: a connection and the poller of its loop over
-- any sequence of what can happen to the connection.
use xweb.Prelude.{
  Yields, ℕ, ◌≡◌, ◌≢◌, refl, List, [], ◌∷◌, none, some, Bool, true, false, arith, ltb,
  if◌then◌else◌, length, ℕ_discrete, ◌∙◌, Bool-cases, inl, inr,
}
use xweb.Prelude.Map.{find}
use xweb.Buffer.{content}
use xweb.Channel.{is_writing, has_flag}
use xweb.Epoller.{Epoller, interest, epollout}
use xweb.Epoller.Kernel.{watched}
use xweb.Epoller.Registry.{Registered}
use xweb.TcpConnection.{
  TcpConnection, StateE, queue, Task, WriteResult, send, shutdown, run_task, is_connected,
  is_disconnected,
}
use xweb.TcpConnection.Stream.{Inv}
use xweb.TcpConnection.Watch.{System, IsClear, Synced, apply_all}
use xweb.TcpConnection.Watch.Steps.{
  same-Synced, send_in_loop-Synced, shutdown_in_loop-Synced, handle_read-Synced,
  handle_write-Synced,
}
use xweb.TcpConnection.Watch.Epoll.{Synced-watched, epollout-interest}
use xweb.TcpConnection.Run.{Op, run_oldest, step, run, Good, Possible, Adds}
use xweb.TcpConnection.Run.Keeps.{step-Adds}

-- The poller reports a writable socket only before its channel is removed.
unfoldable pub Reported : TcpConnection → Op → Type 0
Reported c (Op.sends in_loop ds result) = Unit {0}
Reported c (Op.shuts in_loop) = Unit {0}
Reported c (Op.runs result) = Unit {0}
Reported c (Op.readable read) = Unit {0}
Reported c (Op.writable result) = is_disconnected c.state ≡ false

unfoldable pub AllReported : TcpConnection → List Op → Type 0
unfolding Reported step
AllReported c [] = Unit {0}
AllReported c (op ∷ ops) =
    Reported c op × elim (step c op) [ none ↦ Unit {0} | some c' ↦ AllReported c' ops ]

module _ (c c' : TcpConnection) (s : Synced c) where
  send-Synced :
      (in_loop : Bool) (ds : List ℕ) (result : WriteResult)
      → send c in_loop ds result ≡ some c'
      → Synced c'
  unfolding send
  send-Synced in_loop ds result h =
      ground (arith, s.last, send_in_loop-Synced c s c' in_loop ds result)

  shutdown-Synced : (in_loop : Bool) → shutdown c in_loop ≡ some c' → Synced c'
  unfolding shutdown
  shutdown-Synced in_loop h = elim (Bool-cases (is_connected c.state)) [
    | inl live ↦
        let c1 = record c { state = StateE.disconnecting } in
        let s1 = same-Synced c c1 s refl refl (ground (arith, live)) in
        ground (
          arith,
          live,
          shutdown_in_loop-Synced c1 c' s1,
          same-Synced c1 (queue c1 Task.shutdown_task) s1 refl refl refl,
        )
    | inr over ↦ ground (arith, over, s.last)
  ]

  run_oldest-Synced :
      (ts : List Task) (result : WriteResult) → run_oldest c ts result ≡ some c' → Synced c'
  unfolding run_oldest run_task
  run_oldest-Synced [] result h = ground (arith, s.last)
  run_oldest-Synced (Task.send_task ds ∷ ts) result h =
      send_in_loop-Synced (record c { pending = ts }) (same-Synced c _ s refl refl refl) c' true ds
        result h
  run_oldest-Synced (Task.shutdown_task ∷ ts) result h =
      shutdown_in_loop-Synced (record c { pending = ts }) c' (same-Synced c _ s refl refl refl) h

  pub step-Synced : (op : Op) → Inv c → Reported c op → step c op ≡ some c' → Synced c'
  unfolding step Reported
  step-Synced (Op.sends in_loop ds result) i r h = send-Synced in_loop ds result h
  step-Synced (Op.shuts in_loop) i r h = shutdown-Synced in_loop h
  step-Synced (Op.runs result) i r h = run_oldest-Synced c.pending result h
  step-Synced (Op.readable read) i r h = handle_read-Synced c s c' read h
  step-Synced (Op.writable result) i r h = handle_write-Synced c c' result i s r h

run-Synced :
    (ops : List Op) (c : TcpConnection)
    → Good c
    → Synced c
    → Possible c ops
    → AllReported c ops
    → Yields (run c ops) (λ c'. Good c' × Synced c')
unfolding run Possible AllReported Adds
run-Synced [] c g s h a = (c, refl, (g, s))
run-Synced (op ∷ ops) c g s (ready, later) (reported, rest) =
    let (c1, made, first) = step-Adds c g op ready in
    let s1 = step-Synced c c1 s op g.0 reported made in
    let later1 : Possible c1 ops = rw made at later in
    let rest1 : AllReported c1 ops = rw made at rest in
    let (c2, finished, done) = run-Synced ops c1 first.0 s1 later1 rest1 in
    (c2, rw made finished, done)

-- The write flag says whether output waits.
writing :
    (c : TcpConnection) → Inv c → is_writing c.channel ≡ ltb 0 (length (content c.output_buffer))
writing c i = elim (Bool-cases (is_writing c.channel)) [
  | inl e ↦ rw e (ground (arith, i.busy e))
  | inr e ↦ rw e (ground (arith, i.idle e))
]

-- Where the memory that `update` does not set is clear and every `epoll_ctl` succeeds: for a
-- connection of which the poller knows, and a poller without the descriptor before it: after
-- any sequence of sends, shutdowns, functors and socket events that the system can produce, none
-- of them a write event behind the close, epoll watches the descriptor while the connection is
-- not disconnected and only then, for a mask that asks for EPOLLOUT exactly when output waits,
-- and every other descriptor as before.
pub run-watched :
    (y : System)
    → IsClear y
    → (ops : List Op) (c : TcpConnection) (p : Epoller) (pointer : ℕ) → Good c
    → Synced c
    → Possible c ops
    → AllReported c ops
    → Registered p
    → find ℕ_discrete (watched p) c.channel.fd ≡ none
    → Yields (run c ops) (λ c'.
      let p' = apply_all y p pointer c.channel.fd c'.effects in
      (mask : ℕ) × (find ℕ_discrete (watched p') c.channel.fd
        ≡ (if is_disconnected c'.state then none else some mask))
      × (has_flag mask epollout ≡ ltb 0 (length (content c'.output_buffer)))
      × ((other : ℕ)
          → c.channel.fd ≢ other
          → find ℕ_discrete (watched p') other ≡ find ℕ_discrete (watched p) other))
unfolding Good is_writing
run-watched y k ops c p pointer g s h a r fresh =
    let (c', made, (g', s')) = run-Synced ops c g s h a in
    let (here, others) = Synced-watched y k c' p pointer c.channel.fd s' r fresh in
    (
      c',
      made,
      (
        interest 0 c'.channel.events,
        here,
        epollout-interest c'.channel.events s'.low ∙ writing c' g'.0,
        others,
      ),
    )
