-- ===== src/TcpConnection/Run/Peers/Finish.antt =====
-- net/tcp_connection.cpp: what a connection still has to send when it is shut down arrives.
use xweb.Prelude.{
  Yields, ℕ, ◌≤◌, ◌<◌, ◌≡◌, refl, List, [], ◌∷◌, ◌++◌, none, some, true, length, arith, sym, ◌∙◌,
  ap, append_assoc, append-nil,
}
use xweb.Buffer.{content}
use xweb.Buffer.Transfer.{got}
use xweb.Channel.{is_writing}
use xweb.TcpConnection.{TcpConnection, Effect, handle_read, is_disconnected, is_disconnecting}
use xweb.TcpConnection.Stream.{transmitted, stream}
use xweb.TcpConnection.Read.{Readable, Handled, handle_read_refines}
use xweb.TcpConnection.Drain.{handle_writes, Positive, handle_writes-Drained}
use xweb.TcpConnection.Shut.{is_shut, is_shut-emit, is_shutdown_write}
use xweb.TcpConnection.Run.{Good, Adds}
use xweb.TcpConnection.Run.Keeps.{handle_read-Adds}
use xweb.TcpConnection.Run.Peers.{Peers, Event, step, run, Ready, Possible, Carries, Alive}
use xweb.TcpConnection.Run.Peers.Keeps.{Joined, received}

-- Pieces that `readv` returns, one after the other, and then the end of the stream.
pub pieces_then_end : List (List ℕ) → List Event
pieces_then_end [] = Event.reads [] ∷ []
pieces_then_end (ds ∷ dss) = Event.reads ds ∷ pieces_then_end dss

unfoldable pub joined : List (List ℕ) → List ℕ
joined [] = []
joined (ds ∷ dss) = ds ++ joined dss

-- No piece is empty, and each has room.
unfoldable pub Pieces : TcpConnection → List (List ℕ) → Type 0
unfolding Readable
Pieces c [] = Readable c (got [])
Pieces c (ds ∷ dss) =
    (0 < length ds)
    × Readable c (got ds)
    × elim (handle_read c true (got ds)) [ none ↦ Unit {0} | some c' ↦ Pieces c' dss ]

-- The end, which the receiver finds behind all pieces.
abbrev Over : Peers → Peers → Type 0
Over p p' =
    (is_disconnected p'.receiver.state ≡ true)
    × (p'.consumed ++ content p'.receiver.input_buffer ≡ transmitted p.sender.effects)

closes :
    (c c' : TcpConnection)
    → Good c
    → Alive c
    → Readable c (got [])
    → handle_read c true (got []) ≡ some c'
    → is_disconnected c'.state ≡ true
unfolding Handled Good
closes c c' good alive room made =
    let (c1, made1, (over, effects)) = handle_read_refines c good.1 alive (got []) room in
    let same : c' ≡ c1 = ground (arith, made, made1) in rw same over

carries :
    (p : Peers) (ds rest : List ℕ)
    → 0 < length ds
    → transmitted p.sender.effects ≡ p.delivered ++ (ds ++ rest)
    → Carries p ds
unfolding Carries
carries p [] rest h all = absurd (omega (arith, h))
carries p (d ∷ ds) rest h all = (rest, all ∙ sym (append_assoc p.delivered (d ∷ ds) rest))

pieces_lem :
    (dss : List (List ℕ)) (p : Peers)
    → Good p.receiver
    → Alive p.receiver
    → p.delivered ≡ p.consumed ++ content p.receiver.input_buffer
    → is_shut p.sender.effects ≡ true
    → transmitted p.sender.effects ≡ p.delivered ++ joined dss
    → Pieces p.receiver dss
    → Possible p (pieces_then_end dss) × Yields (run p (pieces_then_end dss)) (Over p)
unfolding Possible Ready Carries run step Pieces Good Adds pieces_then_end joined
pieces_lem [] p good alive arrived shut all room =
    let (c, made, (good1, _)) = handle_read-Adds p.receiver good (got []) alive room in
    let (input, _) = received p.receiver c [] good.1 room made in
    let q = record p { receiver = c; delivered = p.delivered ++ [] } in
    (
      ((alive, room, (shut, all ∙ append-nil p.delivered)), rw made tt),
      (
        q,
        rw made refl,
        (
          closes p.receiver c good alive room made,
          ap (λ ds. p.consumed ++ ds) (input ∙ append-nil _)
              ∙ sym arrived
              ∙ sym (all ∙ append-nil p.delivered),
        ),
      ),
    )
pieces_lem (ds ∷ dss) p good alive arrived shut all (some_bytes, room, more) =
    let (c, made, (good1, _)) = handle_read-Adds p.receiver good (got ds) alive room in
    let (input, state) = received p.receiver c ds good.1 room made in
    let q = record p { receiver = c; delivered = p.delivered ++ ds } in
    let more1 : Pieces c dss = rw made at more in
    let (possible, (p', ran, over)) =
      pieces_lem dss q good1 (rw (state some_bytes) alive)
        (rw (input, arrived) (append_assoc p.consumed _ ds)) shut
        (all ∙ sym (append_assoc p.delivered ds (joined dss))) more1 in
    (
      ((alive, room, carries p ds (joined dss) some_bytes all), rw made possible),
      (p', rw made ran, over),
    )

-- For a joined pair whose sender is disconnecting while output waits, and whose receiver is
-- open: enough reports that the sender's socket is writable, each of which lets it take a byte
-- or more, send what waits; then any pieces of what the receiver has not got yet can arrive,
-- where it has room for each, and the end of the stream behind them; and when they have, the
-- receiver is disconnected, and its callback and its input have all that the sender answered
-- for.
pub shutdown-arrives :
    (ns : List ℕ) (dss : List (List ℕ)) (p : Peers)
    → Joined p
    → is_writing p.sender.channel ≡ true
    → is_disconnecting p.sender.state ≡ true
    → Positive ns
    → length (content p.sender.output_buffer) ≤ length ns
    → Alive p.receiver
    → stream p.sender ≡ p.delivered ++ joined dss
    → Pieces p.receiver dss
    → Yields (handle_writes ns p.sender) (λ c.
      let q = record p { sender = c } in
      Possible q (pieces_then_end dss)
      × Yields (run q (pieces_then_end dss)) (λ p'.
        (is_disconnected p'.receiver.state ≡ true)
        × (p'.consumed ++ content p'.receiver.input_buffer ≡ stream p.sender)))
unfolding Good is_shutdown_write
shutdown-arrives ns dss p j busy closing positive enough alive pieces room =
    let (c, made, (nothing, idle, sent_all, (es, last))) =
      handle_writes-Drained ns p.sender j.sender_good.0 busy closing positive enough in
    let shut : is_shut c.effects ≡ true =
      rw last (is_shut-emit es Effect.shutdown_write ∙ ground arith) in
    let (possible, (p', ran, (over, bytes))) =
      pieces_lem dss (record p { sender = c }) j.receiver_good alive j.arrived shut
        (sent_all ∙ pieces) room in
    (c, made, (possible, (p', ran, (over, bytes ∙ sent_all))))
