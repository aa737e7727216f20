-- ===== src/TcpConnection/Run/Peers/Delivery.antt =====
-- net/tcp_connection.cpp: the receiver gets what the sender accepts, in order, and all of it
-- before the end.
use xweb.Prelude.{
  Yields, ℕ, ◌≡◌, refl, List, [], ◌∷◌, ◌++◌, some, true, arith, sym, ◌∙◌, ap, append_assoc,
  append-nil,
}
use xweb.Buffer.{content}
use xweb.TcpConnection.{is_disconnected}
use xweb.TcpConnection.Stream.{transmitted, stream}
use xweb.TcpConnection.Send.{empty}
use xweb.TcpConnection.Run.{Good}
use xweb.TcpConnection.Run.Peers.{Peers, Event, run, accepted_all, Possible}
use xweb.TcpConnection.Run.Peers.Keeps.{Joined, After, step-After}

run-After :
    (es : List Event) (p : Peers)
    → Joined p
    → Possible p es
    → Yields (run p es) (After p (accepted_all p es))
unfolding run Possible accepted_all
run-After [] p j h = (p, refl, (j, sym (append-nil (stream p.sender))))
run-After (e ∷ es) p j (ready, later) =
    let (p1, made, (j1, bytes1)) = step-After p j e ready in
    let later1 : Possible p1 es = rw made at later in
    let (p2, finished, (j2, bytes2)) = run-After es p1 j1 later1 in
    (
      p2,
      rw made finished,
      rw made (
        j2,
        bytes2 ∙ ap (λ ds. ds ++ accepted_all p1 es) bytes1 ∙ append_assoc (stream p.sender) _ _,
      ),
    )

-- Whatever the two ends do, in any order that the systems and the network allow, no `assert` fails,
-- and what the receiver's callback took, followed by what waits in its input, by bytes on their
-- way and by what waits in the sender's output, is what the sender answered for before, followed
-- by all it accepted since, in order.
pub run-delivers :
    (es : List Event) (p : Peers)
    → Joined p
    → Possible p es
    → Yields (run p es) (λ p'.
      (wire : List ℕ) × (((p'.consumed ++ content p'.receiver.input_buffer) ++ wire)
          ++ content p'.sender.output_buffer
        ≡ stream p.sender ++ accepted_all p es))
unfolding stream
run-delivers es p j h =
    let (p', made, (j', bytes)) = run-After es p j h in
    let (wire, all) = j'.carried in
    (
      p',
      made,
      (
        wire,
        ap (λ ds. (ds ++ wire) ++ content p'.sender.output_buffer) (sym j'.arrived)
            ∙ ap (λ ds. ds ++ content p'.sender.output_buffer) (sym all)
            ∙ bytes,
      ),
    )

-- When the receiver is disconnected, which only the end of the stream does to it, it has
-- received all that the sender answered for before and all that it accepted since, in order.
pub run_complete :
    (es : List Event) (p p' : Peers)
    → Joined p
    → Possible p es
    → run p es ≡ some p'
    → is_disconnected p'.receiver.state ≡ true
    → p'.consumed ++ content p'.receiver.input_buffer ≡ stream p.sender ++ accepted_all p es
unfolding stream Good
run_complete es p p' j h made over =
    let (q, finished, (j', bytes)) = run-After es p j h in
    let same : p' ≡ q = ground (arith, made, finished) in
    let gone : is_disconnected q.receiver.state ≡ true = rw (← same) over in
    let (shut, all) = j'.ended gone in
    let sent_all = empty _ (j'.sender_good.0.idle (j'.closing.idle shut)) in
    rw same (
      sym j'.arrived
      ∙ sym all
      ∙ sym (append-nil _)
      ∙ ap (λ ds. transmitted q.sender.effects ++ ds) (sym sent_all)
      ∙ bytes)
