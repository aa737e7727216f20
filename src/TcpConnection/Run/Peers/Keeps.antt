-- ===== src/TcpConnection/Run/Peers/Keeps.antt =====
-- net/tcp_connection.cpp: what every event of the two ends keeps.
use xweb.Prelude.{
  Yields, ℕ, ◌≤◌, ◌<◌, ◌≡◌, refl, List, [], ◌∷◌, ◌++◌, some, true, length, arith, sym, ◌∙◌, ap,
  append_assoc, append-nil, take-append-drop, prefix_le,
}
use xweb.Buffer.{content}
use xweb.Buffer.Invariant.{IsValid}
use xweb.Buffer.Retrieve.{retrieve_as_string_refines}
use xweb.Buffer.Transfer.{got, read_fd_refines, read_fd-failed}
use xweb.TcpConnection.{
  TcpConnection, Effect, emit, handle_error, handle_read, handle_close, is_disconnected,
}
use xweb.TcpConnection.Stream.{transmitted, stream}
use xweb.TcpConnection.Send.{empty}
use xweb.TcpConnection.Read.{Readable}
use xweb.TcpConnection.Shut.{is_shut, count_sent}
use xweb.TcpConnection.Shut.Closing.{Closing}
use xweb.TcpConnection.Run
use xweb.TcpConnection.Run.{Op, Good, Adds}
use xweb.TcpConnection.Run.Keeps.{step-Adds, handle_read-Adds}
use xweb.TcpConnection.Run.Last.{RefusedBy, step-Later, accepted-shut}
use xweb.TcpConnection.Run.Peers.{Peers, Event, step, accepted, Ready, Carries, Alive}
use xweb.TcpConnection.Run.Peers.Steps.{step-Stays}

-- The receiver has the beginning of what the sender's socket took; a receiver that found the end
-- has all of it, and the sender has shut its side down.
pub record Joined (p : Peers) : Type 0 where
  pub sender_good : Good p.sender
  pub closing : Closing p.sender
  pub receiver_good : Good p.receiver
  pub arrived : p.delivered ≡ p.consumed ++ content p.receiver.input_buffer
  pub carried : (wire : List ℕ) × (transmitted p.sender.effects ≡ p.delivered ++ wire)
  pub ended :
      is_disconnected p.receiver.state ≡ true
      → (is_shut p.sender.effects ≡ true) × (transmitted p.sender.effects ≡ p.delivered)

abbrev pub After : Peers → List ℕ → Peers → Type 0
After p ds p' = Joined p' × (stream p'.sender ≡ stream p.sender ++ ds)

-- `handleRead` adds the bytes to the input, and closes only at the end.
pub received :
    (c c' : TcpConnection) (ds : List ℕ)
    → IsValid c.input_buffer
    → Readable c (got ds)
    → handle_read c true (got ds) ≡ some c'
    → (content c'.input_buffer ≡ content c.input_buffer ++ ds)
      × (0 < length ds → c'.state ≡ c.state)
unfolding handle_read handle_close Readable
received c c' ds v h made =
    let (input, e, (valid, bytes)) = read_fd_refines v ds h.0 h.1 in ground (arith, e, bytes)

-- What the socket took beside what it had taken before.
grown :
    (c c' : TcpConnection) (ds : List ℕ)
    → stream c' ≡ stream c ++ ds
    → count_sent c.effects ≤ count_sent c'.effects
    → (more : List ℕ) × (transmitted c'.effects ≡ transmitted c.effects ++ more)
unfolding stream count_sent
grown c c' ds bytes h =
    prefix_le (transmitted c.effects) (transmitted c'.effects) (content c.output_buffer ++ ds)
      (content c'.output_buffer) (sym (append_assoc (transmitted c.effects) _ ds) ∙ sym bytes) h

-- Nothing, if the write side was shut down.
transmitted-shut :
    (c c' : TcpConnection) (ds : List ℕ)
    → stream c' ≡ stream c ++ ds
    → ds ≡ []
    → length (content c.output_buffer) ≡ 0
    → length (content c'.output_buffer) ≡ 0
    → transmitted c'.effects ≡ transmitted c.effects
unfolding stream
transmitted-shut c c' ds bytes none_more idle idle' =
    simp
      (
        empty (content c.output_buffer) idle,
        empty (content c'.output_buffer) idle',
        none_more,
        append-nil,
      )
      at bytes

module _ (p : Peers) (j : Joined p) where
  sends-After :
      (op : Op)
      → Run.Ready p.sender op
      → RefusedBy p.sender op
      → Yields (step p (Event.sends op)) (After p (accepted p (Event.sends op)))
  unfolding step accepted Adds Good
  sends-After op h r =
      let (c, made, (good, bytes)) = step-Adds p.sender j.sender_good op h in
      let (closing, count, shut) = step-Later op p.sender c j.sender_good.0 j.closing r made in
      let (more, sent) = grown p.sender c _ bytes count in
      let still : is_shut p.sender.effects ≡ true
          → transmitted c.effects ≡ transmitted p.sender.effects =
        λ e.
          transmitted-shut p.sender c _ bytes
            (accepted-shut op p.sender j.sender_good.0 j.closing r e)
            (j.sender_good.0.idle (j.closing.idle e)) (good.0.idle (closing.idle (shut e))) in
      (
        record p { sender = c },
        rw made refl,
        (
          record {
            sender_good = good;
            closing = closing;
            receiver_good = j.receiver_good;
            arrived = j.arrived;
            carried = (
              j.carried.0 ++ more,
              sent ∙ ap (λ ds. ds ++ more) j.carried.1 ∙ append_assoc p.delivered j.carried.0 more,
            );
            ended = λ e. let (over, all) = j.ended e in (shut over, still over ∙ all);
          },
          bytes,
        ),
      )

  answers-After :
      (op : Op) → Ready p (Event.answers op) → Yields (step p (Event.answers op)) (After p [])
  unfolding step Adds Ready
  answers-After op h =
      let (c, made, (good, bytes)) = step-Adds p.receiver j.receiver_good op h.0 in
      let (input, alive) = step-Stays op p.receiver c h.1 made in
      (
        record p { receiver = c },
        rw made refl,
        (
          record {
            sender_good = j.sender_good;
            closing = j.closing;
            receiver_good = good;
            arrived = rw input j.arrived;
            carried = j.carried;
            ended = λ e. j.ended (alive e);
          },
          sym (append-nil (stream p.sender)),
        ),
      )

  -- The receiver after a read.
  abbrev behind : TcpConnection → List ℕ → Peers
  behind c ds = record p { receiver = c; delivered = p.delivered ++ ds }

  reads-arrived :
      (c : TcpConnection) (ds : List ℕ)
      → content c.input_buffer ≡ content p.receiver.input_buffer ++ ds
      → p.delivered ++ ds ≡ p.consumed ++ content c.input_buffer
  reads-arrived c ds e = rw (e, j.arrived) (append_assoc p.consumed _ ds)

  reads-Joined :
      (ds : List ℕ) (c : TcpConnection)
      → Carries p ds
      → Alive p.receiver
      → Good c
      → content c.input_buffer ≡ content p.receiver.input_buffer ++ ds
      → (0 < length ds → c.state ≡ p.receiver.state)
      → Joined (behind c ds)
  unfolding Carries
  reads-Joined [] c (over, all) alive good input state = record {
    sender_good = j.sender_good;
    closing = j.closing;
    receiver_good = good;
    arrived = reads-arrived c [] input;
    carried = ([], all ∙ sym (append-nil _ ∙ append-nil _));
    ended = λ e. (over, all ∙ sym (append-nil _));
  }
  reads-Joined (d ∷ ds) c (wire, all) alive good input state = record {
    sender_good = j.sender_good;
    closing = j.closing;
    receiver_good = good;
    arrived = reads-arrived c (d ∷ ds) input;
    carried = (wire, all);
    ended = λ e. absurd (ground (arith, alive, state (omega arith), e));
  }

  reads-After :
      (ds : List ℕ) → Ready p (Event.reads ds) → Yields (step p (Event.reads ds)) (After p [])
  unfolding step Ready Adds Good
  reads-After ds (alive, room, carries) =
      let (c, made, (good, bytes)) =
        handle_read-Adds p.receiver j.receiver_good (got ds) alive room in
      let (input, state) = received p.receiver c ds j.receiver_good.1 room made in
      (
        behind c ds,
        rw made refl,
        (reads-Joined ds c carries alive good input state, sym (append-nil (stream p.sender))),
      )

  fails-After : (errno : ℕ) → Yields (step p (Event.fails errno)) (After p [])
  unfolding step handle_error Good
  fails-After errno =
      let c = emit p.receiver Effect.get_socket_error in
      let good = j.receiver_good in
      (
        record p { receiver = c },
        rw (read_fd-failed p.receiver.input_buffer errno) refl,
        (
          record {
            sender_good = j.sender_good;
            closing = j.closing;
            receiver_good = (
              record {
                valid = good.0.valid;
                mask = good.0.mask;
                idle = good.0.idle;
                busy = good.0.busy;
              },
              good.1,
            );
            arrived = j.arrived;
            carried = j.carried;
            ended = j.ended;
          },
          sym (append-nil (stream p.sender)),
        ),
      )

  consumes-After :
      (n : ℕ)
      → n ≤ length (content p.receiver.input_buffer)
      → Yields (step p (Event.consumes n)) (After p [])
  unfolding step Good
  consumes-After n h =
      let ((bytes, b), made, (taken, valid, rest)) =
        retrieve_as_string_refines j.receiver_good.1 n h in
      let good = j.receiver_good.0 in
      (
        record p {
          receiver = record p.receiver { input_buffer = b };
          consumed = p.consumed ++ bytes;
        },
        rw made refl,
        (
          record {
            sender_good = j.sender_good;
            closing = j.closing;
            receiver_good = (
              record { valid = good.valid; mask = good.mask; idle = good.idle; busy = good.busy },
              valid,
            );
            arrived =
                j.arrived
                ∙ ap (λ ds. p.consumed ++ ds) (sym (take-append-drop n _))
                ∙ rw (taken, rest) (sym (append_assoc p.consumed _ _));
            carried = j.carried;
            ended = j.ended;
          },
          sym (append-nil (stream p.sender)),
        ),
      )

  pub step-After : (e : Event) → Ready p e → Yields (step p e) (After p (accepted p e))
  unfolding Ready accepted
  step-After (Event.sends op) h = sends-After op h.0 h.1
  step-After (Event.answers op) h = answers-After op h
  step-After (Event.reads ds) h = reads-After ds h
  step-After (Event.fails errno) h = fails-After errno
  step-After (Event.consumes n) h = consumes-After n h
