-- ===== src/TcpConnection/Run/Peers.antt =====
-- net/tcp_connection.cpp and net/buffer.h: two connections at the ends of a TCP stream, the
-- first as the sender and the second as the receiver of its direction. The network is what TCP
-- promises: the receiver reads the bytes that the sender's socket took, in order, in pieces of
-- any size and at any later time; it finds the end only behind all of them and after the
-- shutdown of the sender's write side; and a `write` behind that shutdown fails with EPIPE. The
-- sockets stay open: closing one is the destructor's.
pub mod Steps
pub mod Keeps
pub mod Delivery
pub mod Finish
mod Tests
use xweb.Prelude.{
  ℕ, ◌≤◌, ◌≡◌, List, [], ◌∷◌, ◌++◌, Option, none, some, Bool, true, ◌||◌, ◌>>=◌, length, ◌*◌,
}
use xweb.Buffer.{content, retrieve_as_string}
use xweb.Buffer.Transfer.{ReadResult, got, failed}
use xweb.TcpConnection.{TcpConnection, handle_read, is_connected, is_disconnecting}
use xweb.TcpConnection.Stream.{transmitted, stream}
use xweb.TcpConnection.Read.{Readable}
use xweb.TcpConnection.Shut.{is_shut}
use xweb.TcpConnection.Run
use xweb.TcpConnection.Run.{Op}
use xweb.TcpConnection.Run.Last.{RefusedBy}

-- The two connections, the bytes that the receiver's `readv` returned, and those that its
-- message callback took out of the input buffer.
pub record Peers : Type 0 where
  pub sender : TcpConnection
  pub receiver : TcpConnection
  pub delivered : List ℕ
  pub consumed : List ℕ

pub data Event : Type 0 where
  -- what the sender does, and what the receiver does beside reading
  sends : Op → Event
  answers : Op → Event
  -- the receiver's `handleRead` with these bytes, none at the end of the stream, or with an error
  reads : List ℕ → Event
  fails : ℕ → Event
  -- `retrieveAsString` by the message callback
  consumes : ℕ → Event

pub step : Peers → Event → Option Peers
unfolding Run.step handle_read retrieve_as_string
step p (Event.sends op) = Run.step p.sender op >>= λ c. some (record p { sender = c })
step p (Event.answers op) = Run.step p.receiver op >>= λ c. some (record p { receiver = c })
step p (Event.reads ds) = handle_read p.receiver true (got ds) >>= λ c.
    some (record p { receiver = c; delivered = p.delivered ++ ds })
step p (Event.fails errno) =
    handle_read p.receiver true (failed errno) >>= λ c. some (record p { receiver = c })
step p (Event.consumes n) = retrieve_as_string p.receiver.input_buffer n >>= λ r.
    some (record p {
      receiver = record p.receiver { input_buffer = r.1 };
      consumed = p.consumed ++ r.0;
    })

pub run : Peers → List Event → Option Peers
unfolding step
run p [] = some p
run p (e ∷ es) = step p e >>= λ p'. run p' es

-- What an event adds to the sender's stream.
pub accepted : Peers → Event → List ℕ
unfolding Run.accepted
accepted p (Event.sends op) = Run.accepted p.sender op
accepted p (Event.answers op) = []
accepted p (Event.reads ds) = []
accepted p (Event.fails errno) = []
accepted p (Event.consumes n) = []

pub accepted_all : Peers → List Event → List ℕ
unfolding accepted step
accepted_all p [] = []
accepted_all p (e ∷ es) =
    accepted p e ++ elim (step p e) [ none ↦ [] | some p' ↦ accepted_all p' es ]

-- The network has `ds` for the receiver next: some bytes, or the end.
unfoldable pub Carries : Peers → List ℕ → Type 0
Carries p [] = (is_shut p.sender.effects ≡ true) × (transmitted p.sender.effects ≡ p.delivered)
Carries p (d ∷ ds) =
    (wire : List ℕ) × (transmitted p.sender.effects ≡ (p.delivered ++ d ∷ ds) ++ wire)

unfoldable pub Answer : Op → Type 0
Answer (Op.sends in_loop ds result) = Unit {0}
Answer (Op.shuts in_loop) = Unit {0}
Answer (Op.runs result) = Unit {0}
Answer (Op.readable read) = ⊥
Answer (Op.writable result) = Unit {0}

-- The poller reports a readable socket only before its channel is removed.
abbrev pub Alive : TcpConnection → Type 0
Alive c = (is_connected c.state || is_disconnecting c.state) ≡ true

-- What the two systems and the network can do.
unfoldable pub Ready : Peers → Event → Type 0
unfolding Run.Ready RefusedBy Readable Carries Answer
Ready p (Event.sends op) = Run.Ready p.sender op × RefusedBy p.sender op
Ready p (Event.answers op) = Run.Ready p.receiver op × Answer op
Ready p (Event.reads ds) = Alive p.receiver × Readable p.receiver (got ds) × Carries p ds
Ready p (Event.fails errno) = Alive p.receiver
Ready p (Event.consumes n) = n ≤ length (content p.receiver.input_buffer)

unfoldable pub Possible : Peers → List Event → Type 0
unfolding Ready step
Possible p [] = Unit {0}
Possible p (e ∷ es) = Ready p e × elim (step p e) [ none ↦ Unit {0} | some p' ↦ Possible p' es ]
