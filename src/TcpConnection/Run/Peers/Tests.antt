-- ===== src/TcpConnection/Run/Peers/Tests.antt =====
-- A message that goes out in two pieces, is read in two, and is followed by a shutdown.
use xweb.Prelude.{Yields, ℕ, ◌*◌, ◌≡◌, refl, List, [], ◌∷◌, ◌++◌, true, false, arith, replicate}
use xweb.Buffer.{Buffer, content, readable_bytes, peek, append, retrieve_as_string, retrieve}
use xweb.Buffer.Invariant.{IsValid, length-content}
use xweb.Buffer.Transfer.{iov_room, read_fd}
use xweb.Prelude.Memory.{copy_to}
use xweb.Channel.{is_writing, has_flag, set_event}
use xweb.TcpConnection.{TcpConnection, StateE, Effect, handle_read, wrote, is_disconnected, drained}
use xweb.TcpConnection.Stream.{stream, transmitted}
use xweb.TcpConnection.Send.{Plausible, kept}
use xweb.TcpConnection.Shut.{is_shut}
use xweb.TcpConnection.Shut.Closing.{asks}
use xweb.TcpConnection.Run.{Op, Good}
use xweb.TcpConnection.Run.Peers.{Peers, Event, run, Possible, accepted_all}
use xweb.TcpConnection.Run.Peers.Keeps.{Joined}
use xweb.TcpConnection.Drain.{handle_writes, Positive}
use xweb.TcpConnection.Run.Peers.Finish.{pieces_then_end, joined, Pieces, shutdown-arrives}
use xweb.TcpConnection.Run.Peers.Delivery.{run-delivers, run_complete}

abbrev nothing : Buffer
nothing = record { buffer = replicate 12 0; reader_index = 8; writer_index = 8 }

nothing-IsValid : IsValid nothing
nothing-IsValid = record {
  order = omega arith;
  inside = omega arith;
  room = omega arith;
  small = omega arith;
}

abbrev idle_conn : TcpConnection
idle_conn = record {
  channel = record {
    events = 2;
    active_events = 0;
    last_events = 2;
    fd = 5;
    is_listen_fd = false;
    interval = 0;
    repeat = false;
  };
  high_water_mark = 64 * 1024 * 1024;
  state = StateE.connected;
  has_write_complete = true;
  has_high_water = false;
  input_buffer = nothing;
  output_buffer = nothing;
  pending = [];
  effects = [];
}

idle_conn-Good : Good idle_conn
unfolding Good is_writing has_flag
idle_conn-Good = (
  record {
    valid = nothing-IsValid;
    mask = omega arith;
    idle = λ e. length-content nothing-IsValid;
    busy = λ e. absurd (ground (arith, e));
  },
  nothing-IsValid,
)

abbrev pair : Peers
pair = record { sender = idle_conn; receiver = idle_conn; delivered = []; consumed = [] }

pair-Joined : Joined pair
unfolding is_shut asks transmitted content
pair-Joined = record {
  sender_good = idle_conn-Good;
  closing = record {
    idle = λ e. absurd (ground (arith, e));
    left = λ e. absurd (ground (arith, e));
    asked = λ e. absurd (ground (arith, e));
  };
  receiver_good = idle_conn-Good;
  arrived = refl;
  carried = ([], refl);
  ended = λ e. absurd (ground (arith, e));
}

abbrev events : List Event
events =
    Event.sends (Op.sends true (b'h' ∷ b'i' ∷ b'!' ∷ []) (wrote 2))
    ∷ Event.reads (b'h' ∷ [])
    ∷ Event.sends (Op.shuts true)
    ∷ Event.consumes 1
    ∷ Event.sends (Op.writable (wrote 1))
    ∷ Event.reads (b'i' ∷ b'!' ∷ [])
    ∷ Event.reads []
    ∷ []

events-Possible : Possible pair events
unfolding Possible readable_bytes has_flag Plausible set_event content peek iov_room retrieve
    retrieve_as_string transmitted is_shut read_fd append drained
events-Possible = (
  ((omega arith, omega arith), λ e. cc),
  (
    (refl, (omega arith, omega arith), (b'i' ∷ [], refl)),
    (
      (tt, tt),
      (
        omega arith,
        (
          (omega arith, tt),
          (
            (refl, (omega arith, omega arith), ([], refl)),
            ((refl, (omega arith, omega arith), (refl, refl)), tt),
          ),
        ),
      ),
    ),
  ),
)

run-delivers_example : Yields (run pair events) (λ p'.
    (wire : List ℕ) × (((p'.consumed ++ content p'.receiver.input_buffer) ++ wire)
        ++ content p'.sender.output_buffer
      ≡ stream pair.sender ++ accepted_all pair events))
run-delivers_example = run-delivers events pair pair-Joined events-Possible

-- The pair behind the events.
finished : Yields (run pair events) (λ p'. is_disconnected p'.receiver.state ≡ true)
unfolding run readable_bytes has_flag Plausible set_event content peek iov_room retrieve_as_string
    transmitted is_shut read_fd append drained
finished = (_, refl, refl)

run_complete_example :
    finished.0.consumed ++ content finished.0.receiver.input_buffer
    ≡ stream pair.sender ++ accepted_all pair events
run_complete_example =
    run_complete events pair finished.0 pair-Joined events-Possible finished.1 finished.2

accepted : accepted_all pair events ≡ b'h' ∷ b'i' ∷ b'!' ∷ []
unfolding accepted_all readable_bytes has_flag kept set_event content peek retrieve_as_string
    read_fd append drained
accepted = refl

-- The pair when the socket took "hi", the first byte arrived, and the sender was shut down.
abbrev bang : Buffer
bang = record { buffer = replicate 8 0 ++ b'!' ∷ replicate 3 0; reader_index = 8; writer_index = 9 }

abbrev first_byte : Buffer
first_byte = record {
  buffer = replicate 8 0 ++ b'h' ∷ replicate 3 0;
  reader_index = 8;
  writer_index = 9;
}

abbrev closing_conn : TcpConnection
closing_conn = record idle_conn {
  channel = record idle_conn.channel { events = 6; last_events = 6 };
  state = StateE.disconnecting;
  output_buffer = bang;
  effects = Effect.sent (b'h' ∷ b'i' ∷ []) ∷ Effect.update_channel 6 ∷ [];
}

abbrev closing_pair : Peers
closing_pair = record {
  sender = closing_conn;
  receiver = record idle_conn { input_buffer = first_byte };
  delivered = b'h' ∷ [];
  consumed = [];
}

bang-IsValid : IsValid bang
bang-IsValid = record {
  order = omega arith;
  inside = omega arith;
  room = omega arith;
  small = omega arith;
}

first_byte-IsValid : IsValid first_byte
first_byte-IsValid = record {
  order = omega arith;
  inside = omega arith;
  room = omega arith;
  small = omega arith;
}

closing_pair-Joined : Joined closing_pair
unfolding Good is_shut asks transmitted content peek is_writing has_flag
closing_pair-Joined = record {
  sender_good = (
    record {
      valid = bang-IsValid;
      mask = omega arith;
      idle = λ e. absurd (ground (arith, e));
      busy = λ e. omega (arith, length-content bang-IsValid);
    },
    nothing-IsValid,
  );
  closing = record { idle = λ e. absurd (ground (arith, e)); left = λ e. refl; asked = λ e. refl };
  receiver_good = (
    record {
      valid = nothing-IsValid;
      mask = omega arith;
      idle = λ e. length-content nothing-IsValid;
      busy = λ e. absurd (ground (arith, e));
    },
    first_byte-IsValid,
  );
  arrived = refl;
  carried = (b'i' ∷ [], refl);
  ended = λ e. absurd (ground (arith, e));
}

abbrev pieces : List (List ℕ)
pieces = (b'i' ∷ []) ∷ (b'!' ∷ []) ∷ []

shutdown-arrives_example : Yields (handle_writes (1 ∷ []) closing_conn) (λ c.
    let q = record closing_pair { sender = c } in
    Possible q (pieces_then_end pieces)
    × Yields (run q (pieces_then_end pieces)) (λ p'.
      (is_disconnected p'.receiver.state ≡ true)
      × (p'.consumed ++ content p'.receiver.input_buffer ≡ stream closing_conn)))
unfolding is_writing has_flag Positive content peek stream transmitted joined Pieces read_fd
    handle_read copy_to iov_room
shutdown-arrives_example =
    shutdown-arrives (1 ∷ []) pieces closing_pair closing_pair-Joined refl refl (omega arith, tt)
      (omega arith) refl refl
      (
        omega arith,
        (omega arith, omega arith),
        (omega arith, (omega arith, omega arith), (omega arith, omega arith)),
      )
