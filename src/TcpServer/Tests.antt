-- ===== src/TcpServer/Tests.antt =====
-- A server on port 80, and one with a connection.
use xweb.Prelude.{
  arith, ◌*◌, List, [], All, ◌^◌, ltb, suc, Yields, ◌≡◌, refl, ◌∷◌, some, none, true, false, length,
  ◌==◌, if◌then◌else◌,
}
use xweb.Prelude.Int.{pos}
use xweb.Prelude.Map.{find, assign}
use xweb.Buffer.Transfer.{got, read_fd, iov_room}
use xweb.Channel.{handle_event, set_active_event, has_flag, new_channel, is_writing}
use xweb.Epoller.{active_events}
use xweb.TcpConnection.Run.{Good, run_oldest, Fits, FitsOldest}
use xweb.Prelude.Memory.{copy_to}
use xweb.Buffer.{fresh, readable_bytes, content}
use xweb.TcpConnection.Run.Handlers.{Sound}
use xweb.TcpConnection.Watch.{last_mask, all_low}
use xweb.Buffer.Append.{fresh-IsValid}
use xweb.Buffer.Invariant.{length-content}
use xweb.TcpConnection.Read.{Readable}
use xweb.TcpConnection.Send.{Plausible}
use xweb.LogStream.{convert}
use xweb.TcpConnection.{
  StateE, Task, Effect, wrote, new_connection, connect_established, handle_channel, run_handler,
  send, destroy, TcpConnection,
}
use xweb.TcpServer
use xweb.TcpServer.{
  Action, TcpServer, name_discrete, new_server, add_connection, connection_name, Name, ready, sends,
  runs, handle, act, settle, remove_connection, Reach, here, accepted,
}
use xweb.TcpServer.Serve.{
  Event, accepts, acts, serve, SoundEntry, AllCanHappen, serve_complete, close-Absent,
}
use xweb.TcpServer.Connections.{Inv, Entry, IsLive, add_connection_refines, Reach-Inv, destroy-Inv}

abbrev server : TcpServer
server = new_server (pos 80) true true

server-Inv : Inv server
unfolding Inv new_server
server-Inv = tt

server-connects : server.has_connection ≡ true
unfolding new_server
server-connects = refl

server-counts : ltb (suc server.next_conn_id) (2 ^ 31) ≡ true
unfolding new_server
server-counts = refl

busy_server : TcpServer
busy_server = (add_connection_refines server 5 0 server-Inv server-connects server-counts).0

busy_server-Reach : Reach (new_server (pos 80) true true) busy_server
unfolding busy_server
busy_server-Reach =
    accepted true 5 0 here
      (add_connection_refines server 5 0 server-Inv server-connects server-counts).1

Reach-Inv_example :
    Inv busy_server
    × (find name_discrete busy_server.conn_map
          (connection_name busy_server.port busy_server.next_conn_id)
        ≡ none)
Reach-Inv_example = Reach-Inv (pos 80) true true busy_server busy_server-Reach

busy_server-Inv : Inv busy_server
busy_server-Inv = (Reach-Inv (pos 80) true true busy_server busy_server-Reach).0

destroy-Inv_example :
    TcpServer.destroy busy_server true
    ≡ (if length busy_server.conn_map == 0 then some tt else none)
destroy-Inv_example = destroy-Inv busy_server busy_server-Inv

-- A connection comes, its peer sends "hi", another thread answers, the loop runs that functor, and
-- the peer closes.
abbrev conn_name : Name
conn_name = b'8' ∷ b'0' ∷ b'#' ∷ b'0' ∷ []

abbrev events : List Event
events =
    accepts 5 0
    ∷ acts conn_name (ready 2 (got (b'h' ∷ b'i' ∷ [])) (wrote 0))
    ∷ acts conn_name (sends false (b'!' ∷ []) (wrote 0))
    ∷ acts conn_name (runs (wrote 1))
    ∷ acts conn_name (ready 2 (got []) (wrote 0))
    ∷ accepts 5 0
    ∷ []

serve_complete_example :
    Yields (serve (new_server (pos 80) true true) events) (λ s. Inv s × All SoundEntry s.conn_map)
unfolding AllCanHappen new_server name_discrete find assign convert new_connection
    connect_established handle_channel run_handler run_oldest send destroy handle_event
    set_active_event active_events new_channel read_fd copy_to fresh readable_bytes Readable
    Plausible iov_room content Fits FitsOldest
serve_complete_example = serve_complete (pos 80) true events (
  refl,
  (
    (_, refl, ((1, refl), (omega arith, omega arith), omega arith)),
    (
      (_, refl, (omega arith, omega arith)),
      (
        (_, refl, (omega arith, omega arith)),
        ((_, refl, ((1, refl), (omega arith, omega arith), omega arith)), (refl, tt)),
      ),
    ),
  ),
)

-- A connection for which another thread queued a message.
abbrev waiting_conn : TcpConnection
waiting_conn = record {
  channel = record (new_channel 0 5 false) { events = 2; last_events = 2 };
  high_water_mark = 64 * 1024 * 1024;
  state = StateE.connected;
  has_write_complete = true;
  has_high_water = false;
  input_buffer = fresh;
  output_buffer = fresh;
  pending = Task.send_task (b'!' ∷ []) ∷ [];
  effects = Effect.update_channel 2 ∷ Effect.connection_callback ∷ [];
}

waiting_conn-Sound : Sound waiting_conn
unfolding Good is_writing has_flag new_channel last_mask all_low fresh content
waiting_conn-Sound = record {
  good = (
    record {
      valid = fresh-IsValid.0;
      mask = omega arith;
      idle = λ e. omega (arith, length-content fresh-IsValid.0);
      busy = λ e. absurd (ground (arith, e));
    },
    fresh-IsValid.0,
  );
  synced = record { last = refl; masks = refl; low = omega arith; connects = refl };
}

abbrev waiting_server : TcpServer
waiting_server = record server { next_conn_id = 1; conn_map = (conn_name, waiting_conn) ∷ [] }

waiting_server-Inv : Inv waiting_server
unfolding Inv Entry IsLive connection_name convert new_server
waiting_server-Inv = (((0, omega arith, refl), refl), tt)

close-Absent_example :
    Yields
      (handle waiting_server conn_name
        (ready (active_events waiting_conn.channel 1) (got []) (wrote 0)))
      (λ t.
        (t ≡ remove_connection waiting_server conn_name)
        × (find name_discrete t.conn_map conn_name ≡ none)
        × ((action : Action) → handle t conn_name action ≡ none))
unfolding find name_discrete has_flag
close-Absent_example =
    close-Absent waiting_server conn_name waiting_conn 1 (wrote 0) waiting_server-Inv
      waiting_conn-Sound refl refl
