-- ===== src/TcpConnection/Core.antt =====
-- net/tcp_connection.h: the state of a connection, and what it can do outside itself.
use xweb.Prelude.{ℕ, ◌*◌, List, [], ◌∷◌, ◌++◌, Bool, true, false, if◌then◌else◌}
use xweb.Buffer.{Buffer, fresh}
use xweb.Channel.{Channel, new_channel, set_event}

pub data StateE : Type 0 where
  disconnected connecting connected disconnecting : StateE

-- What `write` returns: a count, or -1 with `errno`.
pub data WriteResult : Type 0 where
  wrote : ℕ → WriteResult
  write_failed : ℕ → WriteResult

pub data Effect : Type 0 where
  -- bytes that the socket took
  sent : List ℕ → Effect
  update_channel : ℕ → Effect
  remove_channel connection_callback message_callback : Effect
  write_complete_callback close_callback shutdown_write get_socket_error : Effect
  high_water_mark_callback : ℕ → Effect

pub data Task : Type 0 where
  send_task : List ℕ → Task
  shutdown_task : Task

pub record TcpConnection : Type 0 where
  pub channel : Channel
  pub high_water_mark : ℕ
  pub state : StateE
  -- whether these callbacks are set
  pub has_write_complete : Bool
  pub has_high_water : Bool
  pub input_buffer : Buffer
  pub output_buffer : Buffer
  pub pending : List Task
  pub effects : List Effect

abbrev pub ewouldblock : ℕ
ewouldblock = 11

abbrev pub epipe : ℕ
epipe = 32

abbrev pub econnreset : ℕ
econnreset = 104

abbrev pub is_disconnected : StateE → Bool
is_disconnected StateE.disconnected = true
is_disconnected StateE.connecting = false
is_disconnected StateE.connected = false
is_disconnected StateE.disconnecting = false

abbrev pub is_connecting : StateE → Bool
is_connecting StateE.disconnected = false
is_connecting StateE.connecting = true
is_connecting StateE.connected = false
is_connecting StateE.disconnecting = false

abbrev pub is_connected : StateE → Bool
is_connected StateE.disconnected = false
is_connected StateE.connecting = false
is_connected StateE.connected = true
is_connected StateE.disconnecting = false

abbrev pub is_disconnecting : StateE → Bool
is_disconnecting StateE.disconnected = false
is_disconnecting StateE.connecting = false
is_disconnecting StateE.connected = false
is_disconnecting StateE.disconnecting = true

-- The constructor. The buffers are as their constructor leaves them.
unfoldable pub new_connection : ℕ → ℕ → Bool → Bool → TcpConnection
new_connection garbage sockfd has_write_complete has_high_water = record {
  channel = new_channel garbage sockfd false;
  high_water_mark = 64 * 1024 * 1024;
  state = StateE.connecting;
  has_write_complete = has_write_complete;
  has_high_water = has_high_water;
  input_buffer = fresh;
  output_buffer = fresh;
  pending = [];
  effects = [];
}

abbrev pub emit : TcpConnection → Effect → TcpConnection
emit c e = record c { effects = c.effects ++ e ∷ [] }

abbrev pub emit_if : Bool → TcpConnection → Effect → TcpConnection
emit_if b c e = record c { effects = if b then c.effects ++ e ∷ [] else c.effects }

-- `channel_->setEvent(event); loop_->updateChannel(channel_.get());`
abbrev pub watch : TcpConnection → ℕ → TcpConnection
watch c event =
    emit (record c { channel = set_event c.channel event }) (Effect.update_channel event)

-- Queued by `runInLoop` from another thread.
abbrev pub queue : TcpConnection → Task → TcpConnection
queue c task = record c { pending = c.pending ++ task ∷ [] }
