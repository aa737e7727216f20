-- ===== src/TcpConnection/Tests.antt =====
-- A connection whose output waits.
use xweb.Prelude.{some, ◌>>=◌, ◌*◌, ◌≡◌, refl, [], ◌∷◌, ◌++◌, true, false, replicate}
use xweb.Buffer.{Buffer, content, retrieve, peek}
use xweb.Channel.{has_flag}
use xweb.TcpConnection.{TcpConnection, StateE, Effect, handle_write, drained}
use xweb.TcpConnection.Drain.{handle_writes}

abbrev output : Buffer
output = record { buffer = replicate 8 0 ++ b'h' ∷ b'i' ∷ []; reader_index = 8; writer_index = 10 }

abbrev busy_conn : TcpConnection
busy_conn = record {
  channel = record {
    events = 6;
    active_events = 0;
    last_events = 6;
    fd = 5;
    is_listen_fd = false;
    interval = 0;
    repeat = false;
  };
  high_water_mark = 64 * 1024 * 1024;
  state = StateE.connected;
  has_write_complete = true;
  has_high_water = false;
  input_buffer = output;
  output_buffer = output;
  pending = [];
  effects = [];
}

-- Two writes send what waits, and then the write side is shut down.
drains :
    (handle_writes (1 ∷ 5 ∷ []) (record busy_conn { state = StateE.disconnecting }) >>= λ c.
    some c.effects)
    ≡ some (
        Effect.sent (b'h' ∷ [])
        ∷ Effect.sent (b'i' ∷ [])
        ∷ Effect.update_channel 0
        ∷ Effect.write_complete_callback
        ∷ Effect.shutdown_write
        ∷ [])
unfolding handle_writes handle_write has_flag content retrieve drained peek
drains = refl
