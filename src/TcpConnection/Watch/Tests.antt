-- ===== src/TcpConnection/Watch/Tests.antt =====
-- A connection whose output waits, and a poller that watches another descriptor.
use xweb.Prelude.{
  Yields, ◌*◌, ◌≡◌, refl, [], ◌∷◌, ◌++◌, some, true, false, arith, replicate, length, ℕ_discrete,
}
use xweb.Prelude.Map.{find, assign}
use xweb.Buffer.{Buffer, content}
use xweb.Buffer.Invariant.{IsValid, length-content}
use xweb.Channel.{is_writing, has_flag, set_event, new_channel}
use xweb.Epoller.{Epoller, poll, new_epoller, interest}
use xweb.Epoller.Kernel.{watched, replay, after}
use xweb.Epoller.Registry.{new_epoller-Registered}
use xweb.Epoller.Events.{dispatch}
use xweb.TcpConnection.{TcpConnection, StateE, Effect, wrote, handle_write}
use xweb.TcpConnection.Stream.{Inv}
use xweb.TcpConnection.Watch.{System, IsClear, Synced, apply_all, last_mask, all_low}
use xweb.TcpConnection.Watch.Deaf.{report, handle_write-deaf}

abbrev output : Buffer
output = record { buffer = replicate 8 0 ++ b'h' ∷ b'i' ∷ []; reader_index = 8; writer_index = 10 }

abbrev busy_conn : TcpConnection
busy_conn = record {
  channel = record {
    events = 6;
    active_events = 0;
    last_events = 6;
    fd = 5;
    is_listen_fd = false;
    interval = 0;
    repeat = false;
  };
  high_water_mark = 64 * 1024 * 1024;
  state = StateE.connected;
  has_write_complete = true;
  has_high_water = false;
  input_buffer = output;
  output_buffer = output;
  pending = [];
  effects = Effect.update_channel 2 ∷ Effect.connection_callback ∷ Effect.update_channel 6 ∷ [];
}

output-IsValid : IsValid output
output-IsValid = record {
  order = omega arith;
  inside = omega arith;
  room = omega arith;
  small = omega arith;
}

busy_conn-Inv : Inv busy_conn
unfolding is_writing has_flag
busy_conn-Inv = record {
  valid = output-IsValid;
  mask = omega arith;
  idle = λ e. absurd (ground (arith, e));
  busy = λ e. omega (arith, length-content output-IsValid);
}

busy_conn-Synced : Synced busy_conn
unfolding last_mask all_low
busy_conn-Synced = record { last = refl; masks = refl; low = omega arith; connects = refl }

-- A new poller, with its wakeup channel.
abbrev poller : Epoller
poller = new_epoller 3 0 0 true

abbrev clear : System
clear = record { unset = λ p. 0; succeeds = λ p. true }

clear-IsClear : IsClear clear
clear-IsClear = record { unset_clear = λ p. refl; all_succeed = λ p. refl }

handle_write-deaf_example :
    Yields (handle_write busy_conn true (wrote (length (content output)))) (λ c'.
      let p' = apply_all clear poller 1 5 c'.effects in
      (find ℕ_discrete (watched p') 5 ≡ some 0)
      × (dispatch (λ _. c'.channel) (poll p' (λ _. c'.channel) ((5, report 0 1) ∷ [])) ≡ []))
unfolding is_writing has_flag watched replay after find assign ℕ_discrete new_epoller interest
    set_event new_channel
handle_write-deaf_example =
    handle_write-deaf clear clear-IsClear busy_conn poller 1 1 busy_conn-Inv busy_conn-Synced refl
      refl (new_epoller-Registered 3 0 0 true) refl (omega arith)
