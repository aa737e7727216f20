-- ===== src/TcpConnection/Run/Tests.antt =====
-- A connection that is sent to by two threads.
use xweb.Prelude.{
  ℕ, ◌≢◌, none, ltb, length, if◌then◌else◌, ℕ_discrete, ◌*◌, ◌≡◌, refl, List, [], ◌∷◌, ◌++◌, true,
  false, some, arith, Yields, ◌>>=◌, replicate,
}
use xweb.Prelude.Map.{find, assign}
use xweb.Buffer.{Buffer, content, readable_bytes}
use xweb.Buffer.Invariant.{IsValid, length-content}
use xweb.Channel.{is_writing, has_flag, set_event, new_channel}
use xweb.Epoller.{new_epoller, epollout, interest}
use xweb.Epoller.Kernel.{watched, replay, after}
use xweb.Epoller.Registry.{new_epoller-Registered}
use xweb.TcpConnection.{TcpConnection, StateE, Effect, wrote, is_disconnected}
use xweb.TcpConnection.Stream.{stream}
use xweb.TcpConnection.Send.{Plausible, kept}
use xweb.TcpConnection.Run.{Op, run, Good, Possible, accepted_all}
use xweb.TcpConnection.Run.Keeps.{run-accepted_all}
use xweb.TcpConnection.Watch.{System, IsClear, Synced, apply_all, last_mask, all_low}
use xweb.TcpConnection.Run.Watched.{AllReported, run-watched}

abbrev nothing : Buffer
nothing = record { buffer = replicate 10 0; reader_index = 8; writer_index = 8 }

nothing-IsValid : IsValid nothing
nothing-IsValid = record {
  order = omega arith;
  inside = omega arith;
  room = omega arith;
  small = omega arith;
}

abbrev idle_conn : TcpConnection
idle_conn = record {
  channel = record {
    events = 2;
    active_events = 0;
    last_events = 2;
    fd = 5;
    is_listen_fd = false;
    interval = 0;
    repeat = false;
  };
  high_water_mark = 64 * 1024 * 1024;
  state = StateE.connected;
  has_write_complete = true;
  has_high_water = false;
  input_buffer = nothing;
  output_buffer = nothing;
  pending = [];
  effects = [];
}

idle_conn-Good : Good idle_conn
unfolding Good is_writing has_flag
idle_conn-Good = (
  record {
    valid = nothing-IsValid;
    mask = omega arith;
    idle = λ e. length-content nothing-IsValid;
    busy = λ e. absurd (ground (arith, e));
  },
  nothing-IsValid,
)

-- Another thread sends, the loop's thread sends before the loop runs the functor, and then shuts
-- down.
abbrev events : List Op
events =
    Op.sends false (b'!' ∷ []) (wrote 0)
    ∷ Op.sends true (b'?' ∷ b'?' ∷ []) (wrote 2)
    ∷ Op.runs (wrote 1)
    ∷ Op.writable (wrote 0)
    ∷ Op.shuts true
    ∷ []

run-accepted_all_example :
    Yields
      (run idle_conn events)
      (λ c'. Good c' × (stream c' ≡ stream idle_conn ++ accepted_all idle_conn events))
unfolding Possible readable_bytes has_flag Plausible
run-accepted_all_example = run-accepted_all events idle_conn idle_conn-Good (
  (omega arith, omega arith),
  ((omega arith, omega arith), ((omega arith, omega arith), (omega arith, (tt, tt)))),
)

accepted : accepted_all idle_conn events ≡ b'?' ∷ b'?' ∷ b'!' ∷ []
unfolding accepted_all readable_bytes kept has_flag
accepted = refl

-- `shutdown` on the loop's thread does not wait for a `send` that another thread queued.
overtaken :
    (run idle_conn (Op.sends false (b'!' ∷ []) (wrote 0) ∷ Op.shuts true ∷ Op.runs (wrote 1) ∷ [])
      >>= λ c. some c.effects)
    ≡ some (Effect.shutdown_write ∷ Effect.sent (b'!' ∷ []) ∷ Effect.write_complete_callback ∷ [])
unfolding run readable_bytes has_flag
overtaken = refl

-- The same connection, which its poller watches for reads.
abbrev known_conn : TcpConnection
known_conn = record idle_conn {
  effects = Effect.update_channel 2 ∷ Effect.connection_callback ∷ [];
}

known_conn-Good : Good known_conn
unfolding Good
known_conn-Good =
    let g = idle_conn-Good in
    (
      record { valid = g.0.valid; mask = g.0.mask; idle = g.0.idle; busy = g.0.busy },
      nothing-IsValid,
    )

known_conn-Synced : Synced known_conn
unfolding last_mask all_low
known_conn-Synced = record { last = refl; masks = refl; low = omega arith; connects = refl }

abbrev clear : System
clear = record { unset = λ p. 0; succeeds = λ p. true }

clear-IsClear : IsClear clear
clear-IsClear = record { unset_clear = λ p. refl; all_succeed = λ p. refl }

run-watched_example : Yields (run known_conn events) (λ c'.
    let p' = apply_all clear (new_epoller 3 0 0 true) 1 5 c'.effects in
    (mask : ℕ) × (find ℕ_discrete (watched p') 5
      ≡ (if is_disconnected c'.state then none else some mask))
    × (has_flag mask epollout ≡ ltb 0 (length (content c'.output_buffer)))
    × ((other : ℕ)
        → ◌≢◌ {A = ℕ} 5 other
        → find ℕ_discrete (watched p') other
          ≡ find ℕ_discrete (watched (new_epoller 3 0 0 true)) other))
unfolding Possible AllReported readable_bytes has_flag Plausible watched replay after find assign
    ℕ_discrete new_epoller interest set_event new_channel
run-watched_example =
    run-watched clear clear-IsClear events known_conn (new_epoller 3 0 0 true) 1 known_conn-Good
      known_conn-Synced
      (
        (omega arith, omega arith),
        ((omega arith, omega arith), ((omega arith, omega arith), (omega arith, (tt, tt)))),
      )
      (tt, (tt, (tt, (refl, (tt, tt))))) (new_epoller-Registered 3 0 0 true) refl
