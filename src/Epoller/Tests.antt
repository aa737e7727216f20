-- ===== src/Epoller/Tests.antt =====
-- A poller with a connection, readable and writable, and a timer.
use xweb.Prelude.{ℕ, ◌≡◌, refl, List, [], ◌∷◌, true, false, ◌==◌, if◌then◌else◌, ℕ_discrete}
use xweb.Prelude.Map.{find}
use xweb.Channel.{Channel, Handler, has_flag}
use xweb.Epoller.{Epoller, new_epoller}
use xweb.Epoller.Registry.{Registered, Use, updates, removes, run, run-Registered}
use xweb.Epoller.Events.{handler_of, reached}

abbrev connection : Channel
connection = record {
  events = 6;
  active_events = 0;
  last_events = 2;
  fd = 5;
  is_listen_fd = false;
  interval = 0;
  repeat = false;
}

abbrev timer : Channel
timer = record {
  events = 8;
  active_events = 0;
  last_events = 0;
  fd = 9;
  is_listen_fd = false;
  interval = 1500;
  repeat = true;
}

abbrev uses : List Use
uses =
    updates 1 connection 0 true true ∷ updates 2 timer 0 true false ∷ removes connection true ∷ []

run-Registered_example : Registered (run (new_epoller 3 0 0 true) uses)
run-Registered_example = run-Registered uses 3 0 0 true

abbrev registered : Epoller
registered = record { channels = (5, 1) ∷ (9, 2) ∷ []; calls = [] }

object : ℕ → Channel
object pointer = if pointer == 1 then connection else timer

abbrev reports : List (ℕ × ℕ)
reports = (5, 5) ∷ (9, 1) ∷ (7, 1) ∷ (5, 4) ∷ []

-- The connection's two handlers, and nothing for the timer.
reached-reports :
    reached registered object reports ≡ (1, Handler.read_handler) ∷ (1, Handler.write_handler) ∷ []
unfolding reached object find ℕ_discrete handler_of has_flag
reached-reports = refl
