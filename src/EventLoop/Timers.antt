-- ===== src/EventLoop/Timers.antt =====
-- `runAfter`, `runEvery` and `cancel` of net/event_loop.cpp, as they run on the loop's thread.
-- The map `timers_` is an association list; `getTimerFd` of the poller gives the descriptor, an
-- argument.
use xweb.Prelude.{
  ℕ, ◌≡◌, refl, List, [], ◌∷◌, ◌++◌, Option, none, some, Bool, true, false, arith, ℕ_discrete,
}
use xweb.Prelude.Map.{find, erase, assign, find-assign, erase_absent}
use xweb.Channel.{Channel, new_channel, channel_timer, set_event}

pub data PollerCall : Type 0 where
  update : Channel → PollerCall
  remove : Channel → PollerCall

pub record Timers : Type 0 where
  pub timers : List (ℕ × Channel)
  pub calls : List PollerCall

-- The channel of a timer: `new Channel`, and the setters.
pub timer_channel : ℕ → ℕ → Bool → ℕ → Channel
unfolding set_event
timer_channel garbage fd repeat interval =
    record (set_event (new_channel garbage 0 false) channel_timer) {
      fd = fd;
      interval = interval;
      repeat = repeat;
    }

pub add_timer : Timers → ℕ → Channel → Timers
add_timer t fd c = record t {
  timers = assign ℕ_discrete t.timers fd c;
  calls = t.calls ++ PollerCall.update c ∷ [];
}

pub run_after : Timers → ℕ → ℕ → ℕ → Timers
unfolding add_timer timer_channel
run_after t garbage fd delay = add_timer t fd (timer_channel garbage fd false delay)

pub run_every : Timers → ℕ → ℕ → ℕ → Timers
unfolding add_timer timer_channel
run_every t garbage fd interval = add_timer t fd (timer_channel garbage fd true interval)

-- The body of the `if` in `cancel`, with the channel that was found.
forget : Timers → ℕ → Option Channel → Timers
forget t id none = t
forget t id (some c) = record t {
  timers = erase ℕ_discrete t.timers id;
  calls = t.calls ++ PollerCall.remove c ∷ [];
}

pub cancel : Timers → ℕ → Timers
unfolding forget
cancel t id = forget t id (find ℕ_discrete t.timers id)

cancel_absent : (t : Timers) (fd : ℕ) → find ℕ_discrete t.timers fd ≡ none → cancel t fd ≡ t
unfolding cancel
cancel_absent t fd h = rw h refl

module _ (t : Timers) (fd : ℕ) (c : Channel) where
  found : find ℕ_discrete (add_timer t fd c).timers fd ≡ some c
  unfolding add_timer
  found = find-assign ℕ_discrete t.timers fd c

  erase-assign :
      find ℕ_discrete t.timers fd ≡ none → erase ℕ_discrete (add_timer t fd c).timers fd ≡ t.timers
  unfolding add_timer assign erase
  erase-assign h = ground (arith, erase_absent ℕ_discrete t.timers fd h)

  abbrev pub cancelled : Timers
  cancelled = record t { calls = (t.calls ++ PollerCall.update c ∷ []) ++ PollerCall.remove c ∷ [] }

  calls_new :
      record (add_timer t fd c) {
        timers = t.timers;
        calls = (add_timer t fd c).calls ++ PollerCall.remove c ∷ [];
      }
      ≡ cancelled
  unfolding add_timer
  calls_new = refl

  cancel_new : find ℕ_discrete t.timers fd ≡ none → cancel (add_timer t fd c) fd ≡ cancelled
  unfolding cancel
  cancel_new h = rw (found, erase-assign h) calls_new

  -- On a descriptor that is no timer yet, `cancel` of a new timer brings the map back after one
  -- `update` and one `remove` of its channel; a second `cancel` changes nothing.
  pub cancel-add_timer :
      find ℕ_discrete t.timers fd ≡ none
      → (cancel (add_timer t fd c) fd ≡ cancelled) × (cancel cancelled fd ≡ cancelled)
  cancel-add_timer h = (cancel_new h, cancel_absent cancelled fd h)
