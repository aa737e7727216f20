-- ===== src/KqueuePoller.antt =====
-- net/mac/kqueue_poller.h and net/mac/kqueue_poller.cpp: the poller over kqueue. As in Epoller,
-- a channel is a pointer, here a number, with the object behind it beside it; the calls of
-- `kevent` are recorded, and what it reports is an argument.
pub mod Filters
pub mod Events
mod Tests
use xweb.Prelude.{
  ℕ, suc, List, [], ◌∷◌, ◌++◌, Option, none, some, Bool, true, false, ◌&&◌, ◌||◌, leb,
  if◌then◌else◌, ℕ_discrete,
}
use xweb.Prelude.Map.{find, erase, assign}
use xweb.Channel.{
  Channel, channel_conn, channel_read, channel_write, channel_timer, has_flag, update_event,
}
use xweb.Epoller.{is_some}

-- The filters by name, and any other number.
pub data Filter : Type 0 where
  read_filter write_filter timer_filter user_filter : Filter
  filter_no : ℕ → Filter

-- The flags that the source combines.
pub data Flags : Type 0 where
  add_enable disable delete add add_oneshot add_clear trigger : Flags

-- `struct kevent` as `EV_SET` fills it.
pub record Change : Type 0 where
  pub ident : ℕ
  pub filter : Filter
  pub flags : Flags
  pub data_ : ℕ

-- `channels_`, and the change lists of the calls so far, oldest first.
pub record KqueuePoller : Type 0 where
  pub channels : List (ℕ × ℕ)
  pub calls : List (List Change)

abbrev change : ℕ → Filter → Flags → Change
change fd filter flags = record { ident = fd; filter = filter; flags = flags; data_ = 0 }

-- The constructor, by the number of its wakeup channel.
pub new_poller : ℕ → KqueuePoller
new_poller wakeup_fd = record {
  channels = [];
  calls = (change wakeup_fd user_filter add_clear ∷ []) ∷ [];
}

-- The changes of `update`.
pub update_changes : Channel → List Change
update_changes c =
    let reads = has_flag c.events channel_read || has_flag c.events channel_conn in
    (if (has_flag c.events channel_read || has_flag c.last_events channel_read)
        || has_flag c.events channel_conn
      then change c.fd read_filter (if reads then add_enable else disable) ∷ []
      else [])
    ++ (if has_flag c.last_events channel_write || has_flag c.events channel_write
        then change c.fd write_filter
            (if has_flag c.events channel_write then add_enable else disable)
          ∷ []
        else [])
    ++ (if has_flag c.events channel_timer
        then record {
          ident = c.fd;
          filter = timer_filter;
          flags = if c.repeat then add else add_oneshot;
          data_ = c.interval;
        }
          ∷ []
        else [])

-- Whatever `kevent` returns, the channel counts as registered.
pub update : KqueuePoller → ℕ → Channel → KqueuePoller × Channel
unfolding update_changes
update p pointer c = (
  record {
    channels = assign ℕ_discrete p.channels c.fd pointer;
    calls = p.calls ++ update_changes c ∷ [];
  },
  update_event c,
)

-- The changes of `remove`; the second gives CHANNEL_WRITE for the filter.
pub remove_changes : Channel → List Change
remove_changes c =
    (if has_flag c.events channel_read then change c.fd read_filter delete ∷ [] else [])
    ++ (if has_flag c.events channel_write
        then change c.fd (filter_no channel_write) delete ∷ []
        else [])
    ++ (if has_flag c.events channel_timer then change c.fd timer_filter delete ∷ [] else [])

pub remove : KqueuePoller → Channel → KqueuePoller
unfolding remove_changes
remove p c =
    if is_some (find ℕ_discrete p.channels c.fd)
    then record {
      channels = erase ℕ_discrete p.channels c.fd;
      calls = p.calls ++ remove_changes c ∷ [];
    }
    else p

-- `getTimerFd`, by its static variable.
pub get_timer_fd : ℕ → ℕ
get_timer_fd fd = if leb 50000 (suc fd) then 40000 else suc fd

-- `evt` for the filter of a report.
pub active_events : Filter → ℕ
active_events read_filter = channel_read
active_events write_filter = channel_write
active_events timer_filter = channel_timer
active_events user_filter = 0
active_events (filter_no n) = 0

-- `poll`, by the descriptors and filters that `kevent` reports, in order: the channels that
-- become active, each with its mask.
pub poll : KqueuePoller → (ℕ → Channel) → List (ℕ × Filter) → List (ℕ × ℕ)
unfolding active_events
poll p object [] = []
poll p object ((fd, filter) ∷ rest) = elim (find ℕ_discrete p.channels fd) [
  | none ↦ poll p object rest
  | some pointer ↦ (pointer, active_events filter) ∷ poll p object rest
]

-- `wakeup`
pub wakeup : KqueuePoller → ℕ → KqueuePoller
wakeup p wakeup_fd = record p {
  calls = p.calls ++ (change wakeup_fd user_filter trigger ∷ []) ∷ [];
}
