-- ===== src/Channel.antt =====
-- net/channel.h and net/channel.cpp: a descriptor, the events it waits for, and which of its
-- handlers an event calls. A mask of events is a number, as in the code.
use xweb.Prelude.{
  ℕ, ◌<◌, ◌≡◌, refl, arith, Bool, true, false, not, ◌==◌, ==_iff, if◌then◌else◌, Option, none, some,
  tabulated, table_entry, ltb, ltb→lt, ◌&&◌,
}
use Prim.Native.Nat.{bit_and, bit_or}

abbrev pub channel_conn : ℕ
channel_conn = 1

abbrev pub channel_read : ℕ
channel_read = 2

abbrev pub channel_write : ℕ
channel_write = 4

abbrev pub channel_timer : ℕ
channel_timer = 8

-- The handler that is called, in place of the function that was set for it.
pub data Handler : Type 0 where
  conn_handler read_handler write_handler timer_handler : Handler

pub record Channel : Type 0 where
  pub events : ℕ
  pub active_events : ℕ
  pub last_events : ℕ
  pub fd : ℕ
  pub is_listen_fd : Bool
  pub interval : ℕ
  pub repeat : Bool

-- The constructor leaves `active_events_` as the memory has it.
unfoldable pub new_channel : ℕ → ℕ → Bool → Channel
new_channel garbage fd is_listen = record {
  events = 0;
  active_events = garbage;
  last_events = 0;
  fd = fd;
  is_listen_fd = is_listen;
  interval = 0;
  repeat = false;
}

unfoldable pub set_event : Channel → ℕ → Channel
set_event c event = record c { events = event }

unfoldable pub update_event : Channel → Channel
update_event c = record c { last_events = c.events }

unfoldable pub set_active_event : Channel → ℕ → Channel
set_active_event c event = record c { active_events = event }

-- A mask as a condition.
unfoldable pub has_flag : ℕ → ℕ → Bool
has_flag events flag = not (bit_and events flag == 0)

unfoldable pub is_writing : Channel → Bool
is_writing c = has_flag c.events channel_write

unfoldable pub is_reading : Channel → Bool
is_reading c = has_flag c.events channel_read

-- The operator `!`.
unfoldable pub logical_not : ℕ → ℕ
logical_not n = if n == 0 then 1 else 0

unfoldable pub handle_event : Channel → Option Handler
unfolding has_flag
handle_event c =
    if c.is_listen_fd
    then some Handler.conn_handler
    else (if has_flag c.active_events channel_read
        then some Handler.read_handler
        else (if has_flag c.active_events channel_write
            then some Handler.write_handler
            else (if has_flag c.active_events channel_timer
                then some Handler.timer_handler
                else none)))

-- Masks are below 16.
set_write_table : tabulated (λ e. has_flag (bit_or e 4) 4 && ltb (bit_or e 4) 16) 16 ≡ true
unfolding tabulated has_flag
set_write_table = refl

pub has_flag-bit_or : (e : ℕ) → e < 16 → has_flag (bit_or e 4) 4 ≡ true
has_flag-bit_or e h = ground (arith, table_entry _ 16 e set_write_table h)

pub bit_or_below : (e : ℕ) → e < 16 → bit_or e 4 < 16
bit_or_below e h = ltb→lt _ _ (ground (arith, table_entry _ 16 e set_write_table h))

clear_table : tabulated (λ e. bit_and e (logical_not 4) == 0) 16 ≡ true
unfolding tabulated logical_not
clear_table = refl

-- `events & !CHANNEL_WRITE` is no mask without one flag, but 0.
pub bit_and-logical_not : (e : ℕ) → e < 16 → bit_and e (logical_not 4) ≡ 0
bit_and-logical_not e h = (==_iff _ _).0 (table_entry _ 16 e clear_table h)
