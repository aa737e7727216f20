-- ===== src/KqueuePoller/Filters.antt =====
-- net/mac/kqueue_poller.cpp: the filters of a descriptor that the kernel has.
use xweb.Prelude.{
  ℕ, Option, none, some, ◌==◌, ◌≢◌, ◌≡◌, List, [], ◌∷◌, Bool, true, false, ◌||◌, if◌then◌else◌,
  arith,
}
use xweb.Channel.{Channel, channel_conn, channel_read, channel_write, channel_timer, has_flag}
use xweb.KqueuePoller.{
  Filter, read_filter, write_filter, timer_filter, user_filter, filter_no, Flags, add_enable,
  disable, delete, add, add_oneshot, add_clear, trigger, Change, update_changes, remove_changes,
}

-- The filters of one descriptor that are enabled; the timer with whether it repeats, and its time.
pub record Filters : Type 0 where
  pub read : Bool
  pub write : Bool
  pub timer : Option (Bool × ℕ)

abbrev flagged : Flags → Bool → Bool
flagged add_enable b = true
flagged add b = true
flagged add_oneshot b = true
flagged add_clear b = true
flagged disable b = false
flagged delete b = false
flagged trigger b = b

abbrev timed : Flags → ℕ → Option (Bool × ℕ) → Option (Bool × ℕ)
timed add_enable time t = some (true, time)
timed add time t = some (true, time)
timed add_oneshot time t = some (false, time)
timed add_clear time t = some (true, time)
timed disable time t = none
timed delete time t = none
timed trigger time t = t

-- What `kevent` makes of one change.
abbrev pub apply : Filters → Filter → Flags → ℕ → Filters
apply f read_filter flags time = record f { read = flagged flags f.read }
apply f write_filter flags time = record f { write = flagged flags f.write }
apply f timer_filter flags time = record f { timer = timed flags time f.timer }
apply f user_filter flags time = f
apply f (filter_no n) flags time = f

abbrev is_known : Filter → Bool
is_known (filter_no n) = false
is_known _ = true

-- What it makes of a list for one descriptor: without room for reports, it ends at the first
-- change that fails.
abbrev pub apply_all : ℕ → Filters → List Change → Filters
apply_all fd f [] = f
apply_all fd f (c ∷ cs) =
    let changed = if c.ident == fd then apply f c.filter c.flags c.data_ else f in
    let rest = apply_all fd changed cs in if is_known c.filter then rest else f

-- On filters of its descriptor that are those of the last mask, the changes of `update` leave those
-- of the new mask, unless a channel stops to wait for connections; the timer is set with the
-- channel's interval, for once or repeatedly, where the mask has its flag, and stays as it is
-- elsewhere; and the filters of every other descriptor stay as they are.
pub update-filters :
    (c : Channel) (f : Filters)
    → f.read ≡ (has_flag c.last_events channel_read || has_flag c.last_events channel_conn)
    → f.write ≡ has_flag c.last_events channel_write
    → (has_flag c.last_events channel_conn ≡ true → has_flag c.events channel_conn ≡ true)
    → let f' = apply_all c.fd f (update_changes c) in
      (f'.read ≡ (has_flag c.events channel_read || has_flag c.events channel_conn))
      × (f'.write ≡ has_flag c.events channel_write)
      × (f'.timer
          ≡ (if has_flag c.events channel_timer then some (c.repeat, c.interval) else f.timer))
      × ((fd : ℕ) (g : Filters) → c.fd ≢ fd → apply_all fd g (update_changes c) ≡ g)
unfolding update_changes
update-filters c f reads writes conn = (
  ground (arith, reads, conn),
  ground (arith, writes),
  ground arith,
  λ fd g other. ground (arith, other),
)

-- `remove` leaves the filter for writes as it is.
pub remove-filters :
    (c : Channel) (f : Filters) → (apply_all c.fd f (remove_changes c)).write ≡ f.write
unfolding remove_changes
remove-filters c f = ground arith
