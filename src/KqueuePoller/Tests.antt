-- ===== src/KqueuePoller/Tests.antt =====
-- A channel that stops to wait for writes and begins to wait for reads.
use xweb.Prelude.{none, some, ◌≢◌, if◌then◌else◌, ℕ, ◌≡◌, refl, true, false, ◌||◌, arith}
use xweb.Channel.{Channel, channel_read, channel_write, channel_timer, channel_conn, has_flag}
use xweb.KqueuePoller.{update_changes}
use xweb.KqueuePoller.Filters.{Filters, apply_all, update-filters}

abbrev channel : Channel
channel = record {
  events = 2;
  active_events = 0;
  last_events = 4;
  fd = 5;
  is_listen_fd = false;
  interval = 0;
  repeat = false;
}

abbrev writing : Filters
writing = record { read = false; write = true; timer = none }

update-filters_example :
    ((apply_all channel.fd writing (update_changes channel)).read
      ≡ (has_flag channel.events channel_read || has_flag channel.events channel_conn))
    × ((apply_all channel.fd writing (update_changes channel)).write
        ≡ has_flag channel.events channel_write)
    × ((apply_all channel.fd writing (update_changes channel)).timer ≡ (
        if has_flag channel.events channel_timer
        then some (channel.repeat, channel.interval)
        else writing.timer))
    × ((fd : ℕ) (g : Filters) → channel.fd ≢ fd → apply_all fd g (update_changes channel) ≡ g)
unfolding has_flag
update-filters_example = update-filters channel writing refl refl (λ e. ground (arith, e))
