-- ===== src/TcpConnection/Watch/Epoll.antt =====
-- net/linux/epoller.cpp: what epoll watches for a connection once the poller has gone through
-- its effects.
use xweb.Prelude.{
  ap, sym, subst, ℕ, ◌≡◌, ◌≢◌, refl, List, [], ◌∷◌, Option, none, some, Bool, true, false, arith,
  ltb→lt, ℕ_discrete, ◌∙◌, ◌<◌, not, tabulated, table_entry, if◌then◌else◌,
}
use xweb.Prelude.Map.{find}
use xweb.Channel.{has_flag, channel_timer, channel_write, new_channel, set_event}
use xweb.Epoller.{update, remove, Epoller, interest, epollout}
use xweb.Epoller.Kernel.{watched}
use xweb.Epoller.Registry.{
  Registered, update-Registered, remove-Registered, update-watched, remove-watched,
}
use xweb.TcpConnection.{TcpConnection, Effect, is_disconnected}
use xweb.TcpConnection.Watch.{
  System, IsClear, apply, apply_all, mask_after, last_mask, is_low, all_low, Synced,
}

abbrev pub watched_for : Option ℕ → Option ℕ
watched_for none = none
watched_for (some mask) = some (interest 0 mask)

timer_table : tabulated (λ e. not (has_flag e channel_timer)) 8 ≡ true
unfolding tabulated has_flag
timer_table = refl

pub no_timer : (mask : ℕ) → mask < 8 → has_flag mask channel_timer ≡ false
no_timer mask h = ground (arith, table_entry _ 8 mask timer_table h)

-- The poller watches the descriptor for this mask, and the others as before.
abbrev Watches : Epoller → ℕ → Option ℕ → Epoller → Type 0
Watches p fd m p' =
    Registered p'
    × (find ℕ_discrete (watched p') fd ≡ watched_for m)
    × ((other : ℕ)
        → fd ≢ other
        → find ℕ_discrete (watched p') other ≡ find ℕ_discrete (watched p) other)

module _ (y : System) (k : IsClear y) (p : Epoller) (pointer fd : ℕ) (r : Registered p) where
  apply-update :
      (mask : ℕ)
      → mask < 8
      → Watches p fd (some mask) (apply y p pointer fd (Effect.update_channel mask))
  unfolding apply set_event new_channel
  apply-update mask low =
      let c = set_event (new_channel 0 fd false) mask in
      let (here, led, others) = update-watched p pointer c true (no_timer mask low) in
      let done =
        ap (λ u. (update p pointer c u (y.succeeds p) (y.succeeds p)).0) (k.unset_clear p)
        ∙ ap (λ b. (update p pointer c 0 b b).0) (k.all_succeed p) in
      subst (λ q. Watches p fd (some mask) q) (sym done)
        (update-Registered p pointer c 0 true true r, here, others)

  apply-remove : Watches p fd none (apply y p pointer fd Effect.remove_channel)
  unfolding apply new_channel
  apply-remove =
      let c = new_channel 0 fd false in
      let (here, others) = remove-watched p c r in
      let done = ap (λ b. remove p c b) (k.all_succeed p) in
      subst (λ q. Watches p fd none q) (sym done) (remove-Registered p c true r, here, others)

  apply-Watches :
      (m : Option ℕ) (e : Effect)
      → find ℕ_discrete (watched p) fd ≡ watched_for m
      → is_low e ≡ true
      → Watches p fd (mask_after m e) (apply y p pointer fd e)
  unfolding apply mask_after is_low
  apply-Watches m (Effect.update_channel mask) h low = apply-update mask (ltb→lt mask 8 low)
  apply-Watches m Effect.remove_channel h low = apply-remove
  apply-Watches m (Effect.sent ds) h low = (r, h, λ other ne. refl)
  apply-Watches m Effect.connection_callback h low = (r, h, λ other ne. refl)
  apply-Watches m Effect.message_callback h low = (r, h, λ other ne. refl)
  apply-Watches m Effect.write_complete_callback h low = (r, h, λ other ne. refl)
  apply-Watches m Effect.close_callback h low = (r, h, λ other ne. refl)
  apply-Watches m Effect.shutdown_write h low = (r, h, λ other ne. refl)
  apply-Watches m Effect.get_socket_error h low = (r, h, λ other ne. refl)
  apply-Watches m (Effect.high_water_mark_callback n) h low = (r, h, λ other ne. refl)

apply_all-Watches :
    (y : System) (k : IsClear y) (es : List Effect) (p : Epoller) (pointer fd : ℕ) (m : Option ℕ)
    → Registered p
    → find ℕ_discrete (watched p) fd ≡ watched_for m
    → all_low es ≡ true
    → Watches p fd (last_mask m es) (apply_all y p pointer fd es)
unfolding apply_all last_mask all_low
apply_all-Watches y k [] p pointer fd m r h low = (r, h, λ other ne. refl)
apply_all-Watches y k (e ∷ es) p pointer fd m r h low =
    let (r1, h1, others1) = apply-Watches y k p pointer fd r m e h (ground (arith, low)) in
    let (r2, h2, others2) =
      apply_all-Watches y k es (apply y p pointer fd e) pointer fd (mask_after m e) r1 h1
        (ground (arith, low)) in
    (r2, h2, λ other ne. others2 other ne ∙ others1 other ne)

-- A connection that is open is watched for its mask, one that is closed is not watched.
pub Synced-watched :
    (y : System) (k : IsClear y) (c : TcpConnection) (p : Epoller) (pointer fd : ℕ)
    → Synced c
    → Registered p
    → find ℕ_discrete (watched p) fd ≡ none
    → (find ℕ_discrete (watched (apply_all y p pointer fd c.effects)) fd
        ≡ (if is_disconnected c.state then none else some (interest 0 c.channel.events)))
      × ((other : ℕ)
          → fd ≢ other
          → find ℕ_discrete (watched (apply_all y p pointer fd c.effects)) other
            ≡ find ℕ_discrete (watched p) other)
Synced-watched y k c p pointer fd s r fresh =
    let (r', here, others) = apply_all-Watches y k c.effects p pointer fd none r fresh s.masks in
    (ground (arith, here, s.last), others)

write_table :
    tabulated
      (λ e.
        if has_flag (interest 0 e) epollout
        then has_flag e channel_write
        else not (has_flag e channel_write))
      8
    ≡ true
unfolding tabulated has_flag interest
write_table = refl

-- epoll is asked for EPOLLOUT exactly when the mask has the write flag.
pub epollout-interest :
    (mask : ℕ) → mask < 8 → has_flag (interest 0 mask) epollout ≡ has_flag mask channel_write
epollout-interest mask low =
    by_case (has_flag (interest 0 mask) epollout) (has_flag mask channel_write)
      (table_entry _ 8 mask write_table low)
  where
    by_case : (a b : Bool) → (if a then b else not b) ≡ true → a ≡ b
    by_case a b h = ground arith
