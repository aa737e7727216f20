-- ===== src/TcpConnection/Watch.antt =====
-- net/tcp_connection.cpp and net/event_loop.cpp: what a connection makes its loop's poller
-- watch. On the loop's thread `updateChannel` and `removeChannel` call the poller at once, so
-- the poller has gone through the connection's effects in their order.
pub mod Steps
pub mod Epoll
pub mod Deaf
mod Tests
use xweb.Prelude.{
  ℕ, ◌<◌, ◌≡◌, refl, List, [], ◌∷◌, ◌++◌, Option, none, some, Bool, true, false, ◌&&◌,
  if◌then◌else◌, arith, ltb, ltb→lt, tabulated, table_entry,
}
use xweb.Channel.{new_channel, set_event}
use xweb.Epoller
use xweb.Epoller.{Epoller}
use xweb.TcpConnection.{TcpConnection, Effect, is_disconnected}
use Prim.Native.Nat.{bit_or}

-- What the memory of an `epoll_event` holds that nothing has set, and whether `epoll_ctl`
-- succeeds, for each call, told by the poller before it.
pub record System : Type 0 where
  pub unset : Epoller → ℕ
  pub succeeds : Epoller → Bool

-- The memory is clear, and every call succeeds.
pub record IsClear (y : System) : Type 0 where
  pub unset_clear : (p : Epoller) → y.unset p ≡ 0
  pub all_succeed : (p : Epoller) → y.succeeds p ≡ true

-- `poller_->update` and `poller_->remove` for the effects of a connection, whose channel is no
-- timer.
pub apply : System → Epoller → ℕ → ℕ → Effect → Epoller
apply y p pointer fd (Effect.update_channel mask) =
    (Epoller.update p pointer (set_event (new_channel 0 fd false) mask) (y.unset p) (y.succeeds p)
      (y.succeeds p)).0
apply y p pointer fd Effect.remove_channel =
    Epoller.remove p (new_channel 0 fd false) (y.succeeds p)
apply y p pointer fd (Effect.sent ds) = p
apply y p pointer fd Effect.connection_callback = p
apply y p pointer fd Effect.message_callback = p
apply y p pointer fd Effect.write_complete_callback = p
apply y p pointer fd Effect.close_callback = p
apply y p pointer fd Effect.shutdown_write = p
apply y p pointer fd Effect.get_socket_error = p
apply y p pointer fd (Effect.high_water_mark_callback n) = p

pub apply_all : System → Epoller → ℕ → ℕ → List Effect → Epoller
apply_all y p pointer fd [] = p
apply_all y p pointer fd (e ∷ es) = apply_all y (apply y p pointer fd e) pointer fd es

-- The mask that the effects leave for the poller.
unfoldable pub mask_after : Option ℕ → Effect → Option ℕ
mask_after m e = elim e [ Effect.update_channel n ↦ some n | Effect.remove_channel ↦ none | _ ↦ m ]

unfoldable pub last_mask : Option ℕ → List Effect → Option ℕ
unfolding mask_after
last_mask m [] = m
last_mask m (e ∷ es) = last_mask (mask_after m e) es

-- No mask has the flag of a timer.
unfoldable pub is_low : Effect → Bool
is_low e = elim e [ Effect.update_channel n ↦ ltb n 8 | _ ↦ true ]

unfoldable pub all_low : List Effect → Bool
unfolding is_low
all_low [] = true
all_low (e ∷ es) = is_low e && all_low es

pub last_mask-emit :
    (m : Option ℕ) (es : List Effect) (e : Effect)
    → last_mask m (es ++ e ∷ []) ≡ mask_after (last_mask m es) e
unfolding last_mask
last_mask-emit m [] e = refl
last_mask-emit m (d ∷ es) e = last_mask-emit (mask_after m d) es e

pub all_low-emit :
    (es : List Effect) (e : Effect) → all_low (es ++ e ∷ []) ≡ (all_low es && is_low e)
unfolding all_low
all_low-emit [] e = ground arith
all_low-emit (d ∷ es) e = ground (arith, all_low-emit es e)

-- The poller was told the mask of the channel, until the connection was closed.
pub record Synced (c : TcpConnection) : Type 0 where
  pub last :
      last_mask none c.effects ≡ (if is_disconnected c.state then none else some c.channel.events)
  pub masks : all_low c.effects ≡ true
  pub low : c.channel.events < 8
  pub connects : c.channel.is_listen_fd ≡ false

low_table : tabulated (λ e. ltb (bit_or e 4) 8) 8 ≡ true
unfolding tabulated
low_table = refl

pub bit_or-low : (e : ℕ) → e < 8 → bit_or e 4 < 8
bit_or-low e h = ltb→lt _ _ (table_entry _ 8 e low_table h)
