-- ===== src/Epoller/Descriptors.antt =====
-- net/linux/epoller.cpp: the eventfd behind `wakeup`, the descriptors of timers, and the
-- destructor.
use xweb.Prelude.{ℕ, List, [], ◌∷◌, Option, none, some, Bool, true, not, ◌==◌}
use xweb.Prelude.Int.{ℤ, pos, negsuc}
use xweb.Channel.{Channel}
use xweb.Epoller.{Epoller, remove}

-- The two calls of an eventfd, each with the bytes that it returns or -1.
pub record EventFd (S : Type 0) : Type 0 where
  pub write_one : S → ℤ × S
  pub read_count : S → ℤ × S

-- `n != sizeof one`
pub is_short : ℤ → Bool
is_short (pos n) = not (n == 8)
is_short (negsuc n) = true

-- `getTimerFd`, by what `timerfd_create` returns; `none` is the LOG_FATAL.
pub get_timer_fd : ℤ → Option ℕ
get_timer_fd (pos fd) = some fd
get_timer_fd (negsuc n) = none

-- The destructor: the poller with the wakeup channel removed, and the descriptors that are closed.
pub destroy : Epoller → ℕ → Channel → Bool → Epoller × List ℕ
unfolding remove
destroy p epollfd wakeup_channel ok = (remove p wakeup_channel ok, wakeup_channel.fd ∷ epollfd ∷ [])

module _ {S : Type 0} (e : EventFd S) where
  -- `wakeup`: the eventfd, and whether an error is logged.
  pub wakeup : S → S × Bool
  unfolding is_short
  wakeup s = let (n, s') = e.write_one s in (s', is_short n)

  -- `wakeupRead`, the read handler of the wakeup channel.
  pub wakeup_read : S → S × Bool
  unfolding is_short
  wakeup_read s = let (n, s') = e.read_count s in (s', is_short n)
