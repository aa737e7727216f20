-- ===== src/Epoller.antt =====
-- net/linux/epoller.h and net/linux/epoller.cpp: the poller over epoll and timerfd. A channel is
-- a pointer, here a number, with the object behind it beside it; a call of the system is
-- recorded with whether it succeeds, which is an argument, as is what `epoll_wait` reports.
pub mod Kernel
pub mod Registry
pub mod Events
pub mod Descriptors
mod Tests
use xweb.Prelude.{
  ℕ, ◌*◌, ◌/◌, ◌%◌, List, [], ◌∷◌, ◌++◌, Option, none, some, Bool, true, false, ◌&&◌, ◌||◌, ◌==◌,
  if◌then◌else◌, ℕ_discrete,
}
use xweb.Prelude.Map.{find, erase, assign}
use xweb.Channel.{
  Channel, channel_conn, channel_read, channel_write, channel_timer, has_flag, logical_not,
  update_event, new_channel, set_event,
}
use Prim.Native.Nat.{bit_and, bit_or}

abbrev pub epollin : ℕ
epollin = 1

abbrev pub epollout : ℕ
epollout = 4

-- `struct itimerspec`
pub record ItimerSpec : Type 0 where
  pub value_sec : ℕ
  pub value_nsec : ℕ
  pub interval_sec : ℕ
  pub interval_nsec : ℕ

-- The three operations of `epoll_ctl`, with their descriptor and mask, and `timerfd_settime`.
-- The Bool says whether the call succeeded.
pub data Call : Type 0 where
  ctl_add ctl_mod : ℕ → ℕ → Bool → Call
  ctl_del : ℕ → Bool → Call
  set_time : ℕ → ItimerSpec → Bool → Call

-- `channels_`, and the calls so far, oldest first.
pub record Epoller : Type 0 where
  pub channels : List (ℕ × ℕ)
  pub calls : List Call

abbrev pub is_some {ℓ} : {A : Type ℓ} → Option A → Bool
is_some none = false
is_some (some a) = true

-- `event.events`, which starts as the memory has it.
unfoldable pub interest : ℕ → ℕ → ℕ
interest garbage evt =
    let input =
      if has_flag evt channel_read || has_flag evt channel_conn
      then bit_or garbage epollin
      else garbage in
    if has_flag evt channel_write then bit_or input epollout else input

-- The time of a channel, in milliseconds and not negative.
pub timer_spec : Channel → ItimerSpec
timer_spec c = record {
  value_sec = c.interval / 1000;
  value_nsec = 0;
  interval_sec = c.interval / 1000;
  interval_nsec = if c.repeat then c.interval % 1000 * 1000000 else 0;
}

-- The call of `epoll_ctl` in `update`.
pub request : Epoller → ℕ → ℕ → Bool → Call
request p fd mask ok =
    if is_some (find ℕ_discrete p.channels fd)
    then Call.ctl_mod fd mask ok
    else Call.ctl_add fd mask ok

-- The end of `update`.
pub control : Epoller → ℕ → Channel → ℕ → Bool → Epoller × Channel
unfolding request
control p pointer c mask ok =
    let p' = record p { calls = p.calls ++ request p c.fd mask ok ∷ [] } in
    if ok
    then (record p' { channels = assign ℕ_discrete p.channels c.fd pointer }, update_event c)
    else (p', c)

-- The first result is that of `timerfd_settime`, the second that of `epoll_ctl`.
pub update : Epoller → ℕ → Channel → ℕ → Bool → Bool → Epoller × Channel
unfolding control
update p pointer c garbage timer_ok ok =
    if has_flag c.events channel_timer
    then (let p' = record p {
      calls = p.calls ++ Call.set_time c.fd (timer_spec c) timer_ok ∷ [];
    } in
        if timer_ok then control p' pointer c epollin ok else (p', c))
    else control p pointer c (interest garbage c.events) ok

pub remove : Epoller → Channel → Bool → Epoller
remove p c ok =
    if is_some (find ℕ_discrete p.channels c.fd)
    then record p {
      channels = if ok then erase ℕ_discrete p.channels c.fd else p.channels;
      calls = p.calls ++ Call.ctl_del c.fd ok ∷ [];
    }
    else p

-- The constructor, with the descriptor of its wakeup channel at the pointer 0.
unfoldable pub new_epoller : ℕ → ℕ → ℕ → Bool → Epoller
unfolding update
new_epoller efd active garbage ok =
    (update (record { channels = []; calls = [] }) 0
      (set_event (new_channel active efd false) channel_read) garbage true ok).0

-- `evt` for one reported mask.
unfoldable pub active_events : Channel → ℕ → ℕ
unfolding logical_not
active_events c reported =
    let readable : ℕ = if has_flag reported epollin then channel_read else 0 in
    let ready = if reported == epollout then bit_or readable channel_write else readable in
    if has_flag c.events channel_timer
    then bit_and (bit_or ready channel_timer) (logical_not channel_read)
    else ready

-- `poll`, by the descriptors and masks that `epoll_wait` reports, in order: the channels that
-- become active, each with its mask. The objects are those that the pointers lead to.
pub poll : Epoller → (ℕ → Channel) → List (ℕ × ℕ) → List (ℕ × ℕ)
unfolding active_events
poll p object [] = []
poll p object ((fd, reported) ∷ rest) = elim (find ℕ_discrete p.channels fd) [
  | none ↦ poll p object rest
  | some pointer ↦ (pointer, active_events (object pointer) reported) ∷ poll p object rest
]
