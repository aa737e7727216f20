-- ===== src/HttpServer.antt =====
-- net/http_server.h and net/http_server.cpp: the accepting side of the HTTP server. A loop is of
-- any type; what the system calls return is an argument, and `none` is a failed assert or a call
-- through a null pointer.
pub mod Turns
pub mod Deal
mod Tests
use xweb.Prelude.{
  ℕ, zero, suc, List, [], ◌∷◌, ◌++◌, Option, some, none, Bool, true, false, if◌then◌else◌, ◌>>=◌,
}
use xweb.Prelude.Int.{ℤ, pos, negsuc}
use xweb.Socket.{is_negative}
use xweb.Acceptor.{int_bits}
use xweb.Channel.{Channel, new_channel, set_event, channel_conn}
use xweb.ThreadPool
use xweb.ThreadPool.{ThreadPool, new_pool, get_next_loop}
use xweb.HttpData.{HttpData, new_http_data, new_request}

-- `open_listenfd`, by what `socket`, `setsockopt`, `bind` and `listen` return.
pub open_listenfd : ℤ → ℤ → ℤ → ℤ → ℤ
open_listenfd (negsuc n) optioned bound listening = negsuc 0
open_listenfd (pos fd) optioned bound listening =
    if is_negative optioned
    then negsuc 0
    else if is_negative bound
    then negsuc 0
    else if is_negative listening
    then negsuc 0
    else pos fd

-- The channels that the loop got, and the connections with their loops, oldest first; nothing
-- deletes them.
pub record HttpServer (L : Type 0) : Type 0 where
  pub thread_pool : ThreadPool L
  pub accept_channel : Option Channel
  pub updates : List Channel
  pub connections : List (L × HttpData)

-- The channel of the constructor, which tests the descriptor for being above 0.
pub channel_for : ℕ → ℤ → Option Channel
channel_for active (pos zero) = none
channel_for active (pos (suc fd)) = some (new_channel active (suc fd) false)
channel_for active (negsuc n) = none

module _ {L : Type 0} where
  pub new_server : L → ℕ → ℕ → ℤ → HttpServer L
  unfolding channel_for
  new_server loop thread_num active listen_fd = record {
    thread_pool = new_pool loop thread_num;
    accept_channel = channel_for active listen_fd;
    updates = [];
    connections = [];
  }

  -- `start`, which does not test the channel.
  pub start : HttpServer L → Bool → (ℕ → L) → Option (HttpServer L)
  start s in_loop start_loop = do
    pool ← ThreadPool.start s.thread_pool in_loop start_loop
    channel ← s.accept_channel
    let listening = set_event channel channel_conn
    some (record s {
      thread_pool = pool;
      accept_channel = some listening;
      updates = s.updates ++ listening ∷ [];
    })

  -- `handNewConn`, which does not test what `accept` returned.
  pub hand_new_conn : HttpServer L → Bool → ℕ → ℤ → Option (HttpServer L)
  hand_new_conn s in_loop active connfd = do
    (loop, pool) ← get_next_loop s.thread_pool in_loop
    let data_ = new_request (new_http_data active (int_bits connfd))
    some (record s { thread_pool = pool; connections = s.connections ++ (loop, data_) ∷ [] })
