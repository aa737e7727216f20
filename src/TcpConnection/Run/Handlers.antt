-- ===== src/TcpConnection/Run/Handlers.antt =====
-- net/tcp_connection.cpp: the handlers of a connection by what its poller reports.
use xweb.Prelude.{
  Yields, [], ℕ, ◌≡◌, refl, List, Bool, true, false, ◌||◌, arith, length, Option, ◌==◌, subst, ◌∙◌,
}
use xweb.Buffer.{content}
use xweb.Buffer.Append.{fresh-IsValid}
use xweb.Buffer.Transfer.{ReadResult, got, failed}
use xweb.Channel.{
  Handler, has_flag, handle_event, set_active_event, set_event, new_channel, is_writing,
}
use xweb.Epoller.{active_events, epollin, epollout}
use xweb.Epoller.Events.{handler_of, plain_handler, one_handler}
use xweb.TcpConnection.{
  TcpConnection, WriteResult, run_handler, handle_channel, is_connected, is_disconnected,
  is_disconnecting, new_connection, connect_established, send, shutdown,
}
use xweb.TcpConnection.Stream.{Inv}
use xweb.TcpConnection.State.{handle_channel_lem}
use xweb.TcpConnection.Send.{Plausible}
use xweb.TcpConnection.Read.{Readable, Handled, handle_read_refines}
use xweb.TcpConnection.Watch.{Synced, last_mask, all_low}
use xweb.TcpConnection.Watch.Steps.{handle_read-Synced, handle_write-Synced}
use xweb.TcpConnection.Watch.Epoll.{no_timer}
use xweb.TcpConnection.Lifecycle.{established-Inv}
use xweb.TcpConnection.Run.{Good, Adds, Op, step, Ready, Fits, FitsOldest, run_oldest}
use xweb.TcpConnection.Run.Watched.{Reported, step-Synced}
use xweb.TcpConnection.Run.Keeps.{step-Adds, handle_read-Adds, handle_write-Adds}

-- The invariants of the buffers and of the poller.
pub record Sound (c : TcpConnection) : Type 0 where
  pub good : Good c
  pub synced : Synced c

abbrev activated : TcpConnection → ℕ → TcpConnection
activated c active = record c { channel = set_active_event c.channel active }

activated-Sound : (c : TcpConnection) (active : ℕ) → Sound c → Sound (activated c active)
unfolding Good set_active_event is_writing
activated-Sound c active s =
    let g = s.good.0 in
    let k = s.synced in
    record {
      good = (record { valid = g.valid; mask = g.mask; idle = g.idle; busy = g.busy }, s.good.1);
      synced = record { last = k.last; masks = k.masks; low = k.low; connects = k.connects };
    }

-- The handler that a report calls on a channel without a timer that does not listen.
plain :
    (c : TcpConnection) (reported : ℕ)
    → Sound c
    → handle_event (set_active_event c.channel (active_events c.channel reported))
      ≡ plain_handler false (has_flag reported epollin) (reported == epollout)
unfolding handler_of
plain c reported s =
    one_handler c.channel reported
    ∙ ground (arith, no_timer c.channel.events s.synced.low, s.synced.connects)

module _ (c : TcpConnection) (s : Sound c)
    (alive : (is_connected c.state || is_disconnecting c.state) ≡ true) where
  open_still : is_disconnected c.state ≡ false
  open_still = ground (arith, alive)

  ran :
      (o : Option Handler) (read : ReadResult) (write : WriteResult) (i out : Bool)
      → o ≡ plain_handler false i out
      → Readable c read
      → Plausible write (length (content c.output_buffer))
      → Yields (run_handler c o read write) Sound
  unfolding run_handler plain_handler Adds
  ran o read write true out e r w =
      let (c', made, (good, _)) = handle_read-Adds c s.good read alive r in
      (c', rw e made, record { good = good; synced = handle_read-Synced c s.synced c' read made })
  ran o read write false true e r w =
      let (c', made, (good, _)) = handle_write-Adds c s.good write w in
      (
        c',
        rw e made,
        record {
          good = good;
          synced = handle_write-Synced c c' write s.good.0 s.synced open_still made;
        },
      )
  ran o read write false false e r w = (c, rw e refl, s)

-- `handleEvent` on the channel of a live connection never stops, whatever its poller reports.
pub handle_channel-Sound :
    (c : TcpConnection) (reported : ℕ) (read : ReadResult) (write : WriteResult)
    → Sound c
    → (is_connected c.state || is_disconnecting c.state) ≡ true
    → Readable c read
    → Plausible write (length (content c.output_buffer))
    → Yields (handle_channel c (active_events c.channel reported) read write) Sound
unfolding Readable
handle_channel-Sound c reported (got ds) write s alive r w =
    let active = active_events c.channel reported in
    rw (handle_channel_lem c active _ (got ds) write (plain c reported s)) (
      ran (activated c active) (activated-Sound c active s) alive _ (got ds) write
        (has_flag reported epollin) (reported == epollout) refl r w)
handle_channel-Sound c reported (failed errno) write s alive r w =
    let active = active_events c.channel reported in
    rw (handle_channel_lem c active _ (failed errno) write (plain c reported s)) (
      ran (activated c active) (activated-Sound c active s) alive _ (failed errno) write
        (has_flag reported epollin) (reported == epollout) refl tt w)

-- A report of a readable socket at the end of the stream closes the connection.
pub handle_channel-end :
    (c : TcpConnection) (reported : ℕ) (write : WriteResult)
    → Sound c
    → (is_connected c.state || is_disconnecting c.state) ≡ true
    → has_flag reported epollin ≡ true
    → Yields
        (handle_channel c (active_events c.channel reported) (got []) write)
        (λ c'. is_disconnected c'.state ≡ true)
unfolding Handled run_handler plain_handler Good Readable
handle_channel-end c reported write s alive readable =
    let active = active_events c.channel reported in
    let ready = activated c active in
    let valid = s.good.1 in
    let (c', made, (over, effects)) =
      handle_read_refines ready valid alive (got [])
        (omega arith, omega (arith, valid.inside, valid.small)) in
    (
      c',
      rw (handle_channel_lem c active _ (got []) write (plain c reported s), readable) made,
      over,
    )

module _ (c : TcpConnection) (s : Sound c) where
  op-Sound : (op : Op) → Ready c op → Reported c op → Yields (step c op) Sound
  unfolding Adds
  op-Sound op r reported =
      let (c', made, (good, _)) = step-Adds c s.good op r in
      (
        c',
        made,
        record { good = good; synced = step-Synced c c' s.synced op s.good.0 reported made },
      )

  pub send-Sound :
      (in_loop : Bool) (ds : List ℕ) (result : WriteResult)
      → Fits c ds result
      → Yields (send c in_loop ds result) Sound
  unfolding step Ready Reported
  send-Sound in_loop ds result h = op-Sound (Op.sends in_loop ds result) h tt

  pub shutdown-Sound : (in_loop : Bool) → Yields (shutdown c in_loop) Sound
  unfolding step Ready Reported
  shutdown-Sound in_loop = op-Sound (Op.shuts in_loop) tt tt

  pub run_oldest-Sound :
      (result : WriteResult)
      → FitsOldest c c.pending result
      → Yields (run_oldest c c.pending result) Sound
  unfolding step Ready Reported
  run_oldest-Sound result h = op-Sound (Op.runs result) h tt

-- A connection that `connectEstablished` made.
pub established-Sound :
    (garbage fd : ℕ) (complete high : Bool)
    → Yields
        (connect_established (new_connection garbage fd complete high))
        (λ c. Sound c × (is_connected c.state ≡ true))
unfolding connect_established new_connection new_channel set_event last_mask all_low Good
established-Sound garbage fd complete high =
    let (c, made, (inv, reading, connected, once)) = established-Inv garbage fd complete high in
    (
      _,
      refl,
      (
        record {
          good = (subst Inv (cc made) inv, fresh-IsValid.0);
          synced = record { last = refl; masks = refl; low = omega arith; connects = refl };
        },
        refl,
      ),
    )
