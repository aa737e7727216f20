-- ===== src/TcpConnection/Watch/Deaf.antt =====
-- net/tcp_connection.cpp and net/linux/epoller.cpp: a connection whose output was drained.
use xweb.Prelude.{
  Yields, ℕ, ◌<◌, ◌≡◌, refl, [], ◌∷◌, none, some, true, false, not, ◌&&◌, ◌==◌, arith, length,
  ℕ_discrete, tabulated, table_entry, Option-cases, inl, inr, ◌∙◌,
}
use xweb.Prelude.Map.{find}
use Prim.Native.Nat.{bit_and, bit_or}
use xweb.Buffer.{content}
use xweb.Channel.{Channel, is_writing, has_flag, set_event}
use xweb.Epoller.{Epoller, poll, interest, epollin, epollout}
use xweb.Epoller.Kernel.{watched}
use xweb.Epoller.Registry.{Registered}
use xweb.Epoller.Events.{dispatch, reached, handler_of, dispatch-poll}
use xweb.TcpConnection.{TcpConnection, handle_write, wrote, is_disconnected}
use xweb.TcpConnection.Stream.{Inv}
use xweb.TcpConnection.State.{handle_write-state}
use xweb.TcpConnection.Write.{handle_write_drains}
use xweb.TcpConnection.Watch.{System, IsClear, Synced, apply_all}
use xweb.TcpConnection.Watch.Steps.{handle_write-Synced}
use xweb.TcpConnection.Watch.Epoll.{Synced-watched}

-- EPOLLERR and EPOLLHUP, which epoll always reports.
abbrev always : ℕ
always = 24

-- What `epoll_wait` reports of what happened to a descriptor, by the mask that it watches it for.
unfoldable pub report : ℕ → ℕ → ℕ
report mask happened = bit_and happened (bit_or mask always)

quiet_table :
    tabulated (λ s. not (has_flag (report 0 s) epollin) && not (report 0 s == epollout)) 32 ≡ true
unfolding tabulated has_flag report
quiet_table = refl

unheard :
    (c : Channel) (happened : ℕ)
    → c.is_listen_fd ≡ false
    → happened < 32
    → handler_of (set_event c 0) (report 0 happened) ≡ none
unfolding handler_of set_event has_flag
unheard c happened connects h = ground (arith, connects, table_entry _ 32 happened quiet_table h)

unreached :
    (p : Epoller) (c : Channel) (fd reported : ℕ)
    → handler_of c reported ≡ none
    → reached p (λ _. c) ((fd, reported) ∷ []) ≡ []
unfolding reached
unreached p c fd reported h = elim (Option-cases (find ℕ_discrete p.channels fd)) [
  | inl e ↦ rw (e, reached) refl
  | inr (pointer, e) ↦ ground (arith, e, h)
]

-- Where the memory that `update` does not set is clear and every `epoll_ctl` succeeds: when
-- `handleWrite` has sent all that waited, on an open connection of which the poller knows, epoll
-- watches the descriptor for nothing, and whatever happens to it, no report of
-- `epoll_wait` makes the loop call a handler of the connection: what the peer sends is not read.
pub handle_write-deaf :
    (y : System)
    → IsClear y
    → (c : TcpConnection) (p : Epoller) (pointer happened : ℕ) → Inv c
    → Synced c
    → is_disconnected c.state ≡ false
    → is_writing c.channel ≡ true
    → Registered p
    → find ℕ_discrete (watched p) c.channel.fd ≡ none
    → happened < 32
    → Yields (handle_write c true (wrote (length (content c.output_buffer)))) (λ c'.
      let p' = apply_all y p pointer c.channel.fd c'.effects in
      (find ℕ_discrete (watched p') c.channel.fd ≡ some 0)
      × (dispatch
            (λ _. c'.channel)
            (poll p' (λ _. c'.channel) ((c.channel.fd, report 0 happened) ∷ []))
          ≡ []))
unfolding set_event interest has_flag
handle_write-deaf y k c p pointer happened i s open_yet busy r fresh h =
    let (c', made, (nothing, valid, channel, effects)) = handle_write_drains c i busy in
    let s' =
      handle_write-Synced c c' (wrote (length (content c.output_buffer))) i s open_yet made in
    let (here, others) = Synced-watched y k c' p pointer c.channel.fd s' r fresh in
    let state = handle_write-state c c' true (wrote (length (content c.output_buffer))) made in
    let p' = apply_all y p pointer c.channel.fd c'.effects in
    (
      c',
      made,
      (
        here ∙ rw (state, open_yet, channel) refl,
        dispatch-poll p' (λ _. c'.channel) ((c.channel.fd, report 0 happened) ∷ [])
            ∙ unreached p' c'.channel c.channel.fd (report 0 happened)
                (rw channel (unheard c.channel happened s.connects h)),
      ),
    )
