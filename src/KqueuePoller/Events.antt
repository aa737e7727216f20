-- ===== src/KqueuePoller/Events.antt =====
-- net/mac/kqueue_poller.cpp with net/event_loop.cpp: the handlers that follow a poll.
use xweb.Prelude.{
  ℕ, ◌≡◌, refl, List, [], ◌∷◌, Option, none, some, Bool, true, false, ℕ_discrete, arith,
  Option-cases, inl, inr,
}
use xweb.Prelude.Map.{find}
use xweb.Channel.{Channel, Handler, handle_event, set_active_event}
use xweb.KqueuePoller.{
  KqueuePoller, Filter, read_filter, write_filter, timer_filter, user_filter, filter_no,
  active_events, poll,
}
use xweb.Epoller.Events.{dispatch}

-- The handler that a report should reach: that of the filter, or a listening descriptor's own.
unfoldable pub handler_for : Bool → Filter → Option Handler
handler_for true filter = some Handler.conn_handler
handler_for false read_filter = some Handler.read_handler
handler_for false write_filter = some Handler.write_handler
handler_for false timer_filter = some Handler.timer_handler
handler_for false user_filter = none
handler_for false (filter_no n) = none

one_handler :
    (c : Channel) (filter : Filter)
    → handle_event (set_active_event c (active_events filter)) ≡ handler_for c.is_listen_fd filter
unfolding handle_event set_active_event active_events handler_for
one_handler c filter = by_listen c.is_listen_fd filter
  where
    by_listen :
        (l : Bool) (filter : Filter)
        → handle_event (record c { is_listen_fd = l; active_events = active_events filter })
          ≡ handler_for l filter
    by_listen true filter = refl
    by_listen false read_filter = refl
    by_listen false write_filter = refl
    by_listen false timer_filter = refl
    by_listen false user_filter = refl
    by_listen false (filter_no n) = refl

unfoldable pub reached : KqueuePoller → (ℕ → Channel) → List (ℕ × Filter) → List (ℕ × Handler)
reached p object [] = []
reached p object ((fd, filter) ∷ rest) = elim (find ℕ_discrete p.channels fd) [
  | none ↦ reached p object rest
  | some pointer ↦ elim (handler_for (object pointer).is_listen_fd filter) [
    | none ↦ reached p object rest
    | some handler ↦ (pointer, handler) ∷ reached p object rest
  ]
]

-- Whatever `kevent` reports, the handlers that the loop calls for what `poll` returns are, in
-- the order of the reports, those of the reported filters, a timer's too, or a listening
-- descriptor's own.
pub dispatch-reached :
    (p : KqueuePoller) (object : ℕ → Channel) (reports : List (ℕ × Filter))
    → dispatch object (poll p object reports) ≡ reached p object reports
unfolding dispatch poll reached
dispatch-reached p object [] = refl
dispatch-reached p object ((fd, filter) ∷ rest) =
    elim (Option-cases (find ℕ_discrete p.channels fd)) [
      | inl e ↦ ground (arith, e, dispatch-reached p object rest)
      | inr (pointer, e) ↦
          ground (arith, e, dispatch-reached p object rest, one_handler (object pointer) filter)
    ]
