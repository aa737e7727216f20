-- ===== src/Epoller/Events.antt =====
-- net/linux/epoller.cpp and the `for` of `EventLoop::loop`: the handlers that reported events
-- reach.
use xweb.Prelude.{
  ℕ, ◌≡◌, ◌≢◌, refl, ap, List, [], ◌∷◌, Option, none, some, Bool, true, false, if◌then◌else◌, arith,
  Bool-cases, Option-cases, inl, inr, ℕ_discrete, All, ◌==◌,
}
use xweb.Prelude.Map.{find}
use xweb.Channel.{
  Channel, Handler, handle_event, set_active_event, has_flag, channel_timer, channel_read,
  channel_write, logical_not,
}
use Prim.Native.Nat.{bit_or}
use xweb.Epoller.{Epoller, active_events, poll, epollin, epollout}

-- The handlers that `loop` calls for the channels that `poll` returns.
unfoldable pub dispatch : (ℕ → Channel) → List (ℕ × ℕ) → List (ℕ × Handler)
dispatch object [] = []
dispatch object ((pointer, active) ∷ rest) =
    elim (handle_event (set_active_event (object pointer) active)) [
      | none ↦ dispatch object rest
      | some handler ↦ (pointer, handler) ∷ dispatch object rest
    ]

active_events-timer :
    (c : Channel) (reported : ℕ)
    → has_flag c.events channel_timer ≡ true
    → active_events c reported ≡ 0
unfolding active_events logical_not
active_events-timer c reported timer = elim (Bool-cases (has_flag reported epollin)) [
  | inl i ↦ elim (Bool-cases (reported == epollout)) [
    | inl o ↦ rw (timer, i, o) refl
    | inr o ↦ rw (timer, i, o) refl
  ]
  | inr i ↦ elim (Bool-cases (reported == epollout)) [
    | inl o ↦ rw (timer, i, o) refl
    | inr o ↦ rw (timer, i, o) refl
  ]
]

-- The mask of a channel without a timer, by the two tests of what is reported.
abbrev plain_mask : Bool → Bool → ℕ
plain_mask i o =
    let readable : ℕ = if i then channel_read else 0 in
    if o then bit_or readable channel_write else readable

active_events-plain :
    (c : Channel) (reported : ℕ)
    → has_flag c.events channel_timer ≡ false
    → active_events c reported ≡ plain_mask (has_flag reported epollin) (reported == epollout)
unfolding active_events
active_events-plain c reported plain = rw plain refl

-- The handler that one reported mask should reach: a listening descriptor's own, the read handler
-- where there is something to read, the write handler where there is only room to write.
unfoldable pub plain_handler : Bool → Bool → Bool → Option Handler
plain_handler true i o = some Handler.conn_handler
plain_handler false true o = some Handler.read_handler
plain_handler false false true = some Handler.write_handler
plain_handler false false false = none

masked_handler :
    (c : Channel) (i o : Bool)
    → handle_event (set_active_event c (plain_mask i o)) ≡ plain_handler c.is_listen_fd i o
unfolding handle_event set_active_event plain_handler
masked_handler c i o = by_listen c.is_listen_fd i o
  where
    by_listen :
        (l i o : Bool)
        → handle_event (record c { is_listen_fd = l; active_events = plain_mask i o })
          ≡ plain_handler l i o
    by_listen true i o = refl
    by_listen false true true = refl
    by_listen false true false = refl
    by_listen false false true = refl
    by_listen false false false = refl

-- No handler at all for a timer that does not listen.
unfoldable pub handler_of : Channel → ℕ → Option Handler
unfolding plain_handler
handler_of c reported =
    if has_flag c.events channel_timer
    then (if c.is_listen_fd then some Handler.conn_handler else none)
    else plain_handler c.is_listen_fd (has_flag reported epollin) (reported == epollout)

silent :
    (c : Channel)
    → handle_event (set_active_event c 0)
      ≡ (if c.is_listen_fd then some Handler.conn_handler else none)
unfolding handle_event set_active_event
silent c = refl

pub one_handler :
    (c : Channel) (reported : ℕ)
    → handle_event (set_active_event c (active_events c reported)) ≡ handler_of c reported
unfolding handler_of
one_handler c reported = elim (Bool-cases (has_flag c.events channel_timer)) [
  | inl timer ↦ rw (active_events-timer c reported timer, timer) (silent c)
  | inr plain ↦ rw (active_events-plain c reported plain, plain) (masked_handler c _ _)
]

unfoldable pub reached : Epoller → (ℕ → Channel) → List (ℕ × ℕ) → List (ℕ × Handler)
reached p object [] = []
reached p object ((fd, reported) ∷ rest) = elim (find ℕ_discrete p.channels fd) [
  | none ↦ reached p object rest
  | some pointer ↦ elim (handler_of (object pointer) reported) [
    | none ↦ reached p object rest
    | some handler ↦ (pointer, handler) ∷ reached p object rest
  ]
]

pub dispatch-poll :
    (p : Epoller) (object : ℕ → Channel) (reports : List (ℕ × ℕ))
    → dispatch object (poll p object reports) ≡ reached p object reports
unfolding dispatch poll reached
dispatch-poll p object [] = refl
dispatch-poll p object ((fd, reported) ∷ rest) =
    elim (Option-cases (find ℕ_discrete p.channels fd)) [
      | inl e ↦ ground (arith, e, dispatch-poll p object rest)
      | inr (pointer, e) ↦
          ground (arith, e, dispatch-poll p object rest, one_handler (object pointer) reported)
    ]

handler_of-ne-timer :
    (c : Channel) (reported : ℕ) → handler_of c reported ≢ some Handler.timer_handler
unfolding handler_of plain_handler
handler_of-ne-timer c reported = ground arith

reached-no_timer :
    (p : Epoller) (object : ℕ → Channel) (reports : List (ℕ × ℕ))
    → All (λ call. call.1 ≢ Handler.timer_handler) (reached p object reports)
unfolding reached
reached-no_timer p object [] = tt
reached-no_timer p object ((fd, reported) ∷ rest) =
    led (find ℕ_discrete p.channels fd) (reached p object rest) (reached-no_timer p object rest)
  where
    kept :
        (pointer : ℕ) (calls : List (ℕ × Handler)) (h : Option Handler)
        → h ≢ some Handler.timer_handler
        → All (λ call. call.1 ≢ Handler.timer_handler) calls
        → All
            (λ call. call.1 ≢ Handler.timer_handler)
            (elim h [ none ↦ calls | some handler ↦ (pointer, handler) ∷ calls ])
    kept pointer calls none n all = all
    kept pointer calls (some handler) n all = (λ e. n (ap some e), all)

    led :
        (o : Option ℕ) (calls : List (ℕ × Handler))
        → All (λ call. call.1 ≢ Handler.timer_handler) calls
        → All
            (λ call. call.1 ≢ Handler.timer_handler)
            (elim o [
              | none ↦ calls
              | some pointer ↦ elim (handler_of (object pointer) reported) [
                | none ↦ calls
                | some handler ↦ (pointer, handler) ∷ calls
              ]
            ])
    led none calls all = all
    led (some pointer) calls all =
        kept pointer calls (handler_of (object pointer) reported)
          (handler_of-ne-timer (object pointer) reported) all

-- Whatever is registered and reported, the loop never calls a timer's handler.
pub dispatch-no_timer :
    (p : Epoller) (object : ℕ → Channel) (reports : List (ℕ × ℕ))
    → All (λ call. call.1 ≢ Handler.timer_handler) (dispatch object (poll p object reports))
dispatch-no_timer p object reports =
    rw (dispatch-poll p object reports) (reached-no_timer p object reports)
