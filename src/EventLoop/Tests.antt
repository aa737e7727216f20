-- ===== src/EventLoop/Tests.antt =====
-- A loop whose functors are numbers.
use xweb.Prelude.{ℕ_discrete, ℕ, ◌≡◌, refl, [], ◌∷◌, ◌++◌, true, false, arith, zero}
use xweb.EventLoop.{
  EventLoop, Phase, Run, queue_in_loop, wakeup, poll_return, ended, queued_then, queued_in_handler,
  stepped, woken, polled,
}
use xweb.EventLoop.Threads.{
  constructs, destructs, acts, constructors, distinct, is_some, acts-threads,
}
use xweb.EventLoop.Wakeup.{Awake, accepted, Run-Awake, Run-accepted, drain-accepted}

abbrev polling_loop : EventLoop ℕ
polling_loop = record {
  running = true;
  calling_pending = false;
  pending_functors = [];
  phase = Phase.polling;
  functors = [];
  called = 1 ∷ [];
  wakeups = 0;
  owed = 0;
}

polling_loop-Awake : Awake polling_loop
polling_loop-Awake = record {
  work = λ h n. absurd (omega arith);
  stop = λ h e. ground (arith, e);
  taken = λ h. refl;
  flag = λ h. ground (arith, h);
}

-- A functor is queued, its thread wakes the poller, `poll` returns, and a handler queues a
-- second one.
two_steps : EventLoop ℕ
two_steps = queue_in_loop (poll_return (wakeup (queue_in_loop polling_loop false 7) zero)) true 8

two_steps-Run : Run polling_loop (7 ∷ 8 ∷ []) two_steps
unfolding two_steps queue_in_loop wakeup poll_return
two_steps-Run =
    queued_then (stepped (woken refl) (stepped (polled refl) (queued_in_handler refl ended)))

Run-Awake_example : Awake two_steps
Run-Awake_example = Run-Awake two_steps-Run polling_loop-Awake

Run-accepted_example : accepted two_steps ≡ accepted polling_loop ++ 7 ∷ 8 ∷ []
Run-accepted_example = Run-accepted two_steps-Run polling_loop-Awake

abbrev dispatching_loop : EventLoop ℕ
dispatching_loop = record {
  running = true;
  calling_pending = false;
  pending_functors = 7 ∷ 8 ∷ [];
  phase = Phase.dispatching;
  functors = [];
  called = 1 ∷ [];
  wakeups = 0;
  owed = 0;
}

drain-accepted_example :
    (m : EventLoop ℕ) × Run dispatching_loop [] m
    × (m.called ≡ accepted dispatching_loop)
    × (m.pending_functors ≡ [])
    × (m.phase ≡ Phase.polling)
    × (m.calling_pending ≡ false)
    × (m.functors ≡ [])
drain-accepted_example =
    drain-accepted dispatching_loop
      (record {
        work = λ h n. absurd (h refl);
        stop = λ h e. ground (arith, e);
        taken = λ h. refl;
        flag = λ h. ground (arith, h);
      })
      refl

-- A second loop after the first is gone.
acts-threads_example :
    is_some (acts [] (constructs 1 10 ∷ destructs 10 ∷ constructs 1 11 ∷ [])) ≡ false
unfolding constructors distinct ℕ_discrete
acts-threads_example = acts-threads (constructs 1 10 ∷ destructs 10 ∷ constructs 1 11 ∷ [])
