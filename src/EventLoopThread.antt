-- ===== src/EventLoopThread.antt =====
-- net/event_loop_thread.h and net/event_loop_thread.cpp: a thread that makes a loop, and the
-- call that waits for it. Each locked region is one step, up to the wait on the condition. A
-- loop is of any type.
pub mod Start
mod Tests
use xweb.Prelude.{◌≡◌, Option, none, some}

-- Where `startLoop` is: before the test of its `while`, asleep on the condition, behind the
-- lock, or at its end.
pub data Starter (L : Type 0) : Type 0 where
  testing asleep leaving : Starter L
  returned : Option L → Starter L

-- Where `run` is: before its lock, in `loop`, or behind it.
pub data Runner (L : Type 0) : Type 0 where
  fresh : Runner L
  looping : L → Runner L
  ended : Runner L

-- The member `loop_`, and the two threads.
pub record EventLoopThread (L : Type 0) : Type 0 where
  pub loop : Option L
  pub starter : Starter L
  pub runner : Runner L

module _ {L : Type 0} where
  -- `startLoop` has made the thread.
  pub new_thread : EventLoopThread L
  new_thread = record { loop = none; starter = testing; runner = fresh }

  tested : Option L → Starter L
  tested none = asleep
  tested (some l) = leaving

  -- The test of the `while`.
  unfoldable pub test : EventLoopThread L → EventLoopThread L
  unfolding tested
  test t = record t { starter = from t.starter }
    where
      from : Starter L → Starter L
      from testing = tested t.loop
      from s = s

  -- A thread that sleeps comes back to the test, by a notification or without one.
  pub woken : Starter L → Starter L
  woken asleep = testing
  woken s = s

  -- The locked region of `run`, with `notify_one`.
  pub make : EventLoopThread L → L → EventLoopThread L
  unfolding woken
  make t l = record { loop = some l; starter = woken t.starter; runner = looping l }

  -- The end of `run`.
  pub finish : EventLoopThread L → EventLoopThread L
  finish t = record t { loop = none; runner = ended }

  -- The end of `startLoop`, which reads `loop_` without the lock.
  pub return_loop : EventLoopThread L → EventLoopThread L
  return_loop t = record t { starter = from t.starter }
    where
      from : Starter L → Starter L
      from leaving = returned t.loop
      from s = s

  -- The states that the two threads reach.
  pub data Reach : EventLoopThread L → Type 0 where
    made : Reach new_thread
    tests : {t : EventLoopThread L} → Reach t → Reach (test t)
    wakes : {t : EventLoopThread L} → Reach t → Reach (record t { starter = woken t.starter })
    makes : {t : EventLoopThread L} (l : L) → Reach t → t.runner ≡ fresh → Reach (make t l)
    finishes : {t : EventLoopThread L} (l : L) → Reach t → t.runner ≡ looping l → Reach (finish t)
    returns : {t : EventLoopThread L} → Reach t → Reach (return_loop t)
