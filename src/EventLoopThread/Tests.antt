-- ===== src/EventLoopThread/Tests.antt =====
-- A thread whose loop is a number.
use xweb.Prelude.{◌≡◌, refl, some, ℕ}
use xweb.EventLoopThread.{
  EventLoopThread, new_thread, test, make, finish, return_loop, returned, looping, Reach, made,
  tests, makes,
}
use xweb.EventLoopThread.Start.{Late, Reach-returns, finish-Late}

-- `startLoop` sleeps, and `run` makes the loop 7.
running : EventLoopThread ℕ
running = make (test new_thread) 7

running-Reach : Reach running
unfolding running test new_thread
running-Reach = makes 7 (tests made) refl

running-loops : running.runner ≡ looping 7
unfolding running make
running-loops = refl

Reach-returns_example : (return_loop (test running)).starter ≡ returned (some 7)
Reach-returns_example = Reach-returns running 7 running-Reach running-loops

finish-Late_example : Late (finish running) 7
finish-Late_example = finish-Late running 7 running-Reach running-loops
