-- ===== src/CountDownLatch/Tests.antt =====
-- A latch of one: a thread waits, and another one counts down.
use xweb.Prelude.Int.{pos}
use xweb.CountDownLatch.{CountDownLatch, new_latch, wait, count_down}

opened : CountDownLatch
opened = count_down (wait (new_latch (pos 1)))
