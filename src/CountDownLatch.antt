-- ===== src/CountDownLatch.antt =====
-- base/countdown_latch.h and base/countdown_latch.cpp: threads that wait for a count. Each locked
-- region is one step, up to the wait on the condition where it sleeps.
pub mod Release
mod Tests
use xweb.Prelude.{ℕ, zero, suc, ◌+◌, ◌≡◌, Bool, true, false, if◌then◌else◌}
use xweb.Prelude.Int.{ℤ, pos, negsuc}

-- The member `count_`, and how many threads sleep in `wait`, how many have left `cond_.wait` but
-- are not yet back at the test, and how many have returned from `wait`.
pub record CountDownLatch : Type 0 where
  pub count : ℤ
  pub asleep : ℕ
  pub notified : ℕ
  pub returned : ℕ

unfoldable pub new_latch : ℤ → CountDownLatch
new_latch count = record { count = count; asleep = 0; notified = 0; returned = 0 }

-- `count_ > 0`
unfoldable pub positive : ℤ → Bool
positive (pos zero) = false
positive (pos (suc n)) = true
positive (negsuc n) = false

unfoldable pub is_zero : ℤ → Bool
is_zero (pos zero) = true
is_zero (pos (suc n)) = false
is_zero (negsuc n) = false

-- `--count_`, above the least int.
unfoldable pub decrement : ℤ → ℤ
decrement (pos zero) = negsuc zero
decrement (pos (suc n)) = pos n
decrement (negsuc n) = negsuc (suc n)

-- The test of the `while` in `wait`, and what follows it.
pub wait : CountDownLatch → CountDownLatch
unfolding positive
wait l =
    if positive l.count
    then record l { asleep = suc l.asleep }
    else record l { returned = suc l.returned }

-- `cond_.wait` of a sleeping thread may also end without a notification.
pub rouse : CountDownLatch → ℕ → CountDownLatch
rouse l others = record l { asleep = others; notified = suc l.notified }

-- A thread whose `cond_.wait` ended comes back to that test.
pub wake : CountDownLatch → ℕ → CountDownLatch
unfolding wait
wake l others = wait (record l { notified = others })

unfoldable pub count_down : CountDownLatch → CountDownLatch
unfolding is_zero decrement
count_down l =
    if is_zero (decrement l.count)
    then record l { count = decrement l.count; asleep = 0; notified = l.notified + l.asleep }
    else record l { count = decrement l.count }

-- A chain of steps, with the calls of `countDown` in it.
pub data Run : CountDownLatch → ℕ → CountDownLatch → Type 0 where
  ended : {l : CountDownLatch} → Run l zero l
  waits : {l l' : CountDownLatch} {k : ℕ} → Run (wait l) k l' → Run l k l'
  wakes :
      {l l' : CountDownLatch} {k others : ℕ}
      → l.notified ≡ suc others
      → Run (wake l others) k l'
      → Run l k l'
  rouses :
      {l l' : CountDownLatch} {k others : ℕ}
      → l.asleep ≡ suc others
      → Run (rouse l others) k l'
      → Run l k l'
  counts_down : {l l' : CountDownLatch} {k : ℕ} → Run (count_down l) k l' → Run l (suc k) l'
