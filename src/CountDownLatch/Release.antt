-- ===== src/CountDownLatch/Release.antt =====
-- base/countdown_latch.cpp: who sleeps in `wait`, and who returns from it.
use xweb.Prelude.{ℕ, zero, suc, ◌≡◌, true, false}
use xweb.Prelude.Int.{ℤ}
use xweb.CountDownLatch.{CountDownLatch, positive, decrement}

-- With a positive count nobody has returned, and without one nobody sleeps.
pub record Inv (l : CountDownLatch) : Type 0 where
  pub shut : positive l.count ≡ true → l.returned ≡ 0
  pub released : positive l.count ≡ false → l.asleep ≡ 0

pub downs : ℤ → ℕ → ℤ
downs z zero = z
downs z (suc k) = downs (decrement z) k
