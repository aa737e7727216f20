-- ===== src/EventLoopThread/Start.antt =====
-- net/event_loop_thread.cpp: what `startLoop` returns.
use xweb.Prelude.{◌≡◌, refl, sym, ap, subst, ◌⊎◌, inl, inr, Option, none, some}
use xweb.EventLoopThread.{
  Starter, testing, asleep, leaving, returned, Runner, fresh, looping, ended, EventLoopThread,
  new_thread, test, tested, woken, make, finish, return_loop, Reach, made, tests, wakes, makes,
  finishes, returns,
}

module _ {L : Type 0} where
  -- Before `run` made the loop, `startLoop` has not passed its test.
  Waits : Starter L → Type 0
  Waits testing = Unit
  Waits asleep = Unit
  Waits leaving = ⊥
  Waits (returned o) = ⊥

  -- While the loop runs, `startLoop` does not sleep, and it returns that loop.
  Serves : L → Starter L → Type 0
  Serves l testing = Unit
  Serves l asleep = ⊥
  Serves l leaving = Unit
  Serves l (returned o) = o ≡ some l

  Holds : Runner L → Option L → Starter L → Type 0
  Holds fresh o s = (o ≡ none) × Waits s
  Holds (looping l) o s = (o ≡ some l) × Serves l s
  Holds ended o s = Unit

  abbrev Inv : EventLoopThread L → Type 0
  Inv t = Holds t.runner t.loop t.starter

  test-Inv :
      (o : Option L) (s : Starter L) (r : Runner L)
      → Holds r o s
      → Inv (test (record { loop = o; starter = s; runner = r }))
  unfolding test tested Holds Waits Serves
  test-Inv o testing fresh (e, w) = (e, subst (λ k. Waits (tested k)) (sym e) tt)
  test-Inv o testing (looping l) (e, w) = (e, subst (λ k. Serves l (tested k)) (sym e) tt)
  test-Inv o asleep fresh h = h
  test-Inv o asleep (looping l) h = h
  test-Inv o leaving fresh h = h
  test-Inv o leaving (looping l) h = h
  test-Inv o (returned x) fresh h = h
  test-Inv o (returned x) (looping l) h = h
  test-Inv o s ended h = tt

  woken-Inv : (o : Option L) (s : Starter L) (r : Runner L) → Holds r o s → Holds r o (woken s)
  unfolding woken Holds Waits Serves
  woken-Inv o testing r h = h
  woken-Inv o leaving r h = h
  woken-Inv o (returned x) r h = h
  woken-Inv o asleep fresh h = h
  woken-Inv o asleep (looping l) h = absurd h.1
  woken-Inv o asleep ended h = tt

  make-Inv : (s : Starter L) (l : L) → Waits s → Serves l (woken s)
  unfolding woken Waits Serves
  make-Inv testing l h = tt
  make-Inv asleep l h = tt
  make-Inv leaving l h = absurd h
  make-Inv (returned o) l h = absurd h

  return_loop-Inv :
      (o : Option L) (s : Starter L) (r : Runner L)
      → Holds r o s
      → Inv (return_loop (record { loop = o; starter = s; runner = r }))
  unfolding return_loop Holds Waits Serves
  return_loop-Inv o leaving fresh (e, w) = absurd w
  return_loop-Inv o leaving (looping l) (e, w) = (e, e)
  return_loop-Inv o testing fresh h = h
  return_loop-Inv o testing (looping l) h = h
  return_loop-Inv o asleep fresh h = h
  return_loop-Inv o asleep (looping l) h = h
  return_loop-Inv o (returned x) fresh h = h
  return_loop-Inv o (returned x) (looping l) h = h
  return_loop-Inv o s ended h = tt

  Reach-Inv : {t : EventLoopThread L} → Reach t → Inv t
  unfolding Holds Waits new_thread make finish
  Reach-Inv made = (refl, tt)
  Reach-Inv (tests {t} r) = test-Inv t.loop t.starter t.runner (Reach-Inv r)
  Reach-Inv (wakes {t} r) = woken-Inv t.loop t.starter t.runner (Reach-Inv r)
  Reach-Inv (makes {t} l r e) =
      (refl, make-Inv t.starter l (subst (λ k. Holds k t.loop t.starter) e (Reach-Inv r)).1)
  Reach-Inv (finishes l r e) = tt
  Reach-Inv (returns {t} r) = return_loop-Inv t.loop t.starter t.runner (Reach-Inv r)

  -- Under every interleaving, while the loop that `run` made still runs, `startLoop` does not
  -- sleep: with its next steps it has returned, and what it returned is that loop.
  pub Reach-returns :
      (t : EventLoopThread L) (l : L)
      → Reach t
      → t.runner ≡ looping l
      → (return_loop (test t)).starter ≡ returned (some l)
  unfolding Holds Serves return_loop test tested
  Reach-returns t l r e =
      by_starter t.starter t.loop (subst (λ k. Holds k t.loop t.starter) e (Reach-Inv r))
    where
      by_starter :
          (s : Starter L) (o : Option L)
          → Holds (looping l) o s
          → (return_loop (test (record { loop = o; starter = s; runner = looping l }))).starter
            ≡ returned (some l)
      by_starter testing o (q, h) =
          subst
            (λ k.
              (return_loop
                (test (record { loop = k; starter = testing; runner = looping l }))).starter
              ≡ returned (some l))
            (sym q) refl
      by_starter asleep o (q, h) = absurd h
      by_starter leaving o (q, h) = ap returned q
      by_starter (returned x) o (q, h) = ap returned h

  -- Where `startLoop` is when `run` ends.
  unfoldable pub Late : EventLoopThread L → L → Type 0
  Late t l =
      ((t.starter ≡ testing) × ((test t).starter ≡ asleep))
      ⊎ (((t.starter ≡ leaving) × ((return_loop t).starter ≡ returned none))
          ⊎ (t.starter ≡ returned (some l)))

  -- Under every interleaving, when `run` ends `startLoop` has returned the loop, or it is about
  -- to return a null pointer, or it goes to sleep, after the only notification.
  pub finish-Late :
      (t : EventLoopThread L) (l : L) → Reach t → t.runner ≡ looping l → Late (finish t) l
  unfolding Late Holds Serves return_loop test tested finish
  finish-Late t l r e =
      by_starter t.starter (subst (λ k. Holds k t.loop t.starter) e (Reach-Inv r)).1
    where
      by_starter : (s : Starter L) → Serves l s → Late (finish (record t { starter = s })) l
      by_starter testing h = inl (refl, refl)
      by_starter asleep h = absurd h
      by_starter leaving h = inr (inl (refl, refl))
      by_starter (returned o) h = inr (inr (ap returned h))
