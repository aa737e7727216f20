-- ===== src/EventLoop.antt =====
-- net/event_loop.h and net/event_loop.cpp: the loop of one thread. Other threads push functors
-- under the mutex and then wake the poller; each locked region and each call on the poller is
-- one step, so a chain of steps is any interleaving of the loop with other threads. The functors
-- are of any type.
pub mod Wakeup
pub mod Timers
pub mod Threads
mod Tests
use xweb.Prelude.{
  ℕ, suc, ◌+◌, ◌≡◌, List, [], ◌∷◌, ◌++◌, Option, none, some, Bool, true, false, if◌then◌else◌, not,
  ◌>>=◌, ◌>>◌, assert, ◌<◌,
}

-- Where the loop thread stands: before `loop`, in `poll`, behind it, in `doPendingFunctors`, or
-- behind `loop`.
pub data Phase : Type 0 where
  created polling dispatching calling stopped : Phase

-- The members of the object, the local `functors`, the functors called so far, the
-- wakeups that the poller holds, and the threads that have still to call `wakeup`.
pub record EventLoop (F : Type 0) : Type 0 where
  pub running : Bool
  pub calling_pending : Bool
  pub pending_functors : List F
  pub phase : Phase
  pub functors : List F
  pub called : List F
  pub wakeups : ℕ
  pub owed : ℕ

-- The test of the `while`.
abbrev pub next_phase : Bool → Phase
next_phase true = Phase.polling
next_phase false = Phase.stopped

module _ {F : Type 0} where
  pub new_loop : EventLoop F
  new_loop = record {
    running = false;
    calling_pending = false;
    pending_functors = [];
    phase = Phase.created;
    functors = [];
    called = [];
    wakeups = 0;
    owed = 0;
  }

  -- The start of `loop`, on the loop's thread.
  pub enter : EventLoop F → Option (EventLoop F)
  enter l = do assert (not l.running); some (record l { running = true; phase = Phase.polling })

  -- `poll` returns, with the wakeups read.
  pub poll_return : EventLoop F → EventLoop F
  poll_return l = record l { phase = Phase.dispatching; wakeups = 0 }

  -- `doPendingFunctors` up to the end of its locked region.
  pub swap_functors : EventLoop F → EventLoop F
  swap_functors l = record l {
    calling_pending = true;
    functors = l.pending_functors;
    pending_functors = [];
    phase = Phase.calling;
  }

  -- One turn of its `for`.
  pub call_next : EventLoop F → F → List F → EventLoop F
  call_next l f rest = record l { functors = rest; called = l.called ++ f ∷ [] }

  -- Its end, and the test of the `while`.
  pub finish : EventLoop F → EventLoop F
  finish l = record l { calling_pending = false; phase = next_phase l.running }

  -- The locked region of `queueInLoop`, on the loop's thread with its `wakeup`, if it makes that
  -- call, or on another thread, which then has to call `wakeup`.
  pub queue_in_loop : EventLoop F → Bool → F → EventLoop F
  queue_in_loop l in_loop f =
      let queued = record l { pending_functors = l.pending_functors ++ f ∷ [] } in
      if in_loop
      then (if l.calling_pending then record queued { wakeups = suc l.wakeups } else queued)
      else record queued { owed = suc l.owed }

  -- `wakeup`, on a thread that has to call it.
  pub wakeup : EventLoop F → ℕ → EventLoop F
  wakeup l others = record l { wakeups = suc l.wakeups; owed = others }

  -- `quit`, on the loop's thread or on another one, which then has to call `wakeup`.
  pub quit : EventLoop F → Bool → EventLoop F
  quit l in_loop = record l { running = false; owed = if in_loop then l.owed else suc l.owed }

  -- `runInLoop` on the loop's thread calls at once.
  pub run_in_loop : EventLoop F → Bool → F → EventLoop F
  unfolding queue_in_loop
  run_in_loop l in_loop f =
      if in_loop then record l { called = l.called ++ f ∷ [] } else queue_in_loop l false f

-- What one thread may do next. `poll` also returns for a channel that is not the wakeup's.
pub data Step {F : Type 0} : EventLoop F → EventLoop F → Type 0 where
  polled : {l : EventLoop F} → l.phase ≡ Phase.polling → Step l (poll_return l)
  swapped : {l : EventLoop F} → l.phase ≡ Phase.dispatching → Step l (swap_functors l)
  called_next :
      {l : EventLoop F} {f : F} {rest : List F}
      → l.phase ≡ Phase.calling
      → l.functors ≡ f ∷ rest
      → Step l (call_next l f rest)
  finished : {l : EventLoop F} → l.phase ≡ Phase.calling → l.functors ≡ [] → Step l (finish l)
  woken : {l : EventLoop F} {others : ℕ} → l.owed ≡ suc others → Step l (wakeup l others)
  quit_elsewhere : {l : EventLoop F} → Step l (quit l false)
  quit_in_handler : {l : EventLoop F} → l.phase ≡ Phase.dispatching → Step l (quit l true)
  quit_in_functor : {l : EventLoop F} → l.phase ≡ Phase.calling → Step l (quit l true)

-- A chain of steps, and the functors that were queued in it, in order: by other threads, by a
-- handler, or by a functor.
pub data Run {F : Type 0} : EventLoop F → List F → EventLoop F → Type 0 where
  ended : {l : EventLoop F} → Run l [] l
  queued_then :
      {l l' : EventLoop F} {f : F} {fs : List F}
      → Run (queue_in_loop l false f) fs l'
      → Run l (f ∷ fs) l'
  queued_in_handler :
      {l l' : EventLoop F} {f : F} {fs : List F}
      → l.phase ≡ Phase.dispatching
      → Run (queue_in_loop l true f) fs l'
      → Run l (f ∷ fs) l'
  queued_in_functor :
      {l l' : EventLoop F} {f : F} {fs : List F}
      → l.phase ≡ Phase.calling
      → Run (queue_in_loop l true f) fs l'
      → Run l (f ∷ fs) l'
  stepped : {l m l' : EventLoop F} {fs : List F} → Step l m → Run m fs l' → Run l fs l'
