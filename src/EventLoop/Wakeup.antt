-- ===== src/EventLoop/Wakeup.antt =====
-- net/event_loop.cpp: no functor that another thread queues is lost, reordered, or left asleep.
use xweb.Prelude.{
  ◌+◌, ◌≡◌, ◌≢◌, refl, ◌<◌, List, [], ◌∷◌, ◌++◌, Bool, true, false, length, arith, sym, ap, ◌∙◌,
  append_assoc, append-nil, Yields, Bool-cases, inl, inr,
}
use xweb.EventLoop.{
  EventLoop, Phase, Step, Run, polled, swapped, called_next, finished, woken, quit_elsewhere,
  quit_in_handler, quit_in_functor, ended, queued_then, queued_in_handler, queued_in_functor,
  stepped, poll_return, swap_functors, call_next, finish, queue_in_loop, wakeup, quit, new_loop,
  enter, next_phase,
}

-- In `poll`, work that waits and a `quit` have a wakeup on the way; only `doPendingFunctors` holds
-- functors in its local vector.
pub record Awake {F : Type 0} (l : EventLoop F) : Type 0 where
  pub work : l.phase ≢ Phase.dispatching → 0 < length l.pending_functors → 0 < l.wakeups + l.owed
  pub stop : l.phase ≡ Phase.polling → l.running ≡ false → 0 < l.wakeups + l.owed
  pub taken : l.phase ≢ Phase.calling → l.functors ≡ []
  pub flag : l.phase ≡ Phase.calling → l.calling_pending ≡ true

module _ {F : Type 0} where
  -- Called, taken and queued functors, oldest first.
  unfoldable pub accepted : EventLoop F → List F
  accepted l = l.called ++ l.functors ++ l.pending_functors

  Step-Awake : {l m : EventLoop F} → Step l m → Awake l → Awake m
  unfolding poll_return swap_functors call_next finish wakeup quit
  Step-Awake {l} (polled at) a = record {
    work = λ h. absurd (h refl);
    stop = λ h. ground (arith, h);
    taken = λ h. a.taken (ground (arith, at));
    flag = λ h. ground (arith, h);
  }
  Step-Awake {l} (swapped at) a = record {
    work = λ h n. absurd (omega arith);
    stop = λ h. ground (arith, h);
    taken = λ h. absurd (h refl);
    flag = λ h. refl;
  }
  Step-Awake {l} (called_next at next) a = record {
    work = a.work;
    stop = a.stop;
    taken = λ h. absurd (h at);
    flag = a.flag;
  }
  Step-Awake {l} (finished at none_left) a = record {
    work = λ h n. a.work (ground (arith, at)) n;
    stop = λ h e. ground (arith, e, h);
    taken = λ h. none_left;
    flag = λ h. elim (Bool-cases l.running) [
      | inl e ↦ ground (arith, e, h)
      | inr e ↦ ground (arith, e, h)
    ];
  }
  Step-Awake {l} (woken owes) a = record {
    work = λ h n. omega arith;
    stop = λ h e. omega arith;
    taken = a.taken;
    flag = a.flag;
  }
  Step-Awake {l} quit_elsewhere a = record {
    work = λ h n. omega arith;
    stop = λ h e. omega arith;
    taken = a.taken;
    flag = a.flag;
  }
  Step-Awake {l} (quit_in_handler at) a = record {
    work = a.work;
    stop = λ h e. ground (arith, at, h);
    taken = a.taken;
    flag = a.flag;
  }
  Step-Awake {l} (quit_in_functor at) a = record {
    work = a.work;
    stop = λ h e. ground (arith, at, h);
    taken = a.taken;
    flag = a.flag;
  }

  queue-Awake : (l : EventLoop F) (f : F) → Awake l → Awake (queue_in_loop l false f)
  unfolding queue_in_loop
  queue-Awake l f a = record {
    work = λ h n. omega arith;
    stop = λ h e. omega arith;
    taken = a.taken;
    flag = a.flag;
  }

  queue_in_handler-Awake :
      (l : EventLoop F) (f : F)
      → l.phase ≡ Phase.dispatching
      → Awake l
      → Awake (queue_in_loop l true f)
  unfolding queue_in_loop
  queue_in_handler-Awake l f at a = elim (Bool-cases l.calling_pending) [
    | inl e ↦ rw e (record {
      work = λ h n. omega arith;
      stop = λ h g. omega arith;
      taken = a.taken;
      flag = λ h. refl;
    })
    | inr e ↦ rw e (record {
      work = λ h n. absurd (h at);
      stop = a.stop;
      taken = a.taken;
      flag = λ h. ground (arith, at, h);
    })
  ]

  queue_in_functor-Awake :
      (l : EventLoop F) (f : F) → l.phase ≡ Phase.calling → Awake l → Awake (queue_in_loop l true f)
  unfolding queue_in_loop
  queue_in_functor-Awake l f at a = rw (a.flag at) (record {
    work = λ h n. omega arith;
    stop = λ h e. omega arith;
    taken = a.taken;
    flag = λ h. refl;
  })

  -- Every interleaving of the loop with threads that queue, wake and quit keeps this: while the
  -- loop is in `poll` with functors queued, or with `quit` called, a wakeup is in the poller or
  -- some thread is about to call `wakeup`.
  pub Run-Awake : {l l' : EventLoop F} {fs : List F} → Run l fs l' → Awake l → Awake l'
  Run-Awake ended a = a
  Run-Awake {l} (queued_then {f = f} r) a = Run-Awake r (queue-Awake l f a)
  Run-Awake {l} (queued_in_handler {f = f} at r) a = Run-Awake r (queue_in_handler-Awake l f at a)
  Run-Awake {l} (queued_in_functor {f = f} at r) a = Run-Awake r (queue_in_functor-Awake l f at a)
  Run-Awake (stepped s r) a = Run-Awake r (Step-Awake s a)

  Step-accepted : {l m : EventLoop F} → Step l m → Awake l → accepted m ≡ accepted l
  unfolding accepted poll_return swap_functors call_next finish wakeup quit
  Step-accepted (polled at) a = refl
  Step-accepted {l} (swapped at) a =
      rw
        (
          append-nil (l.called ++ l.pending_functors),
          a.taken (ground (arith, at)),
          append-nil l.called,
        )
        refl
  Step-accepted {l} (called_next {f = f} {rest = rest} at next) a =
      rw next (ap (λ fs. fs ++ l.pending_functors) (append_assoc l.called (f ∷ []) rest))
  Step-accepted (finished at none_left) a = refl
  Step-accepted (woken owes) a = refl
  Step-accepted quit_elsewhere a = refl
  Step-accepted (quit_in_handler at) a = refl
  Step-accepted (quit_in_functor at) a = refl

  queue-accepted :
      (l : EventLoop F) (in_loop : Bool) (f : F)
      → accepted (queue_in_loop l in_loop f) ≡ accepted l ++ f ∷ []
  unfolding accepted queue_in_loop
  queue-accepted l false f = sym (append_assoc (l.called ++ l.functors) l.pending_functors (f ∷ []))
  queue-accepted l true f = elim (Bool-cases l.calling_pending) [
    | inl e ↦ rw e (sym (append_assoc (l.called ++ l.functors) l.pending_functors (f ∷ [])))
    | inr e ↦ rw e (sym (append_assoc (l.called ++ l.functors) l.pending_functors (f ∷ [])))
  ]

  -- A run behind one more functor.
  then_queued :
      (l l' : EventLoop F) (in_loop : Bool) (f : F) (fs : List F)
      → accepted l' ≡ accepted (queue_in_loop l in_loop f) ++ fs
      → accepted l' ≡ accepted l ++ f ∷ fs
  then_queued l l' in_loop f fs e =
      rw (e, queue-accepted l in_loop f) (append_assoc (accepted l) (f ∷ []) fs)

  -- Along every interleaving, the functors called, taken and queued are those before and those
  -- that other threads queued since, in the order of their queueing: none is lost, called twice
  -- or called out of order.
  pub Run-accepted :
      {l l' : EventLoop F} {fs : List F} → Run l fs l' → Awake l → accepted l' ≡ accepted l ++ fs
  Run-accepted {l} ended a = sym (append-nil (accepted l))
  Run-accepted {l} {l'} (queued_then {f = f} {fs = fs} r) a =
      then_queued l l' false f fs (Run-accepted r (queue-Awake l f a))
  Run-accepted {l} {l'} (queued_in_handler {f = f} {fs = fs} at r) a =
      then_queued l l' true f fs (Run-accepted r (queue_in_handler-Awake l f at a))
  Run-accepted {l} {l'} (queued_in_functor {f = f} {fs = fs} at r) a =
      then_queued l l' true f fs (Run-accepted r (queue_in_functor-Awake l f at a))
  Run-accepted (stepped s r) a = rw (Run-accepted r (Step-Awake s a), Step-accepted s a) refl

  -- `doPendingFunctors` is left, for `poll` or, after a `quit`, for good.
  abbrev Left : EventLoop F → EventLoop F → Type 0
  Left l m = (m.phase ≡ next_phase l.running) × (m.calling_pending ≡ false) × (m.functors ≡ [])

  call_all :
      (fs : List F) (l : EventLoop F)
      → l.phase ≡ Phase.calling
      → l.functors ≡ fs
      → (m : EventLoop F) × Run l [] m
        × (m.called ≡ l.called ++ fs)
        × (m.pending_functors ≡ l.pending_functors)
        × Left l m
  unfolding finish call_next
  call_all [] l at held = (
    finish l,
    stepped (finished at held) ended,
    sym (append-nil l.called),
    refl,
    (refl, refl, held),
  )
  call_all (f ∷ fs) l at held =
      let (m, run, called, pending, left) = call_all fs (call_next l f fs) at refl in
      (
        m,
        stepped (called_next at held) run,
        called ∙ append_assoc l.called (f ∷ []) fs,
        pending,
        left,
      )

  -- From behind `poll`, with no other thread between, the loop leaves `doPendingFunctors`, for
  -- `poll` if it still runs and else for good, with its flag cleared; it has called every functor
  -- that was accepted, in order, and none is left.
  pub drain-accepted :
      (l : EventLoop F)
      → Awake l
      → l.phase ≡ Phase.dispatching
      → (m : EventLoop F) × Run l [] m
        × (m.called ≡ accepted l)
        × (m.pending_functors ≡ [])
        × (m.phase ≡ next_phase l.running)
        × (m.calling_pending ≡ false)
        × (m.functors ≡ [])
  unfolding swap_functors accepted
  drain-accepted l a at =
      let (m, run, called, pending, left) =
        call_all l.pending_functors (swap_functors l) refl refl in
      (
        m,
        stepped (swapped at) run,
        rw (called, a.taken (ground (arith, at)), append-nil l.called) refl,
        pending,
        left.0,
        left.1,
        left.2,
      )

  -- A `quit` before `loop` is lost: `loop` sets the flag again, and runs.
  pub quit-enter :
      (l : EventLoop F) (in_loop : Bool)
      → Yields (enter (quit l in_loop)) (λ l'. (l'.running ≡ true) × (l'.phase ≡ Phase.polling))
  unfolding enter quit
  quit-enter l in_loop = (_, refl, (refl, refl))

  -- What the loop's own thread queues before `loop` waits in `poll` with no wakeup on the way.
  pub queue-enter :
      (f : F)
      → Yields (enter (queue_in_loop (new_loop {F = F}) true f)) (λ l.
        (l.phase ≡ Phase.polling) × (l.pending_functors ≡ f ∷ []) × (l.wakeups + l.owed ≡ 0))
  unfolding enter new_loop queue_in_loop
  queue-enter f = (_, refl, (refl, refl, refl))

  -- A new loop that is entered satisfies the invariant.
  pub new_loop-Awake : Yields (enter (new_loop {F = F})) Awake
  unfolding enter new_loop
  new_loop-Awake = (
    _,
    refl,
    record {
      work = λ h n. absurd (omega arith);
      stop = λ h e. ground (arith, e);
      taken = λ h. refl;
      flag = λ h. ground (arith, h);
    },
  )
