-- ===== src/AsyncLogging/Life/Stop.antt =====
-- base/async_logging.h: what `stop` waits for, and what the backend no longer writes.
use xweb.Prelude.{
  Yields, ℕ, suc, ◌+◌, ◌-◌, ◌≤◌, ◌≡◌, refl, List, [], ◌∷◌, some, true, false, arith, Bool-cases,
  inl, inr, ◌∙◌, sym, subst, Option-cases,
}
use xweb.AsyncLogging.{AsyncLogging, Phase, collect, write, taken, written, append, backend}
use xweb.AsyncLogging.Life.{
  Owner, Worker, Life, is_finished, owner_step, looped, worker_step, Move, move, moves,
}
use xweb.AsyncLogging.Life.Places.{in_stop, is_early, Stands-off, Inv, Fits, Loggable, move-Inv}

-- How many steps the backend has left once `running_` is clear.
pub steps_left : Worker → Phase → ℕ
steps_left Worker.absent p = 6
steps_left Worker.beginning p = 5
steps_left Worker.opening p = 4
steps_left Worker.looping Phase.collecting = 3
steps_left Worker.looping Phase.writing = 2
steps_left Worker.testing p = 1
steps_left Worker.finished p = 0

abbrev pub left : Life → ℕ
left l = steps_left l.worker l.logging.phase

collect-phase :
    (s s' : AsyncLogging)
    → collect s ≡ some s'
    → (s'.phase ≡ Phase.writing) × (s'.output ≡ s.output)
unfolding collect taken
collect-phase s s' h = ground arith

write-phase : (s s' : AsyncLogging) → write s ≡ some s' → s'.phase ≡ Phase.collecting
unfolding write written
write-phase s s' h = ground arith

pub append-output :
    (s s' : AsyncLogging) (line : List ℕ)
    → append s line ≡ some s'
    → (s'.phase ≡ s.phase) × (s'.output ≡ s.output)
unfolding append
append-output s s' line h = ground arith

-- Inside `stop`, or behind it.
pub record Off (l : Life) : Type 0 where
  pub inv : Inv l
  pub past : in_stop l.owner ≡ true
  pub whole : l.worker ≡ Worker.finished → l.flushed ≡ l.logging.output

pub off_lem : (l : Life) → Off l → (l.running ≡ false) × (is_early l.worker ≡ false)
off_lem l v = Stands-off l.owner l.worker l.running l.latch.count v.inv.stands v.past

pub record Steps (n : ℕ) (l l' : Life) : Type 0 where
  pub past : in_stop l'.owner ≡ true
  pub whole : l'.worker ≡ Worker.finished → l'.flushed ≡ l'.logging.output
  pub fewer : left l' ≤ left l - n

owner_step-Steps : (o : Owner) (l : Life) → Off l → l.owner ≡ o → Steps 0 l (owner_step o l)
unfolding owner_step
owner_step-Steps Owner.not_started l v e = absurd (ground (arith, v.past))
owner_step-Steps Owner.waiting l v e = absurd (ground (arith, v.past))
owner_step-Steps Owner.started l v e = absurd (ground (arith, v.past))
owner_step-Steps Owner.notifying l v e = record {
  past = refl;
  whole = v.whole;
  fewer = omega arith;
}
owner_step-Steps Owner.joining l v e = elim (Bool-cases (is_finished l.worker)) [
  | inl over ↦ rw over (record { past = refl; whole = v.whole; fewer = omega arith })
  | inr on ↦ rw on (record { past = v.past; whole = v.whole; fewer = omega arith })
]
owner_step-Steps Owner.stopped l v e = record {
  past = v.past;
  whole = v.whole;
  fewer = omega arith;
}

looped-Steps :
    (p : Phase) (l : Life) (s : AsyncLogging)
    → Off l
    → l.worker ≡ Worker.looping
    → l.logging.phase ≡ p
    → backend p l.logging ≡ some s
    → Steps 1 l (looped p l s)
unfolding backend steps_left
looped-Steps Phase.collecting l s v e p h =
    let (now, same) = collect-phase l.logging s h in
    record {
      past = v.past;
      whole = λ f. absurd (ground (arith, e));
      fewer = rw (e, p, now) (omega arith);
    }
looped-Steps Phase.writing l s v e p h = record {
  past = v.past;
  whole = λ f. refl;
  fewer = rw (e, p) (omega arith);
}

worker_step-Steps :
    (w : Worker) (l l' : Life) → Off l → l.worker ≡ w → worker_step w l ≡ some l' → Steps 1 l l'
unfolding worker_step steps_left
worker_step-Steps Worker.absent l l' v e h = absurd (ground (arith, e, off_lem l v))
worker_step-Steps Worker.beginning l l' v e h = absurd (ground (arith, e, off_lem l v))
worker_step-Steps Worker.opening l l' v e h = absurd (ground (arith, e, off_lem l v))
worker_step-Steps Worker.testing l l' v e h =
    let stopped : Steps 1 l (record l { flushed = l.logging.output; worker = Worker.finished }) =
      record { past = v.past; whole = λ f. refl; fewer = omega arith } in
    subst (Steps 1 l) (ground (arith, (off_lem l v).0)) stopped
worker_step-Steps Worker.looping l l' v e h =
    elim (Option-cases (backend l.logging.phase l.logging)) [
      | inl none_left ↦ absurd (ground (arith, none_left))
      | inr (s, done) ↦
          subst (Steps 1 l) (ground (arith, done)) (looped-Steps l.logging.phase l s v e refl done)
    ]
worker_step-Steps Worker.finished l l' v e h =
    let still : Steps 1 l l = record {
      past = v.past;
      whole = v.whole;
      fewer = rw e (omega arith);
    } in
    subst (Steps 1 l) (ground arith) still

-- The steps of the backend among those of all.
unfoldable pub backend_steps : List Move → ℕ
backend_steps [] = 0
backend_steps (Move.owner_moves ∷ ms) = backend_steps ms
backend_steps (Move.worker_moves ∷ ms) = suc (backend_steps ms)
backend_steps (Move.producer_logs line ∷ ms) = backend_steps ms

move-Steps :
    (m : Move) (l l' : Life) → Off l → move l m ≡ some l' → Steps (backend_steps (m ∷ [])) l l'
unfolding move backend_steps
move-Steps Move.owner_moves l l' v h =
    subst (Steps 0 l) (ground arith) (owner_step-Steps l.owner l v refl)
move-Steps Move.worker_moves l l' v h = worker_step-Steps l.worker l l' v refl h
move-Steps (Move.producer_logs line) l l' v h = elim (Option-cases (append l.logging line)) [
  | inl none_left ↦ absurd (ground (arith, none_left))
  | inr (s, done) ↦
      let (phase, output) = append-output l.logging s line done in
      let logged : Steps 0 l (record l { logging = s }) = record {
        past = v.past;
        whole = λ f. v.whole f ∙ sym output;
        fewer = rw phase (omega arith);
      } in
      subst (Steps 0 l) (ground (arith, done)) logged
]

pub move-Off :
    (m : Move) (l : Life)
    → Off l
    → Fits m
    → Yields (move l m) (λ l'. Off l' × Steps (backend_steps (m ∷ [])) l l')
move-Off m l v h =
    let (l', done, inv) = move-Inv m v.inv h in
    let s = move-Steps m l l' v done in
    (l', done, (record { inv = inv; past = s.past; whole = s.whole }, s))

backend_steps-first :
    (m : Move) (ms : List Move) → backend_steps (m ∷ ms) ≡ backend_steps (m ∷ []) + backend_steps ms
unfolding backend_steps
backend_steps-first Move.owner_moves ms = omega arith
backend_steps-first Move.worker_moves ms = omega arith
backend_steps-first (Move.producer_logs line) ms = omega arith

-- What remains to be done shrinks with every step of the backend.
moves-Off :
    (ms : List Move) (l : Life)
    → Off l
    → Loggable ms
    → Yields (moves l ms) (λ l'. Off l' × (left l' ≤ left l - backend_steps ms))
unfolding moves Loggable backend_steps
moves-Off [] l v h = (l, refl, (v, omega arith))
moves-Off (m ∷ ms) l v h =
    let (l1, done, (v1, s1)) = move-Off m l v h.0 in
    let (l2, rest, (v2, fewer)) = moves-Off ms l1 v1 h.1 in
    (l2, rw done rest, (v2, omega (arith, s1.fewer, fewer, backend_steps-first m ms)))

left-worker : (w : Worker) (p : Phase) → steps_left w p ≡ 0 → w ≡ Worker.finished
unfolding steps_left
left-worker w p h = ground arith

left-off : (w : Worker) (p : Phase) → is_early w ≡ false → steps_left w p ≤ 3
unfolding steps_left
left-off w p h = ground arith

-- Once the owner is in `stop`, three steps of the backend are enough, whatever the owner and the
-- producers do between them: then `threadFunc` has returned, so that `join` does, and all that was
-- written to the log file is flushed.
pub stop-finishes :
    (ms : List Move) {l : Life}
    → Off l
    → Loggable ms
    → 3 ≤ backend_steps ms
    → Yields (moves l ms) (λ l'.
      (l'.worker ≡ Worker.finished)
      × (l'.flushed ≡ l'.logging.output)
      × (l'.owner ≡ Owner.joining → (owner_step l'.owner l').owner ≡ Owner.stopped))
unfolding owner_step
stop-finishes ms {l} v h enough =
    let (l', done, (v', few)) = moves-Off ms l v h in
    let most = left-off l.worker l.logging.phase (off_lem l v).1 in
    let over = left-worker l'.worker l'.logging.phase (omega (arith, few, most)) in
    (l', done, (over, v'.whole over, λ e. rw (e, over) refl))
