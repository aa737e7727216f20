-- ===== src/AsyncLogging/Life/Schedule.antt =====
-- base/async_logging.cpp: a life is one of the schedules of AsyncLogging.run.
use xweb.Prelude.{
  Yields, ℕ, ◌≡◌, refl, List, [], ◌∷◌, ◌++◌, none, some, arith, inl, inr, ◌∙◌, Option-cases,
  append_assoc, append-nil, ap, sym,
}
use xweb.AsyncLogging.{AsyncLogging, Event, Phase, log, thread, step, run, backend, append}
use xweb.AsyncLogging.Conserve.{lines, all, Short, InTime, run_keeps}
use xweb.AsyncLogging.Life.Places.{Inv, Loggable, moves-Inv}
use xweb.AsyncLogging.Life.{Owner, Worker, Life, owner_step, looped, worker_step, Move, move, moves}

-- The lines that the producers log in a life.
unfoldable pub logged : List Move → List ℕ
logged [] = []
logged (Move.owner_moves ∷ ms) = logged ms
logged (Move.worker_moves ∷ ms) = logged ms
logged (Move.producer_logs line ∷ ms) = line ++ logged ms

-- The events of the logging object in a life: the backend has one where it stands in its loop.
pub worker_event : Worker → List Event
worker_event w = elim w [ Worker.looping ↦ thread ∷ [] | _ ↦ [] ]

pub move_event : Worker → Move → List Event
unfolding worker_event
move_event w Move.owner_moves = []
move_event w Move.worker_moves = worker_event w
move_event w (Move.producer_logs line) = log line ∷ []

unfoldable pub schedule : Life → List Move → List Event
unfolding move_event
schedule l [] = []
schedule l (m ∷ ms) =
    move_event l.worker m ++ elim (move l m) [ none ↦ [] | some l' ↦ schedule l' ms ]

run-append :
    (xs ys : List Event) (s s' : AsyncLogging) → run s xs ≡ some s' → run s (xs ++ ys) ≡ run s' ys
unfolding run
run-append [] ys s s' h = ground arith
run-append (x ∷ xs) ys s s' h = elim (Option-cases (step s x)) [
  | inl gone ↦ absurd (ground (arith, gone))
  | inr (s1, done) ↦ rw done (run-append xs ys s1 s' (rw done at h))
]

lines-append : (xs ys : List Event) → lines (xs ++ ys) ≡ lines xs ++ lines ys
lines-append [] ys = refl
lines-append (log line ∷ xs) ys = rw (lines-append xs ys) (sym (append_assoc line _ _))
lines-append (thread ∷ xs) ys = lines-append xs ys

owner_step-logging : (o : Owner) (l : Life) → (owner_step o l).logging ≡ l.logging
unfolding owner_step
owner_step-logging o l = ground arith

looped-logging : (p : Phase) (l : Life) (s : AsyncLogging) → (looped p l s).logging ≡ s
looped-logging p l s = ground arith

worker_step-run :
    (w : Worker) (l l' : Life)
    → worker_step w l ≡ some l'
    → run l.logging (worker_event w) ≡ some l'.logging
unfolding worker_step worker_event run step
worker_step-run Worker.absent l l' h = ground arith
worker_step-run Worker.beginning l l' h = ground arith
worker_step-run Worker.opening l l' h = ground arith
worker_step-run Worker.testing l l' h = ground arith
worker_step-run Worker.looping l l' h = elim (Option-cases (backend l.logging.phase l.logging)) [
  | inl gone ↦ absurd (ground (arith, gone))
  | inr (s, done) ↦ rw done (ground (arith, done, looped-logging l.logging.phase l s))
]
worker_step-run Worker.finished l l' h = ground arith

move-run :
    (m : Move) (l l' : Life)
    → move l m ≡ some l'
    → run l.logging (move_event l.worker m) ≡ some l'.logging
unfolding move move_event run step
move-run Move.owner_moves l l' h = ground (arith, owner_step-logging l.owner l)
move-run Move.worker_moves l l' h = worker_step-run l.worker l l' h
move-run (Move.producer_logs line) l l' h = elim (Option-cases (append l.logging line)) [
  | inl gone ↦ absurd (ground (arith, gone))
  | inr (s, done) ↦ rw done (ground (arith, done))
]

lines-move_event : (w : Worker) (m : Move) → lines (move_event w m) ≡ logged (m ∷ [])
unfolding move_event worker_event logged
lines-move_event w Move.owner_moves = refl
lines-move_event Worker.looping Move.worker_moves = refl
lines-move_event Worker.absent Move.worker_moves = refl
lines-move_event Worker.beginning Move.worker_moves = refl
lines-move_event Worker.opening Move.worker_moves = refl
lines-move_event Worker.testing Move.worker_moves = refl
lines-move_event Worker.finished Move.worker_moves = refl
lines-move_event w (Move.producer_logs line) = refl

logged-first : (m : Move) (ms : List Move) → logged (m ∷ ms) ≡ logged (m ∷ []) ++ logged ms
unfolding logged
logged-first Move.owner_moves ms = refl
logged-first Move.worker_moves ms = refl
logged-first (Move.producer_logs line) ms = ap (λ l. l ++ logged ms) (sym (append-nil line))

moves-run :
    (ms : List Move) (l l' : Life)
    → moves l ms ≡ some l'
    → (run l.logging (schedule l ms) ≡ some l'.logging) × (lines (schedule l ms) ≡ logged ms)
unfolding moves schedule run logged
moves-run [] l l' h = (ground arith, refl)
moves-run (m ∷ ms) l l' h = elim (Option-cases (move l m)) [
  | inl gone ↦ absurd (ground (arith, gone))
  | inr (l1, done) ↦
      let (runs, all_lines) = moves-run ms l1 l' (rw done at h) in
      rw done (
        run-append (move_event l.worker m) (schedule l1 ms) l.logging l1.logging
              (move-run m l l1 done)
            ∙ runs,
        lines-append (move_event l.worker m) (schedule l1 ms)
            ∙ rw (lines-move_event l.worker m, all_lines) (sym (logged-first m ms)),
      )
]

-- Whatever the order of the steps of the owner, the backend and the producers, if each line is
-- shorter than a buffer and the backend never finds more than 25 buffers, what is written to the
-- log file followed by what waits in the buffers is what was there before followed by all lines
-- logged since, in order.
pub moves_keep :
    (ms : List Move) {l : Life}
    → Inv l
    → Loggable ms
    → Short l.logging.size (schedule l ms)
    → InTime l.logging (schedule l ms)
    → Yields (moves l ms) (λ l'. all l'.logging ≡ all l.logging ++ logged ms)
moves_keep ms {l} v h short in_time =
    let (l', done, _) = moves-Inv ms v h in
    let (runs, all_lines) = moves-run ms l l' done in
    let (s, ends, kept) = run_keeps (schedule l ms) v.stock short in_time in
    let same : s ≡ l'.logging = ground (arith, runs, ends) in
    (l', done, rw (same, all_lines) at kept)
