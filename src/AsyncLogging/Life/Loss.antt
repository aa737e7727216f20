-- ===== src/AsyncLogging/Life/Loss.antt =====
-- base/async_logging.cpp: the lines that `stop` leaves behind.
use xweb.Prelude.{
  Yields, ◌≡◌, refl, List, [], ◌∷◌, some, Bool, true, false, arith, inl, inr, ◌∙◌, Option-cases,
}
use xweb.AsyncLogging.{append}
use xweb.AsyncLogging.Life.{Owner, Worker, Life, owner_step, worker_step, Move, move, moves}
use xweb.AsyncLogging.Life.Places.{in_stop, Loggable}
use xweb.AsyncLogging.Life.Stop.{Off, off_lem, append-output, move-Off}

-- The backend is at the test of its loop, or behind the loop.
abbrev pub quiet : Worker → Bool
quiet w = elim w [ Worker.testing ↦ true | Worker.finished ↦ true | _ ↦ false ]

owner_step-quiet :
    (o : Owner) (l : Life)
    → in_stop o ≡ true
    → ((owner_step o l).worker ≡ l.worker) × ((owner_step o l).logging ≡ l.logging)
unfolding owner_step
owner_step-quiet o l h = ground arith

worker_step-quiet :
    (w : Worker) (l l' : Life)
    → l.running ≡ false
    → quiet w ≡ true
    → l.worker ≡ w
    → worker_step w l ≡ some l'
    → (quiet l'.worker ≡ true) × (l'.logging.output ≡ l.logging.output)
unfolding worker_step
worker_step-quiet w l l' r q e h = ground arith

move-quiet :
    (m : Move) (l l' : Life)
    → Off l
    → quiet l.worker ≡ true
    → move l m ≡ some l'
    → (quiet l'.worker ≡ true) × (l'.logging.output ≡ l.logging.output)
unfolding move
move-quiet Move.owner_moves l l' v q h =
    let (same, logs) = owner_step-quiet l.owner l v.past in ground (arith, same, logs)
move-quiet Move.worker_moves l l' v q h = worker_step-quiet l.worker l l' (off_lem l v).0 q refl h
move-quiet (Move.producer_logs line) l l' v q h = elim (Option-cases (append l.logging line)) [
  | inl none_left ↦ absurd (ground (arith, none_left))
  | inr (s, done) ↦ ground (arith, done, append-output l.logging s line done)
]

-- When `stop` clears `running_` while the backend is at the test of its loop, the backend writes
-- nothing more, whatever follows: the lines that wait in the buffers, and all later ones, never
-- reach the log file.
pub stop-loses :
    (ms : List Move) {l : Life}
    → Off l
    → quiet l.worker ≡ true
    → Loggable ms
    → Yields (moves l ms) (λ l'. l'.logging.output ≡ l.logging.output)
unfolding moves Loggable
stop-loses [] {l} v q h = (l, refl, refl)
stop-loses (m ∷ ms) {l} v q h =
    let (l1, done, (v1, s1)) = move-Off m l v h.0 in
    let (q1, same) = move-quiet m l l1 v q done in
    let (l2, rest, still) = stop-loses ms v1 q1 h.1 in (l2, rw done rest, still ∙ same)
