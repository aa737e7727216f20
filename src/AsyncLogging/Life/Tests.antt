-- ===== src/AsyncLogging/Life/Tests.antt =====
-- Lives of a backend with buffers of 8 bytes, and the theorems at such lives.
use xweb.Prelude.{Yields, ℕ, ◌≡◌, refl, List, [], ◌∷◌, ◌++◌, some, arith, false}
use mathlib.Core.Option
use xweb.Prelude.Int.{pos}
use xweb.LogStream
use xweb.LogStream.{avail, new_fixed}
use xweb.CountDownLatch.{new_latch, count_down, positive, is_zero, decrement}
use xweb.AsyncLogging
use xweb.AsyncLogging.Stock.{start-Inv}
use xweb.AsyncLogging.Life.{Owner, Worker, Life, new_life, Move, moves, owner_step}
use xweb.AsyncLogging.Life.Places.{Inv, Stands, Loggable, new_life-Inv, moves-Inv}
use xweb.AsyncLogging.Life.Stop.{stop-finishes, backend_steps}
use xweb.AsyncLogging.Conserve.{all}
use xweb.AsyncLogging.Life.Schedule.{schedule, moves_keep, logged}
use xweb.AsyncLogging.Life.Loss.{stop-loses}

abbrev hello : List ℕ
hello = b'h' ∷ b'e' ∷ b'l' ∷ b'l' ∷ b'o' ∷ []

-- `start`, a line, `stop`, and `join` after the backend's last step.
abbrev short_life : List Move
short_life =
    Move.owner_moves
    ∷ Move.worker_moves
    ∷ Move.worker_moves
    ∷ Move.owner_moves
    ∷ Move.producer_logs hello
    ∷ Move.owner_moves
    ∷ Move.worker_moves
    ∷ Move.owner_moves
    ∷ Move.owner_moves
    ∷ []

-- The line is lost.
short_life_ends :
    Option.map {B = List ℕ × Owner}
      (λ (l : Life). (l.flushed, l.owner))
      (moves (new_life 8) short_life)
    ≡ some ([], Owner.stopped)
unfolding moves new_life new_latch count_down positive is_zero decrement LogStream.append avail
    new_fixed AsyncLogging.append AsyncLogging.start
short_life_ends = refl

moves-Inv_example : Yields (moves (new_life 8) short_life) Inv
unfolding Loggable
moves-Inv_example = moves-Inv short_life (new_life-Inv 8 (omega arith) (omega arith)) (omega arith)

-- A life in `stop`, with the backend inside its loop or at the test.
abbrev stopping : Worker → Life
stopping w = record {
  logging = AsyncLogging.start 8;
  running = false;
  latch = new_latch (pos 0);
  flushed = [];
  owner = Owner.notifying;
  worker = w;
}

stop-finishes_example :
    Yields
      (moves (stopping Worker.looping) (
        Move.worker_moves
        ∷ Move.owner_moves
        ∷ Move.producer_logs hello
        ∷ Move.worker_moves
        ∷ Move.worker_moves
        ∷ []))
      (λ l'.
        (l'.worker ≡ Worker.finished)
        × (l'.flushed ≡ l'.logging.output)
        × (l'.owner ≡ Owner.joining → (owner_step l'.owner l').owner ≡ Owner.stopped))
unfolding Loggable backend_steps Stands
stop-finishes_example =
    stop-finishes
      (Move.worker_moves
        ∷ Move.owner_moves
        ∷ Move.producer_logs hello
        ∷ Move.worker_moves
        ∷ Move.worker_moves
        ∷ [])
      (record {
        inv = record { stock = start-Inv 8 (omega arith) (omega arith); stands = refl };
        past = refl;
        whole = λ e. absurd (ground arith);
      })
      (omega arith) (omega arith)

stop-loses_example :
    Yields
      (moves (stopping Worker.testing) (Move.producer_logs hello ∷ Move.worker_moves ∷ []))
      (λ l'. l'.logging.output ≡ (AsyncLogging.start 8).output)
unfolding Loggable Stands
stop-loses_example =
    stop-loses (Move.producer_logs hello ∷ Move.worker_moves ∷ [])
      (record {
        inv = record { stock = start-Inv 8 (omega arith) (omega arith); stands = refl };
        past = refl;
        whole = λ e. absurd (ground arith);
      })
      refl (omega arith)

moves_keep_example :
    Yields
      (moves (new_life 8) short_life)
      (λ l'. all l'.logging ≡ all (new_life 8).logging ++ hello)
unfolding Loggable schedule logged moves new_life new_latch count_down positive is_zero decrement
    LogStream.append avail new_fixed AsyncLogging.append AsyncLogging.start AsyncLogging.step
moves_keep_example =
    moves_keep short_life (new_life-Inv 8 (omega arith) (omega arith)) (omega arith) (omega arith)
      (omega arith)
