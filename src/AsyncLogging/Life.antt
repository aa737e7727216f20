-- ===== src/AsyncLogging/Life.antt =====
-- base/async_logging.h and base/async_logging.cpp: the life of the backend thread. The owner calls
-- `start` and later `stop` (or the destructor does), the backend runs `threadFunc`, and producers
-- append at any time. Every access to what the threads share is one step.
pub mod Places
pub mod Stop
pub mod Schedule
pub mod Loss
mod Tests
use xweb.Prelude.{
  ℕ, ◌≡◌, List, [], ◌∷◌, ◌++◌, Option, none, some, Bool, true, false, if◌then◌else◌, ◌>>=◌, ◌>>◌,
  assert,
}
use xweb.Prelude.Int.{ℤ, pos}
use xweb.CountDownLatch
use xweb.CountDownLatch.{CountDownLatch, new_latch, positive, count_down}
use xweb.AsyncLogging
use xweb.AsyncLogging.{AsyncLogging, Phase, backend}

-- Where the owner stands: in `start`, between it and `stop`, in `stop`, or behind it.
pub data Owner : Type 0 where
  not_started waiting started notifying joining stopped : Owner

-- Where the backend stands in `threadFunc`.
pub data Worker : Type 0 where
  absent beginning opening testing looping finished : Worker

-- `flushed` is what the last `flush` of the log file has handed to the system.
pub record Life : Type 0 where
  pub logging : AsyncLogging
  pub running : Bool
  pub latch : CountDownLatch
  pub flushed : List ℕ
  pub owner : Owner
  pub worker : Worker

pub new_life : ℕ → Life
new_life size = record {
  logging = AsyncLogging.start size;
  running = false;
  latch = new_latch (pos 1);
  flushed = [];
  owner = Owner.not_started;
  worker = Worker.absent;
}

abbrev pub is_finished : Worker → Bool
is_finished w = elim w [ Worker.finished ↦ true | _ ↦ false ]

-- `start`: the thread is made, and the latch is waited for. `stop`: the flag, the notification and
-- `join`. A notification only ends a wait of the backend early.
pub owner_step : Owner → Life → Life
owner_step Owner.not_started l = record l {
  running = true;
  worker = Worker.beginning;
  owner = Owner.waiting;
}
owner_step Owner.waiting l =
    if positive l.latch.count then l else record l { owner = Owner.started }
owner_step Owner.started l = record l { running = false; owner = Owner.notifying }
owner_step Owner.notifying l = record l { owner = Owner.joining }
owner_step Owner.joining l = if is_finished l.worker then record l { owner = Owner.stopped } else l
owner_step Owner.stopped l = l

-- After a step of the loop's body, which ends with a `flush`.
abbrev pub looped : Phase → Life → AsyncLogging → Life
looped Phase.collecting l s = record l { logging = s }
looped Phase.writing l s = record l { logging = s; flushed = s.output; worker = Worker.testing }

-- `threadFunc`: its `assert`, the latch, the test of the loop, its body, and the last `flush`.
pub worker_step : Worker → Life → Option Life
worker_step Worker.absent l = some l
worker_step Worker.beginning l = do assert l.running; some (record l { worker = Worker.opening })
worker_step Worker.opening l =
    some (record l { latch = count_down l.latch; worker = Worker.testing })
worker_step Worker.testing l = some (
    if l.running
    then record l { worker = Worker.looping }
    else record l { flushed = l.logging.output; worker = Worker.finished })
worker_step Worker.looping l = do
  s ← backend l.logging.phase l.logging
  some (looped l.logging.phase l s)
worker_step Worker.finished l = some l

pub data Move : Type 0 where
  owner_moves worker_moves : Move
  producer_logs : List ℕ → Move

pub move : Life → Move → Option Life
unfolding owner_step worker_step
move l Move.owner_moves = some (owner_step l.owner l)
move l Move.worker_moves = worker_step l.worker l
move l (Move.producer_logs line) = do
  s ← AsyncLogging.append l.logging line
  some (record l { logging = s })

pub moves : Life → List Move → Option Life
unfolding move
moves l [] = some l
moves l (m ∷ ms) = move l m >>= λ l'. moves l' ms
