-- ===== src/AsyncLogging/Tests.antt =====
-- Runs of base/async_logging.cpp with buffers of 8 bytes, and the theorems at such schedules.
use xweb.Prelude.{ℕ, ◌≡◌, refl, List, [], ◌∷◌, ◌++◌, some}
use mathlib.Core.Option
use mathlib.Core.List.{flatten}
use xweb.LogStream
use xweb.LogStream.{avail, new_fixed}
use xweb.LogStream.Fixed.{text}
use xweb.AsyncLogging.{kept, AsyncLogging, Event, log, thread, start, step, run}

abbrev hello : List ℕ
hello = b'h' ∷ b'e' ∷ b'l' ∷ b'l' ∷ b'o' ∷ []

abbrev world : List ℕ
world = b'w' ∷ b'o' ∷ b'r' ∷ b'l' ∷ b'd' ∷ []

abbrev schedule : List Event
schedule = log hello ∷ log world ∷ thread ∷ log hello ∷ thread ∷ []

run_writes :
    Option.map (λ (s : AsyncLogging). s.output) (run (start 8) schedule) ≡ some (hello ++ world)
unfolding run step start LogStream.append avail flatten text kept new_fixed
run_writes = refl
