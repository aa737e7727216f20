-- ===== src/Pipeline.antt =====
-- base/logger.cpp with base/async_logging.cpp, put together by `Logger::setOutput`: a program with
-- one thread that logs, sets the level and sets the output, whose output appends to one
-- AsyncLogging, and the turns of its backend in any order between. The parts of a statement are one
-- step: the level test and the text touch only what is the thread's own, and of the backend only
-- the locked `append` can be seen. A second thread that logs is left out: nothing orders the parts
-- of its statements with these, nor its console lines where the output is `defaultOutput`.
pub mod Order
mod Tests
use xweb.Prelude.{
  Yields, ℕ, ◌+◌, ◌≤◌, ◌<◌, ◌≡◌, refl, sym, ap, ◌∙◌, List, [], ◌∷◌, ◌++◌, Option, some, none, Bool,
  true, false, length, if◌then◌else◌, ◌>>=◌, arith, Bool-cases, inl, inr, append_assoc, append-nil,
}
use xweb.LogStream.{small_buffer}
use xweb.Logger
use xweb.Logger.{LogLevel, Entry, Logging, is_fatal, enabled}
use xweb.Logger.Program.{Fits, full_line, shows, log_lem, enabled-shows}
use xweb.AsyncLogging
use xweb.AsyncLogging.{AsyncLogging, append, backend}
use xweb.AsyncLogging.Stock.{Inv}
use xweb.AsyncLogging.Conserve.{all, After, Grown, append-Grown, backend-Grown}

pub data Output : Type 0 where
  default_output async_output : Output

-- The static members of Logger, what was written to the console, and the object that `async_output`
-- appends to.
pub record Pipeline : Type 0 where
  pub log_level : LogLevel
  pub output : Output
  pub console : List ℕ
  pub logging : AsyncLogging

pub data Event : Type 0 where
  statement : Entry → Event
  set_log_level : LogLevel → Event
  set_output : Output → Event
  turn : Event

-- `g_output(line)`: `defaultOutput`, or `AsyncLogging::append`, which shows its lines on the
-- console too.
unfoldable pub put : Pipeline → Output → List ℕ → Option Pipeline
put p default_output line = some (record p { console = p.console ++ line })
put p async_output line = do
  a ← append p.logging line
  some (record p { console = p.console ++ line; logging = a })

pub put_all : Pipeline → List (List ℕ) → Option Pipeline
unfolding put
put_all p [] = some p
put_all p (line ∷ ls) = put p p.output line >>= λ p'. put_all p' ls

-- One event, with whether it ended the program: a statement of the one thread from its level test
-- to its `abort`.
unfoldable pub pass : Pipeline → Event → Option (Pipeline × Bool)
unfolding put_all
pass p (statement e) = do
  s ← Logger.log (record { log_level = p.log_level; outputs = []; aborted = false }) e
  p' ← put_all p s.outputs
  some (p', s.aborted)
pass p (set_log_level level) = some (record p { log_level = level }, false)
pass p (set_output output) = some (record p { output = output }, false)
pass p turn = do a ← backend p.logging.phase p.logging; some (record p { logging = a }, false)

pub passes : Pipeline → List Event → Option Pipeline
unfolding pass
passes p [] = some p
passes p (x ∷ xs) = pass p x >>= λ r. if r.1 then some r.0 else passes r.0 xs

-- The lines that the events must show, as one text, up to the first FATAL one.
unfoldable pub expected_console : LogLevel → List Event → List ℕ
expected_console level [] = []
expected_console level (turn ∷ xs) = expected_console level xs
expected_console level (set_log_level next ∷ xs) = expected_console next xs
expected_console level (set_output output ∷ xs) = expected_console level xs
expected_console level (statement e ∷ xs) =
    let rest = expected_console level xs in
    if shows level e.level
    then (if is_fatal e.level then full_line e else full_line e ++ rest)
    else rest

abbrev pub logged_by : Output → List ℕ → List ℕ
logged_by default_output line = []
logged_by async_output line = line

-- Those among them whose output is the log file.
unfoldable pub expected_log : LogLevel → Output → List Event → List ℕ
expected_log level output [] = []
expected_log level output (turn ∷ xs) = expected_log level output xs
expected_log level output (set_log_level next ∷ xs) = expected_log next output xs
expected_log level output (set_output next ∷ xs) = expected_log level next xs
expected_log level output (statement e ∷ xs) =
    let rest = expected_log level output xs in
    if shows level e.level
    then (if is_fatal e.level
        then logged_by output (full_line e)
        else logged_by output (full_line e) ++ rest)
    else rest

unfoldable pub FitsEvent : Event → Type 0
FitsEvent (statement e) = Fits e
FitsEvent (set_log_level level) = Unit {0}
FitsEvent (set_output output) = Unit {0}
FitsEvent turn = Unit {0}

unfoldable pub AllFit : List Event → Type 0
unfolding FitsEvent
AllFit [] = Unit {0}
AllFit (x ∷ xs) = FitsEvent x × AllFit xs

-- The backend never finds more than 25 buffers to write.
unfoldable pub InTime : Pipeline → List Event → Type 0
unfolding pass
InTime p [] = Unit {0}
InTime p (x ∷ xs) = (length p.logging.buffers_to_write ≤ 25) × After (pass p x) (λ r. InTime r.0 xs)
