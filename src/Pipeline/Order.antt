-- ===== src/Pipeline/Order.antt =====
-- base/logger.cpp with base/async_logging.cpp: where the lines of a thread's statements end up.
use xweb.Prelude.{
  Yields, ℕ, ◌≤◌, ◌<◌, ◌≡◌, refl, sym, ◌∙◌, List, [], ◌∷◌, ◌++◌, some, Bool, true, false, length,
  arith, Bool-cases, inl, inr, append_assoc, append-nil,
}
use xweb.LogStream.{small_buffer}
use xweb.Logger.{LogLevel, Entry, Logging, is_fatal}
use xweb.Logger.Program.{Fits, full_line, shows, log_lem, enabled-shows}
use xweb.AsyncLogging.Stock.{Inv}
use xweb.AsyncLogging.Conserve.{all, append-Grown, backend-Grown}
use xweb.Pipeline.{
  Output, default_output, async_output, Pipeline, Event, statement, set_log_level, set_output, turn,
  put, put_all, pass, passes, expected_console, expected_log, logged_by, FitsEvent, AllFit, InTime,
}

-- What one event adds to the console and to the log, with the settings that it leaves.
record Adds (p : Pipeline) (console log : List ℕ) (ends : Bool) (level : LogLevel) (output : Output)
    (r : Pipeline × Bool) : Type 0 where
  inv : Inv r.0.logging
  size : r.0.logging.size ≡ p.logging.size
  level_left : r.0.log_level ≡ level
  output_left : r.0.output ≡ output
  shown : r.0.console ≡ p.console ++ console
  logged : all r.0.logging ≡ all p.logging ++ log
  over : r.1 ≡ ends

abbrev quiet : LogLevel → Logging
quiet level = record { log_level = level; outputs = []; aborted = false }

module _ (p : Pipeline) (v : Inv p.logging) where
  put_lem :
      (o : Output) (line : List ℕ) (ends : Bool)
      → p.output ≡ o
      → length line < p.logging.size
      → Yields (put p o line) (λ p'. Adds p line (logged_by o line) ends p.log_level o (p', ends))
  unfolding put
  put_lem default_output line ends same h = (
    _,
    refl,
    record {
      inv = v;
      size = refl;
      level_left = refl;
      output_left = same;
      shown = refl;
      logged = sym (append-nil (all p.logging));
      over = refl;
    },
  )
  put_lem async_output line ends same h =
      let (a, done, (inv, size, all_lines)) = append-Grown v line h in
      (
        _,
        rw done refl,
        record {
          inv = inv;
          size = size;
          level_left = refl;
          output_left = same;
          shown = refl;
          logged = all_lines;
          over = refl;
        },
      )

  quiet_lem :
      (level : LogLevel) (output : Output)
      → Adds p [] [] false level output (record p { log_level = level; output = output }, false)
  quiet_lem level output = record {
    inv = v;
    size = refl;
    level_left = refl;
    output_left = refl;
    shown = sym (append-nil p.console);
    logged = sym (append-nil (all p.logging));
    over = refl;
  }

  turn_lem :
      length p.logging.buffers_to_write ≤ 25
      → Yields (pass p turn) (Adds p [] [] false p.log_level p.output)
  unfolding pass
  turn_lem few =
      let (a, done, (inv, size, all_lines)) = backend-Grown v few in
      (
        (record p { logging = a }, false),
        rw done refl,
        record {
          inv = inv;
          size = size;
          level_left = refl;
          output_left = refl;
          shown = sym (append-nil p.console);
          logged = all_lines;
          over = refl;
        },
      )

  module _ (e : Entry) (big : small_buffer ≤ p.logging.size) (fits : Fits e) where
    shown_lem :
        shows p.log_level e.level ≡ true
        → Yields (pass p (statement e)) (
            Adds p
              (full_line e)
              (logged_by p.output (full_line e))
              (is_fatal e.level)
              p.log_level
              p.output)
    unfolding pass put_all Fits
    shown_lem shows_it =
        let logged = log_lem (quiet p.log_level) e fits in
        let (p', done, adds) =
          put_lem p.output (full_line e) (is_fatal e.level) refl (omega (arith, fits.1, big)) in
        (
          (p', is_fatal e.level),
          rw (logged, enabled-shows p.log_level e.level, shows_it, done) refl,
          adds,
        )

    hidden_lem :
        shows p.log_level e.level ≡ false
        → Yields (pass p (statement e)) (Adds p [] [] false p.log_level p.output)
    unfolding pass put_all
    hidden_lem hides =
        let logged = log_lem (quiet p.log_level) e fits in
        (
          (p, false),
          rw (logged, enabled-shows p.log_level e.level, hides) refl,
          quiet_lem p.log_level p.output,
        )

level_lem :
    (p : Pipeline) (level : LogLevel)
    → pass p (set_log_level level) ≡ some (record p { log_level = level }, false)
unfolding pass
level_lem p level = refl

output_lem :
    (p : Pipeline) (output : Output)
    → pass p (set_output output) ≡ some (record p { output = output }, false)
unfolding pass
output_lem p output = refl

-- What a run that begins in p must leave.
Ends : Pipeline → List Event → Pipeline → Type 0
Ends p xs p' =
    (p'.console ≡ p.console ++ expected_console p.log_level xs)
    × (all p'.logging ≡ all p.logging ++ expected_log p.log_level p.output xs)

-- An event that does not end the program, and the run behind it.
then_lem :
    {p : Pipeline} {c l : List ℕ} {level : LogLevel} {output : Output} (x : Event) (xs : List Event)
    (r : Pipeline × Bool)
    → pass p x ≡ some r
    → Adds p c l false level output r
    → Yields (passes r.0 xs) (Ends r.0 xs)
    → Yields (passes p (x ∷ xs)) (λ p'.
      (p'.console ≡ p.console ++ (c ++ expected_console level xs))
      × (all p'.logging ≡ all p.logging ++ (l ++ expected_log level output xs)))
unfolding passes Ends
then_lem {p} {c} {l} {level} {output} x xs r done s (p', rest, (shown, logged)) = (
  p',
  rw (done, s.over) rest,
  (
    rw (s.level_left, s.shown) at shown ∙ append_assoc p.console c (expected_console level xs),
    rw (s.level_left, s.output_left, s.logged) at logged
        ∙ append_assoc (all p.logging) l (expected_log level output xs),
  ),
)

-- With lines that fit into a stream, arrays of the backend that are no smaller, and a backend
-- that never finds more than 25 buffers: in a program of which one thread logs and changes the
-- level and the output function, wherever the steps of the backend come between these, every
-- statement returns; the console gets the lines of the statements that show under the level of
-- their time, in order, each whole and once, up to and with the first FATAL one; and what is
-- written to the log file followed by what waits grows by those among them whose output is the
-- AsyncLogging.
pub passes-order :
    (xs : List Event) (p : Pipeline)
    → Inv p.logging
    → small_buffer ≤ p.logging.size
    → AllFit xs
    → InTime p xs
    → Yields (passes p xs) (λ p'.
      (p'.console ≡ p.console ++ expected_console p.log_level xs)
      × (all p'.logging ≡ all p.logging ++ expected_log p.log_level p.output xs))
unfolding passes AllFit FitsEvent InTime expected_console expected_log Ends
passes-order [] p v big fits in_time =
    (p, refl, (sym (append-nil p.console), sym (append-nil (all p.logging))))
passes-order (turn ∷ xs) p v big fits in_time =
    let (r, done, s) = turn_lem p v in_time.0 in
    then_lem turn xs r done s
      (passes-order xs r.0 s.inv (omega (arith, s.size, big)) fits.1 (rw done at (in_time.1)))
passes-order (set_log_level level ∷ xs) p v big fits in_time =
    then_lem (set_log_level level) xs (record p { log_level = level }, false) (level_lem p level)
      (quiet_lem p v level p.output)
      (passes-order xs (record p { log_level = level }) v big fits.1 in_time.1)
passes-order (set_output output ∷ xs) p v big fits in_time =
    then_lem (set_output output) xs (record p { output = output }, false) (output_lem p output)
      (quiet_lem p v p.log_level output)
      (passes-order xs (record p { output = output }) v big fits.1 in_time.1)
passes-order (statement e ∷ xs) p v big fits in_time =
    elim (Bool-cases (shows p.log_level e.level)) [
      | inl seen ↦
          let (r, done, s) = shown_lem p v e big fits.0 seen in
          elim (Bool-cases (is_fatal e.level)) [
            | inl fatal ↦ (r.0, rw (done, s.over, fatal) refl, rw (seen, fatal) (s.shown, s.logged))
            | inr alive ↦
                rw (seen, alive)
                  (then_lem (statement e) xs r done (rw alive at s) (
                    passes-order xs r.0 s.inv (omega (arith, s.size, big)) fits.1
                      (rw done at (in_time.1))))
          ]
      | inr hidden ↦
          let (r, done, s) = hidden_lem p v e big fits.0 hidden in
          rw hidden (
            then_lem (statement e) xs r done s (
              passes-order xs r.0 s.inv (omega (arith, s.size, big)) fits.1
                (rw done at (in_time.1))))
    ]
