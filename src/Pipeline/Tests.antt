-- ===== src/Pipeline/Tests.antt =====
-- Two statements, of which one shows, and two steps of the backend between them.
use xweb.Prelude.{Yields, ℕ, ◌≡◌, List, [], ◌∷◌, ◌++◌, Option, some, none, arith, length-append}
use xweb.Prelude.Int.{pos}
use xweb.LogStream.{convert, new_fixed}
use xweb.LogStream.Decimal.{length-convert}
use xweb.LogStream.Insert.{c_string}
use xweb.Logger
use xweb.Logger.{
  Entry, LogLevel, e_info, e_warn, e_error, slash, behind_slash, behind_last, source_array,
}
use xweb.Logger.Lines.{time_items, func_items}
use xweb.Logger.Program.{InRange, Fits, full_line}
use xweb.AsyncLogging
use xweb.AsyncLogging.Stock.{start-Inv}
use xweb.AsyncLogging.Conserve.{all, After}
use xweb.Pipeline.{
  Pipeline, Event, default_output, async_output, statement, set_log_level, set_output, turn, pass,
  passes, expected_console, expected_log, AllFit, InTime,
}
use xweb.Pipeline.Order.{passes-order}

abbrev hi : List ℕ
hi = b'h' ∷ b'i' ∷ []

abbrev says_hi : LogLevel → Entry
says_hi level = record {
  level = level;
  file = hi ++ slash ∷ b'a' ∷ b'.' ∷ b'c' ∷ [];
  line = 7;
  func = hi;
  time = none;
  items = c_string (some hi) ∷ [];
}

says_hi-InRange : (level : LogLevel) → InRange (says_hi level)
unfolding InRange
says_hi-InRange level = omega arith

-- A line that does not show, one on the console only, and one for the log file.
abbrev events : List Event
events =
    set_log_level LogLevel.e_error
    ∷ statement (says_hi e_info)
    ∷ turn
    ∷ set_output async_output
    ∷ turn
    ∷ statement (says_hi e_warn)
    ∷ []

events-AllFit : AllFit events
unfolding AllFit Fits time_items func_items source_array behind_slash behind_last
events-AllFit =
    let digits = length-convert (pos 7) (omega arith) (omega arith) in
    let end = length-append (convert (pos 7)) (b' ' ∷ b'h' ∷ b'i' ∷ b'\n' ∷ []) in
    (
      tt,
      (
        (says_hi-InRange e_info, omega (arith, digits, end)),
        (tt, (tt, (tt, ((says_hi-InRange e_warn, omega (arith, digits, end)), tt)))),
      ),
    )

after_any : {A : Type 0} (o : Option A) → After o (λ a. Unit {0})
after_any none = tt
after_any (some a) = tt

abbrev begun : Pipeline
begun = record {
  log_level = LogLevel.e_trace;
  output = default_output;
  console = [];
  logging = AsyncLogging.start 4000;
}

passes-order_example : Yields (passes begun events) (λ p'.
    (p'.console ≡ [] ++ (full_line (says_hi e_warn) ++ []))
    × (all p'.logging ≡ all (AsyncLogging.start 4000) ++ (full_line (says_hi e_warn) ++ [])))
unfolding expected_console expected_log InTime AsyncLogging.start new_fixed Logger.log
    Logger.enabled Logger.level_index Logger.is_fatal pass AsyncLogging.backend AsyncLogging.collect
    AsyncLogging.taken AsyncLogging.write AsyncLogging.written AsyncLogging.kept
    AsyncLogging.resize_two
passes-order_example =
    passes-order events begun (start-Inv 4000 (omega arith) (omega arith)) (omega arith)
      events-AllFit
      (
        omega arith,
        (
          omega arith,
          (
            omega arith,
            (
              omega arith,
              (omega arith, (omega arith, after_any (pass _ (statement (says_hi e_warn))))),
            ),
          ),
        ),
      )
