-- ===== src/Logger/Tests.antt =====
-- A program that logs a warning, and then a fatal error.
use xweb.Prelude.{
  Yields, ℕ, ◌≡◌, ◌<◌, refl, ◌⊎◌, List, [], ◌∷◌, ◌++◌, none, some, false, length, arith,
  length-append,
}
use xweb.LogStream.{small_buffer, convert}
use xweb.LogStream.Decimal.{length-convert}
use xweb.Prelude.Int.{pos}
use xweb.LogStream.Insert.{c_string}
use xweb.Logger.{
  Entry, Logging, LogLevel, e_info, e_warn, e_error, e_fatal, slash, behind_slash, behind_last,
  source_array, Use, set_level, logs, run, log,
}
use xweb.Logger.Lines.{time_items, func_items}
use xweb.Logger.Program.{InRange, Fits, AllFit, reported, run-reported, log-bounded}

abbrev hi : List ℕ
hi = b'h' ∷ b'i' ∷ []

abbrev base : List ℕ
base = b'a' ∷ b'.' ∷ b'c' ∷ []

abbrev path : List ℕ
path = hi ++ slash ∷ base

abbrev says_hi : LogLevel → Entry
says_hi level = record {
  level = level;
  file = path;
  line = 7;
  func = hi;
  time = none;
  items = c_string (some hi) ∷ [];
}

says_hi-InRange : (level : LogLevel) → InRange (says_hi level)
unfolding InRange
says_hi-InRange level = omega arith

abbrev program : List Use
program =
    logs (says_hi e_warn) ∷ set_level e_error ∷ logs (says_hi e_info) ∷ logs (says_hi e_fatal) ∷ []

program-AllFit : AllFit program
unfolding AllFit Fits time_items func_items source_array behind_slash behind_last
program-AllFit =
    let digits = length-convert (pos 7) (omega arith) (omega arith) in
    let end = length-append (convert (pos 7)) (b' ' ∷ b'h' ∷ b'i' ∷ b'\n' ∷ []) in
    (
      (says_hi-InRange e_warn, omega (arith, digits, end)),
      (
        (says_hi-InRange e_info, omega (arith, digits, end)),
        ((says_hi-InRange e_fatal, omega (arith, digits, end)), tt),
      ),
    )

abbrev started : Logging
started = record { log_level = LogLevel.e_trace; outputs = []; aborted = false }

run-reported_example : Yields (run started program) (λ s'.
    (s'.outputs ≡ started.outputs ++ (reported started.log_level program).0)
    × (s'.aborted ≡ (reported started.log_level program).1))
run-reported_example = run-reported program started program-AllFit refl

log-bounded_example : Yields (log started (says_hi e_info)) (λ s'.
    (s' ≡ started)
    ⊎ ((t : List ℕ) × (s'.outputs ≡ started.outputs ++ t ∷ []) × (length t < small_buffer)))
log-bounded_example = log-bounded started (says_hi e_info) (says_hi-InRange e_info)
