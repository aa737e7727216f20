-- ===== src/LogFile/Names.antt =====
-- base/log_file.cpp: the names of the log files. What `strftime` makes of the `gmtime_r` of a
-- time is a parameter.
use xweb.Prelude.{ℕ, List, [], ◌∷◌, ◌++◌, Option}
use xweb.ProcessInfo.{hostname}

abbrev suffix : List ℕ
suffix = b'.' ∷ b'l' ∷ b'o' ∷ b'g' ∷ []

-- `getLogFileName` at the time `now`, with SERVER false.
pub get_log_file_name : (ℕ → List ℕ) → List ℕ → Option (List ℕ) → ℕ → List ℕ
get_log_file_name stamp basename host now = ((basename ++ stamp now) ++ hostname host) ++ suffix
