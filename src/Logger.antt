-- ===== src/Logger.antt =====
-- base/logger.h and base/logger.cpp: what a log statement writes. The text of the time, which the C
-- library makes, is an argument; `none` is a write that leaves the array of the stream.
pub mod Names
pub mod Lines
pub mod Program
mod Tests
use xweb.Prelude.{
  ℕ, suc, ◌-◌, List, [], ◌∷◌, ◌++◌, Option, none, some, Bool, true, false, leb, ◌==◌, if◌then◌else◌,
  length, take, replicate, ◌>>=◌,
}
use xweb.Prelude.Int.{pos}
use xweb.LogStream.{FixedBuffer, new_fixed, small_buffer, append, convert}
use xweb.LogStream.Fixed.{text}
use xweb.LogStream.Insert.{Item, char, c_string, integer, insert, insert_all}

-- `Logger::LogLevel`
pub data LogLevel : Type 0 where
  e_trace e_debug e_info e_warn e_error e_fatal : LogLevel

unfoldable pub level_index : LogLevel → ℕ
level_index e_trace = 0
level_index e_debug = 1
level_index e_info = 2
level_index e_warn = 3
level_index e_error = 4
level_index e_fatal = 5

abbrev pub log_level_name : LogLevel → List ℕ
log_level_name e_trace = b'T' ∷ b'R' ∷ b'A' ∷ b'C' ∷ b'E' ∷ []
log_level_name e_debug = b'D' ∷ b'E' ∷ b'B' ∷ b'U' ∷ b'G' ∷ []
log_level_name e_info = b'I' ∷ b'N' ∷ b'F' ∷ b'O' ∷ b' ' ∷ []
log_level_name e_warn = b'W' ∷ b'A' ∷ b'R' ∷ b'N' ∷ b' ' ∷ []
log_level_name e_error = b'E' ∷ b'R' ∷ b'R' ∷ b'O' ∷ b'R' ∷ []
log_level_name e_fatal = b'F' ∷ b'A' ∷ b'T' ∷ b'A' ∷ b'L' ∷ []

abbrev pub slash : ℕ
slash = b'/'

abbrev pub backslash : ℕ
backslash = 92

-- `strrchr`, less one: what follows the last occurrence.
unfoldable pub behind_last : ℕ → List ℕ → Option (List ℕ)
behind_last c [] = none
behind_last c (x ∷ xs) = elim (behind_last c xs) [
  | some rest ↦ some rest
  | none ↦ if x == c then some xs else none
]

-- The text from `data_` to its final 0, and `size_`.
pub record SourceFile : Type 0 where
  pub data_text : List ℕ
  pub size : ℕ

unfoldable pub behind_slash : List ℕ → Option (List ℕ)
unfolding behind_last
behind_slash name = elim (behind_last slash name) [
  | some rest ↦ some rest
  | none ↦ behind_last backslash name
]

-- The constructor from an array, without its final 0.
unfoldable pub source_array : List ℕ → SourceFile
unfolding behind_slash
source_array arr = elim (behind_slash arr) [
  | none ↦ record { data_text = arr; size = length arr }
  | some rest ↦ record { data_text = rest; size = length arr - (length arr - length rest) }
]

-- The constructor from a pointer.
pub source_pointer : List ℕ → SourceFile
unfolding behind_slash
source_pointer filename =
    let found : List ℕ = elim (behind_slash filename) [ none ↦ filename | some rest ↦ rest ] in
    record { data_text = found; size = length found }

-- `operator<<` for a SourceFile.
pub put_source : FixedBuffer → SourceFile → Option FixedBuffer
put_source b file = append b (take file.size file.data_text)

-- "%03d"
pub three_digits : ℕ → List ℕ
three_digits ms = let t = convert (pos ms) in replicate (3 - length t) b'0' ++ t

-- "%s.%03d", of which `timeBufDst` takes 63 bytes.
pub time_text : List ℕ → ℕ → List ℕ
time_text date ms = take 63 (date ++ b'.' ∷ three_digits ms)

-- `formatTime`, by the date and time as `strftime` writes it and the milliseconds, if `localtime_r`
-- knows the time.
pub format_time : FixedBuffer → Option (List ℕ × ℕ) → Option FixedBuffer
unfolding time_text
format_time b none = some b
format_time b (some (date, ms)) = insert b (c_string (some (time_text date ms)))

-- `Impl::Impl`
pub new_impl : LogLevel → SourceFile → ℕ → Option (List ℕ × ℕ) → Option FixedBuffer
unfolding format_time put_source
new_impl level file line time = do
  b ← format_time (new_fixed small_buffer) time
  b ←
      insert_all b
        (char b'|' ∷ c_string (some (log_level_name level)) ∷ c_string (some (b'|' ∷ [])) ∷ [])
  b ← put_source b file
  insert_all b (char b':' ∷ integer (pos line) ∷ char b' ' ∷ [])

-- One log statement: its level, its place, and what it inserts.
pub record Entry : Type 0 where
  pub level : LogLevel
  pub file : List ℕ
  pub line : ℕ
  pub func : List ℕ
  pub time : Option (List ℕ × ℕ)
  pub items : List Item

-- The body of the constructor that the macro of the level calls: LOG_TRACE and LOG_DEBUG give
-- the function.
pub put_func : LogLevel → List ℕ → FixedBuffer → Option FixedBuffer
put_func e_trace func b = insert_all b (c_string (some func) ∷ char b' ' ∷ [])
put_func e_debug func b = insert_all b (c_string (some func) ∷ char b' ' ∷ [])
put_func _ func b = some b

-- The constructors of Logger.
pub new_logger : Entry → Option FixedBuffer
unfolding new_impl put_func
new_logger e = new_impl e.level (source_array e.file) e.line e.time >>= put_func e.level e.func

-- The level that the program set, what `g_output` got, oldest first, and whether the program ended.
pub record Logging : Type 0 where
  pub log_level : LogLevel
  pub outputs : List (List ℕ)
  pub aborted : Bool

unfoldable pub is_fatal : LogLevel → Bool
is_fatal e_fatal = true
is_fatal _ = false

-- `~Logger`
pub destroy : Logging → LogLevel → FixedBuffer → Option Logging
destroy s level b = do
  b ← insert b (char b'\n')
  some (record s { outputs = s.outputs ++ text b ∷ []; aborted = is_fatal level })

-- The test in the macro of a level: LOG_WARN, LOG_ERROR and LOG_FATAL have none.
unfoldable pub enabled : LogLevel → LogLevel → Bool
enabled set e_trace = leb (level_index set) (level_index e_trace)
enabled set e_debug = leb (level_index set) (level_index e_debug)
enabled set e_info = leb (level_index set) (level_index e_info)
enabled set _ = true

unfoldable pub log : Logging → Entry → Option Logging
unfolding new_logger destroy
log s e =
    if enabled s.log_level e.level
    then (do b ← new_logger e; b ← insert_all b e.items; destroy s e.level b)
    else some s

-- What a program does with the logger.
pub data Use : Type 0 where
  set_level : LogLevel → Use
  logs : Entry → Use

-- A program, up to the end that a FATAL statement makes.
pub run : Logging → List Use → Option Logging
unfolding log
run s [] = some s
run s (set_level level ∷ us) = run (record s { log_level = level }) us
run s (logs e ∷ us) = do s' ← log s e; if s'.aborted then some s' else run s' us
