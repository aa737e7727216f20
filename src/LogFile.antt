-- ===== src/LogFile.antt =====
-- base/log_file.h and base/log_file.cpp, with the AppendFile of base/file_util.cpp: the file
-- that log lines go to, and when the next file is begun. What `time` and `fwrite` return is an
-- argument, and times are not negative. `none` is a call through the null `file_`, or an
-- `fwrite` that does not return.
pub mod Order
pub mod Names
mod Tests
use xweb.Prelude.{
  ℕ, zero, suc, ◌+◌, ◌-◌, ◌*◌, ◌/◌, ◌%◌, ◌^◌, List, [], ◌∷◌, ◌++◌, Option, none, some, Bool, true,
  false, ltb, leb, ◌==◌, ◌&&◌, if◌then◌else◌, not, length, take, drop, ◌>>=◌,
}

-- The bytes that `fwrite` took, and `writtenBytes_`.
pub record AppendFile : Type 0 where
  pub bytes : List ℕ
  pub written_bytes : ℕ

pub new_file : AppendFile
new_file = record { bytes = []; written_bytes = 0 }

-- The loop of `AppendFile::append`: what is left of the line, and what each `fwrite` takes of it.
pub write_rest : List ℕ → List ℕ → List ℕ → Option (List ℕ)
write_rest bytes [] writes = some bytes
write_rest bytes (d ∷ ds) [] = none
write_rest bytes (d ∷ ds) (zero ∷ writes) = some bytes
write_rest bytes (d ∷ ds) (suc n ∷ writes) = write_rest (bytes ++ d ∷ take n ds) (drop n ds) writes

-- `AppendFile::append`, whose first `fwrite` may take nothing.
pub append_file : AppendFile → List ℕ → List ℕ → Option AppendFile
unfolding write_rest
append_file f logline [] = none
append_file f logline (n ∷ writes) = do
  bytes ← write_rest (f.bytes ++ take n logline) (drop n logline) writes
  some (record { bytes = bytes; written_bytes = f.written_bytes + length logline })

-- `closed` holds the files that were rolled, oldest first, and `flushes` counts the calls of
-- `fflush`. `count` has the 32 bits of an int.
pub record LogFile : Type 0 where
  pub roll_size : ℕ
  pub flush_interval : ℕ
  pub check_every_n : ℕ
  pub start_of_period : ℕ
  pub last_roll : ℕ
  pub last_flush : ℕ
  pub count : ℕ
  pub file : Option AppendFile
  pub closed : List AppendFile
  pub flushes : ℕ

abbrev pub roll_per_seconds : ℕ
roll_per_seconds = 60 * 60 * 24

abbrev pub period : ℕ → ℕ
period now = now / roll_per_seconds * roll_per_seconds

abbrev pub kept_files : Option AppendFile → List AppendFile
kept_files none = []
kept_files (some f) = f ∷ []

-- `rollFile`, at the time `now`.
pub roll_file : LogFile → ℕ → LogFile
roll_file l now =
    if ltb l.last_roll now
    then record l {
      last_roll = now;
      last_flush = now;
      start_of_period = period now;
      file = some new_file;
      closed = l.closed ++ kept_files l.file;
    }
    else l

-- The constructor. It leaves `startOfPeriod_`, `lastRoll_`, `lastFlush_` and `count_` as the
-- memory has them.
pub new_log_file : ℕ → ℕ → ℕ → (ℕ × ℕ × ℕ × ℕ) → ℕ → LogFile
unfolding roll_file
new_log_file roll_size flush_interval check_every_n (start, roll, flush, count) now =
    roll_file
      (record {
        roll_size = roll_size;
        flush_interval = flush_interval;
        check_every_n = check_every_n;
        start_of_period = start;
        last_roll = roll;
        last_flush = flush;
        count = count;
        file = none;
        closed = [];
        flushes = 0;
      })
      now

-- `count_ >= checkEveryN_`
abbrev pub due : ℕ → ℕ → Bool
due count n = ltb count (2 ^ 31) && leb n count

-- The check of the time, at `now`; `rollFile` reads the time again.
pub check_time : LogFile → ℕ → ℕ → LogFile
unfolding roll_file
check_time l now roll_now =
    if not (period now == l.start_of_period)
    then roll_file l roll_now
    else (if ltb l.flush_interval (now - l.last_flush)
        then record l { last_flush = now; flushes = suc l.flushes }
        else l)

-- `append_unlocked` behind the write to the file.
pub after_append : LogFile → ℕ → ℕ → ℕ → LogFile
unfolding roll_file check_time
after_append l written now roll_now =
    if ltb l.roll_size written
    then roll_file l roll_now
    else (let count = (l.count + 1) % 2 ^ 32 in
        if due count l.check_every_n
        then check_time (record l { count = 0 }) now roll_now
        else record l { count = count })

-- The mutex that `append` takes or not changes nothing here.
pub append : LogFile → List ℕ → List ℕ → ℕ → ℕ → Option LogFile
unfolding append_file after_append
append l logline writes now roll_now = do
  file ← l.file
  file' ← append_file file logline writes
  some (after_append (record l { file = some file' }) file'.written_bytes now roll_now)

pub flush : LogFile → Option LogFile
flush l = l.file >>= λ file. some (record l { flushes = suc l.flushes })
