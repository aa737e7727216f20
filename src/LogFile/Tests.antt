-- ===== src/LogFile/Tests.antt =====
-- A log file that rolls behind a line, and one whose memory was not zero.
use xweb.Prelude.{Yields, ◌≡◌, refl, [], ◌∷◌, ◌++◌, some, arith}
use xweb.LogFile
use xweb.LogFile.{AppendFile, LogFile, new_log_file, new_file, after_append, period}
use xweb.LogFile.Order.{logged, Progress, append-logged}

abbrev open_file : AppendFile
open_file = record { bytes = b'a' ∷ b'b' ∷ []; written_bytes = 2 }

abbrev log : LogFile
log = record {
  roll_size = 3;
  flush_interval = 3;
  check_every_n = 1024;
  start_of_period = 0;
  last_roll = 100;
  last_flush = 100;
  count = 0;
  file = some open_file;
  closed = [];
  flushes = 0;
}

append-logged_example :
    Yields (LogFile.append log (b'c' ∷ b'd' ∷ []) (1 ∷ 1 ∷ 1 ∷ []) 200 200) (λ l'.
      (logged l' ≡ logged log ++ b'c' ∷ b'd' ∷ []) × ((f' : AppendFile) × (l'.file ≡ some f')))
unfolding Progress
append-logged_example =
    append-logged log open_file (b'c' ∷ b'd' ∷ []) 1 (1 ∷ 1 ∷ []) 200 200 refl
      (omega arith, (omega arith, tt)) (omega arith)
