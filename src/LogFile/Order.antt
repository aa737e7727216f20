-- ===== src/LogFile/Order.antt =====
-- base/log_file.cpp: the lines of all files together.
use xweb.Prelude.{
  Yields, ℕ, zero, suc, ◌+◌, ◌-◌, ◌%◌, ◌^◌, ◌≤◌, ◌<◌, ◌≡◌, refl, sym, ap, ◌∙◌, List, [], ◌∷◌, ◌++◌,
  none, some, ltb, ◌==◌, length, take, drop, arith, append-nil, append_assoc, length-drop,
  take-append-drop, Bool-cases, inl, inr,
}
use xweb.LogFile
use xweb.LogFile.{
  AppendFile, LogFile, new_file, write_rest, append_file, roll_file, new_log_file, check_time,
  after_append, kept_files, due, period,
}

-- The bytes of a list of files, in order.
pub bytes_in : List AppendFile → List ℕ
bytes_in [] = []
bytes_in (f ∷ fs) = f.bytes ++ bytes_in fs

-- What was logged, over all files.
pub logged : LogFile → List ℕ
unfolding bytes_in
logged l = bytes_in (l.closed ++ kept_files l.file)

bytes_in-append : (fs gs : List AppendFile) → bytes_in (fs ++ gs) ≡ bytes_in fs ++ bytes_in gs
unfolding bytes_in
bytes_in-append [] gs = refl
bytes_in-append (f ∷ fs) gs = rw (bytes_in-append fs gs) (sym (append_assoc f.bytes _ _))

-- The same bytes, in files of which one is open.
pub Same : LogFile → LogFile → Type 0
Same l l' = (logged l' ≡ logged l) × ((f : AppendFile) × (l'.file ≡ some f))

roll_file-Same :
    (l : LogFile) (f : AppendFile) (now : ℕ) → l.file ≡ some f → Same l (roll_file l now)
unfolding roll_file logged bytes_in Same new_file
roll_file-Same l f now h = elim (Bool-cases (ltb l.last_roll now)) [
  | inl e ↦ rw e (
    bytes_in-append (l.closed ++ kept_files l.file) (new_file ∷ [])
        ∙ append-nil (bytes_in (l.closed ++ kept_files l.file)),
    (new_file, refl),
  )
  | inr e ↦ rw e (refl, (f, h))
]

Same-files :
    (l l' : LogFile) (f : AppendFile)
    → l'.closed ≡ l.closed
    → l'.file ≡ l.file
    → l.file ≡ some f
    → Same l l'
unfolding Same logged
Same-files l l' f p q h = (rw (p, q) refl, (f, q ∙ h))

check_time-Same :
    (l : LogFile) (f : AppendFile) (now roll_now : ℕ)
    → l.file ≡ some f
    → Same l (check_time l now roll_now)
unfolding check_time
check_time-Same l f now roll_now h = elim (Bool-cases (period now == l.start_of_period)) [
  | inr e ↦ rw e (roll_file-Same l f roll_now h)
  | inl e ↦ elim (Bool-cases (ltb l.flush_interval (now - l.last_flush))) [
    | inl late ↦
        rw (e, late)
          (Same-files l (record l { last_flush = now; flushes = suc l.flushes }) f refl refl h)
    | inr early ↦ rw (e, early) (Same-files l l f refl refl h)
  ]
]

recounted : (l l' : LogFile) → Same (record l { count = 0 }) l' → Same l l'
unfolding Same logged
recounted l l' s = s

after_append-Same :
    (l : LogFile) (f : AppendFile) (written now roll_now : ℕ)
    → l.file ≡ some f
    → Same l (after_append l written now roll_now)
unfolding after_append
after_append-Same l f written now roll_now h = elim (Bool-cases (ltb l.roll_size written)) [
  | inl e ↦ rw e (roll_file-Same l f roll_now h)
  | inr e ↦ elim (Bool-cases (due ((l.count + 1) % 2 ^ 32) l.check_every_n)) [
    | inl check ↦
        rw (e, check) (recounted l _ (check_time-Same (record l { count = 0 }) f now roll_now h))
    | inr wait ↦
        rw (e, wait) (Same-files l (record l { count = (l.count + 1) % 2 ^ 32 }) f refl refl h)
  ]
]

-- Calls of `fwrite` that all take something.
unfoldable pub Progress : List ℕ → Type 0
Progress [] = Unit {0}
Progress (n ∷ ns) = (0 < n) × Progress ns

write_rest_lem :
    (bytes ds writes : List ℕ)
    → Progress writes
    → length ds ≤ length writes
    → write_rest bytes ds writes ≡ some (bytes ++ ds)
unfolding write_rest Progress
write_rest_lem bytes [] writes p h = ap some (sym (append-nil bytes))
write_rest_lem bytes (d ∷ ds) [] p h = absurd (omega arith)
write_rest_lem bytes (d ∷ ds) (zero ∷ writes) p h = absurd (omega (arith, p.0))
write_rest_lem bytes (d ∷ ds) (suc n ∷ writes) p h =
    write_rest_lem (bytes ++ d ∷ take n ds) (drop n ds) writes p.1 (omega (arith, length-drop n ds))
    ∙ ap some (
        append_assoc bytes (d ∷ take n ds) (drop n ds)
        ∙ ap (λ es. bytes ++ d ∷ es) (take-append-drop n ds))

abbrev longer : AppendFile → List ℕ → AppendFile
longer f logline = record {
  bytes = f.bytes ++ logline;
  written_bytes = f.written_bytes + length logline;
}

append_file_lem :
    (f : AppendFile) (logline : List ℕ) (n : ℕ) (writes : List ℕ)
    → Progress writes
    → length logline ≤ length writes
    → append_file f logline (n ∷ writes) ≡ some (longer f logline)
unfolding append_file
append_file_lem f logline n writes p enough =
    rw
      (write_rest_lem (f.bytes ++ take n logline) (drop n logline) writes p
        (omega (arith, length-drop n logline, enough)))
      (ap (λ es. some (record { bytes = es; written_bytes = f.written_bytes + length logline }))
        (append_assoc f.bytes (take n logline) (drop n logline)
          ∙ ap (λ es. f.bytes ++ es) (take-append-drop n logline)))

logged-longer :
    (l : LogFile) (f : AppendFile) (logline : List ℕ)
    → l.file ≡ some f
    → logged (record l { file = some (longer f logline) }) ≡ logged l ++ logline
unfolding logged bytes_in
logged-longer l f logline h =
    rw
      (
        h,
        bytes_in-append l.closed (longer f logline ∷ []),
        bytes_in-append l.closed (f ∷ []),
        append-nil (f.bytes ++ logline),
        append-nil f.bytes,
      )
      (sym (append_assoc (bytes_in l.closed) f.bytes logline))

-- With an open file, and calls of `fwrite` that each take something and are enough of them,
-- `append` does not stop, wherever it rolls or flushes: the bytes of all files together are
-- those before and the line behind them, and a file is open again.
pub append-logged :
    (l : LogFile) (f : AppendFile) (logline : List ℕ) (n : ℕ) (writes : List ℕ) (now roll_now : ℕ)
    → l.file ≡ some f
    → Progress writes
    → length logline ≤ length writes
    → Yields
        (LogFile.append l logline (n ∷ writes) now roll_now)
        (λ l'. (logged l' ≡ logged l ++ logline) × ((f' : AppendFile) × (l'.file ≡ some f')))
unfolding LogFile.append Same
append-logged l f logline n writes now roll_now h p enough =
    let l1 = record l { file = some (longer f logline) } in
    let written = f.written_bytes + length logline in
    let (same, open_file) = after_append-Same l1 (longer f logline) written now roll_now refl in
    (
      after_append l1 written now roll_now,
      rw (h, append_file_lem f logline n writes p enough) refl,
      (same ∙ logged-longer l f logline h, open_file),
    )

-- The constructor compares the time with a member that it has not set: where that is not below
-- the time, no file is opened, and every `append` stops.
pub new_log_file-null :
    (roll_size flush_interval check_every_n start roll flush count now : ℕ)
    → now ≤ roll
    → (logline writes : List ℕ) (later roll_now : ℕ)
    → LogFile.append
        (new_log_file roll_size flush_interval check_every_n (start, roll, flush, count) now)
        logline
        writes
        later
        roll_now
      ≡ none
unfolding new_log_file roll_file LogFile.append
new_log_file-null roll_size flush_interval check_every_n start roll flush count now h logline writes
      later roll_now =
    elim (Bool-cases (ltb roll now)) [ inl e ↦ absurd (ground (arith, e, h)) | inr e ↦ rw e refl ]
