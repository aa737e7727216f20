-- ===== src/Logger/Program.antt =====
-- base/logger.h and base/logger.cpp: the lines that a whole program logs.
use xweb.Prelude.{
  Yields, ℕ, ◌+◌, ◌^◌, ◌<◌, ◌≤◌, ◌≡◌, refl, sym, ap, ◌∙◌, inl, inr, ◌⊎◌, List, [], ◌∷◌, ◌++◌,
  Option, some, none, Bool, true, false, length, if◌then◌else◌, ◌>>=◌, arith, Option-cases,
  Bool-cases, ◌||◌, leb, length-take, append_assoc, append-nil,
}
use xweb.LogStream.{small_buffer, max_numeric_size}
use xweb.LogStream.Fixed.{
  IsValid, text, new_fixed-IsValid, avail_lem, length-new_fixed, length-text,
}
use xweb.LogStream.Insert.{char, shown_all, AllInRange, insert_all_lem}
use xweb.LogStream.Chain.{insert_all-IsValid, AllInRange-append}
use xweb.Logger.{
  LogLevel, e_trace, e_debug, e_info, e_warn, e_error, e_fatal, level_index, Entry, Logging,
  is_fatal, time_text, three_digits, source_array, behind_slash, enabled, log, Use, set_level, logs,
  run,
}
use xweb.Logger.Lines.{
  parts, time_items, func_items, written_lem, log-written, finished, empty, impl_items, level_items,
  line_items, file_item,
}

-- What the C++ types hold.
unfoldable pub InRange : Entry → Type 0
InRange e =
    (length e.file < 2 ^ 31) × (e.line < 2 ^ 31) × (length e.func < 2 ^ 31) × AllInRange e.items

-- A line that leaves 32 bytes of the stream's array free.
unfoldable pub Fits : Entry → Type 0
Fits e = InRange e × (length (shown_all (parts e)) + max_numeric_size ≤ small_buffer)

source_array-size : (arr : List ℕ) → (source_array arr).size ≤ length arr
unfolding source_array
source_array-size arr = elim (Option-cases (behind_slash arr)) [
  | inl e ↦ ground (arith, e)
  | inr (rest, e) ↦ ground (arith, e)
]

time_items-AllInRange : (time : Option (List ℕ × ℕ)) → AllInRange (time_items time)
unfolding time_items time_text
time_items-AllInRange none = tt
time_items-AllInRange (some (date, ms)) =
    omega (arith, length-take 63 (date ++ b'.' ∷ three_digits ms))

level_items-AllInRange : (level : LogLevel) → AllInRange (level_items level)
level_items-AllInRange e_trace = omega arith
level_items-AllInRange e_debug = omega arith
level_items-AllInRange e_info = omega arith
level_items-AllInRange e_warn = omega arith
level_items-AllInRange e_error = omega arith
level_items-AllInRange e_fatal = omega arith

func_items-AllInRange :
    (level : LogLevel) (func : List ℕ) → length func < 2 ^ 31 → AllInRange (func_items level func)
unfolding func_items
func_items-AllInRange e_trace func h = (h, (tt, tt))
func_items-AllInRange e_debug func h = (h, (tt, tt))
func_items-AllInRange e_info func h = tt
func_items-AllInRange e_warn func h = tt
func_items-AllInRange e_error func h = tt
func_items-AllInRange e_fatal func h = tt

file_item-AllInRange :
    (arr : List ℕ) → length arr < 2 ^ 31 → AllInRange (file_item (source_array arr) ∷ [])
file_item-AllInRange arr h =
    omega (
      arith,
      source_array-size arr,
      length-take (source_array arr).size (source_array arr).data_text,
    )

parts-AllInRange : (e : Entry) → InRange e → AllInRange (parts e)
unfolding InRange
parts-AllInRange e (file, line, func, items) =
    AllInRange-append (impl_items e ++ func_items e.level e.func ++ e.items) (char b'\n' ∷ [])
      (AllInRange-append (impl_items e ++ func_items e.level e.func) e.items
        (AllInRange-append (impl_items e) (func_items e.level e.func)
          (AllInRange-append (time_items e.time)
            (level_items e.level ++ (file_item (source_array e.file) ∷ [] ++ line_items e.line))
            (time_items-AllInRange e.time)
            (AllInRange-append (level_items e.level)
              (file_item (source_array e.file) ∷ [] ++ line_items e.line)
              (level_items-AllInRange e.level)
              (AllInRange-append (file_item (source_array e.file) ∷ []) (line_items e.line)
                (file_item-AllInRange e.file file) (omega arith))))
          (func_items-AllInRange e.level e.func func))
        items)
      (omega arith)

empty-IsValid : IsValid empty × (text empty ≡ [])
empty-IsValid = new_fixed-IsValid small_buffer (omega arith) (omega arith)

-- What a statement writes.
abbrev pub full_line : Entry → List ℕ
full_line e = shown_all (parts e)

pub log_lem :
    (s : Logging) (e : Entry)
    → Fits e
    → log s e ≡ (
        if enabled s.log_level e.level
        then some (record s { outputs = s.outputs ++ full_line e ∷ []; aborted = is_fatal e.level })
        else some s)
unfolding Fits log
log_lem s e (range, room) = elim (Bool-cases (enabled s.log_level e.level)) [
  | inr h ↦ rw h refl
  | inl h ↦ enabled_lem h
]
  where
    enabled_lem :
        enabled s.log_level e.level ≡ true
        → log s e ≡ (
            if enabled s.log_level e.level
            then some
                (record s { outputs = s.outputs ++ full_line e ∷ []; aborted = is_fatal e.level })
            else some s)
    enabled_lem h =
        let (valid, blank) = empty-IsValid in
        let (b, done, (_, full)) = insert_all_lem (parts e) valid (parts-AllInRange e range) (
          omega
            (arith, room, avail_lem valid, ap length blank, (length-new_fixed small_buffer).0)) in
        log-written s e h ∙ rw (h, written_lem e, done, full, blank) refl

-- Every statement whose texts are shorter than 2 GiB and whose line number fits an int returns,
-- and what it hands to the output, if anything, is shorter than the array.
pub log-bounded :
    (s : Logging) (e : Entry)
    → InRange e
    → Yields (log s e) (λ s'.
      (s' ≡ s) ⊎ ((t : List ℕ) × (s'.outputs ≡ s.outputs ++ t ∷ []) × (length t < small_buffer)))
unfolding log
log-bounded s e range = elim (Bool-cases (enabled s.log_level e.level)) [
  | inr h ↦ (s, rw h refl, inl refl)
  | inl h ↦
      let (b, done, (v, size)) =
        insert_all-IsValid (parts e) empty-IsValid.0 (parts-AllInRange e range) in
      (
        finished s e.level b,
        log-written s e h ∙ rw (written_lem e, done) refl,
        inr (
          text b,
          refl,
          omega (arith, length-text v, v.inside, size, length-new_fixed small_buffer),
        ),
      )
]

-- Whether a statement shows under the level that is set: from WARN on always, below it from that
-- level on.
abbrev pub shows : LogLevel → LogLevel → Bool
shows set level =
    leb (level_index e_warn) (level_index level) || leb (level_index set) (level_index level)

pub enabled-shows : (set level : LogLevel) → enabled set level ≡ shows set level
unfolding enabled level_index
enabled-shows set e_trace = refl
enabled-shows set e_debug = refl
enabled-shows set e_info = refl
enabled-shows set e_warn = refl
enabled-shows set e_error = refl
enabled-shows set e_fatal = refl

-- The lines that a program must log, up to the first FATAL one, and whether there is one.
unfoldable pub reported : LogLevel → List Use → List (List ℕ) × Bool
reported level [] = ([], false)
reported level (set_level set ∷ us) = reported set us
reported level (logs e ∷ us) =
    let rest = reported level us in
    if shows level e.level
    then (if is_fatal e.level then (full_line e ∷ [], true) else (full_line e ∷ rest.0, rest.1))
    else rest

unfoldable pub AllFit : List Use → Type 0
AllFit [] = Unit
AllFit (set_level level ∷ us) = AllFit us
AllFit (logs e ∷ us) = Fits e × AllFit us

-- With lines that fit, a program that has not ended logs, in order, the lines of the statements
-- that show under the levels it sets, up to and with the first FATAL one, and ends there.
pub run-reported :
    (us : List Use) (s : Logging)
    → AllFit us
    → s.aborted ≡ false
    → Yields (run s us) (λ s'.
      (s'.outputs ≡ s.outputs ++ (reported s.log_level us).0)
      × (s'.aborted ≡ (reported s.log_level us).1))
unfolding run reported AllFit
run-reported [] s h live = (s, refl, (sym (append-nil s.outputs), live))
run-reported (set_level level ∷ us) s h live =
    run-reported us (record s { log_level = level }) h live
run-reported (logs e ∷ us) s h live = elim (Bool-cases (shows s.log_level e.level)) [
  | inr p ↦
      let (s', done, (lines, ended)) = run-reported us s h.1 live in
      (s', go_on s (step ∙ rw p refl) live ∙ done, rw p (lines, ended))
  | inl p ↦ elim (Bool-cases (is_fatal e.level)) [
    | inl q ↦ (next, rw (step, p, q) refl, rw (p, q) (refl, refl))
    | inr q ↦
        let (s', done, (lines, ended)) =
          run-reported us (record next { aborted = false }) h.1 refl in
        (
          s',
          go_on (record next { aborted = false }) (step ∙ rw (p, q) refl) refl ∙ done,
          rw (p, q)
              (
                lines ∙ append_assoc s.outputs (full_line e ∷ []) (reported s.log_level us).0,
                ended,
              ),
        )
  ]
]
  where
    next : Logging
    next = record s { outputs = s.outputs ++ full_line e ∷ []; aborted = is_fatal e.level }

    step : log s e ≡ (if shows s.log_level e.level then some next else some s)
    step =
        log_lem s e h.0
        ∙ ap (λ (b : Bool). if b then some next else some s) (enabled-shows s.log_level e.level)

    go_on : (t : Logging) → log s e ≡ some t → t.aborted ≡ false → run s (logs e ∷ us) ≡ run t us
    go_on t p l =
        ap (λ (o : Option Logging). o >>= λ s'. if s'.aborted then some s' else run s' us) p
        ∙ ap (λ (b : Bool). if b then some t else run t us) l
