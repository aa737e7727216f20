-- ===== src/Logger/Lines.antt =====
-- base/logger.cpp: the lines that a program logs.
use xweb.Prelude.{
  ℕ, ◌≡◌, refl, sym, ◌∙◌, List, [], ◌∷◌, ◌++◌, Option, some, none, true, take, ◌>>=◌,
}
use xweb.Prelude.Int.{pos}
use xweb.LogStream.{FixedBuffer, new_fixed, small_buffer}
use xweb.LogStream.Fixed.{text}
use xweb.LogStream.Insert.{Item, char, c_string, integer, string, insert, insert_all}
use xweb.LogStream.Chain.{Inserts, then-Inserts, one_insert}
use xweb.Logger.{
  LogLevel, e_trace, e_debug, log_level_name, SourceFile, source_array, put_source, time_text,
  format_time, new_impl, Entry, put_func, e_info, e_warn, e_error, e_fatal, new_logger, Logging,
  is_fatal, destroy, enabled, log,
}

unfoldable pub time_items : Option (List ℕ × ℕ) → List Item
time_items none = []
time_items (some (date, ms)) = c_string (some (time_text date ms)) ∷ []

unfoldable pub func_items : LogLevel → List ℕ → List Item
func_items e_trace func = c_string (some func) ∷ char b' ' ∷ []
func_items e_debug func = c_string (some func) ∷ char b' ' ∷ []
func_items _ func = []

abbrev pub level_items : LogLevel → List Item
level_items level =
    char b'|' ∷ c_string (some (log_level_name level)) ∷ c_string (some (b'|' ∷ [])) ∷ []

abbrev pub file_item : SourceFile → Item
file_item file = string (take file.size file.data_text)

abbrev pub line_items : ℕ → List Item
line_items line = char b':' ∷ integer (pos line) ∷ char b' ' ∷ []

-- What `Impl` inserts.
abbrev pub impl_items : Entry → List Item
impl_items e =
    time_items e.time
    ++ (level_items e.level ++ (file_item (source_array e.file) ∷ [] ++ line_items e.line))

-- The parts of a line.
abbrev pub parts : Entry → List Item
parts e = impl_items e ++ func_items e.level e.func ++ e.items ++ (char b'\n' ∷ [])

abbrev pub empty : FixedBuffer
empty = new_fixed small_buffer

format_time-Inserts :
    (time : Option (List ℕ × ℕ)) → Inserts (λ b. format_time b time) (time_items time)
unfolding format_time time_items insert_all Inserts
format_time-Inserts none b = refl
format_time-Inserts (some (date, ms)) b =
    one_insert (λ b. insert b (c_string (some (time_text date ms))))
      (c_string (some (time_text date ms))) (λ b. refl) b

put_func-Inserts :
    (level : LogLevel) (func : List ℕ) → Inserts (put_func level func) (func_items level func)
unfolding put_func func_items insert_all Inserts
put_func-Inserts e_trace func b = refl
put_func-Inserts e_debug func b = refl
put_func-Inserts e_info func b = refl
put_func-Inserts e_warn func b = refl
put_func-Inserts e_error func b = refl
put_func-Inserts e_fatal func b = refl

put_source-Inserts : (file : SourceFile) → Inserts (λ b. put_source b file) (file_item file ∷ [])
unfolding put_source insert
put_source-Inserts file = one_insert (λ b. put_source b file) (file_item file) (λ b. refl)

insert_all-Inserts : (its : List Item) → Inserts (λ b. insert_all b its) its
unfolding Inserts
insert_all-Inserts its b = refl

new_impl_lem :
    (e : Entry)
    → new_impl e.level (source_array e.file) e.line e.time ≡ insert_all empty (impl_items e)
unfolding new_impl Inserts
new_impl_lem e =
    then-Inserts (format_time empty e.time) empty
      (λ b. insert_all b (level_items e.level) >>= λ b.
        put_source b file >>= λ b. insert_all b (line_items e.line))
      (time_items e.time) (level_items e.level ++ (file_item file ∷ [] ++ line_items e.line))
      (format_time-Inserts e.time empty)
      (λ b.
        then-Inserts (insert_all b (level_items e.level)) b
          (λ b. put_source b file >>= λ b. insert_all b (line_items e.line)) (level_items e.level)
          (file_item file ∷ [] ++ line_items e.line) refl
          (λ b.
            then-Inserts (put_source b file) b (λ b. insert_all b (line_items e.line))
              (file_item file ∷ []) (line_items e.line) (put_source-Inserts file b)
              (insert_all-Inserts (line_items e.line))))
  where
    file : SourceFile
    file = source_array e.file

-- The stream of a statement, before its destructor.
pub written : Entry → Option FixedBuffer
written e = new_logger e >>= (λ b. insert_all b e.items) >>= (λ b. insert b (char b'\n'))

pub written_lem : (e : Entry) → written e ≡ insert_all empty (parts e)
unfolding written new_logger
written_lem e =
    then-Inserts (new_logger e >>= (λ b. insert_all b e.items)) empty (λ b. insert b (char b'\n'))
      (impl_items e ++ func_items e.level e.func ++ e.items) (char b'\n' ∷ [])
      (then-Inserts (new_logger e) empty (λ b. insert_all b e.items)
        (impl_items e ++ func_items e.level e.func) e.items
        (then-Inserts (new_impl e.level (source_array e.file) e.line e.time) empty
          (put_func e.level e.func) (impl_items e) (func_items e.level e.func) (new_impl_lem e)
          (put_func-Inserts e.level e.func))
        (insert_all-Inserts e.items))
      (one_insert (λ b. insert b (char b'\n')) (char b'\n') (λ b. refl))

bind_assoc :
    (o : Option FixedBuffer) (f : FixedBuffer → Option FixedBuffer)
    (g : FixedBuffer → Option Logging)
    → (o >>= f >>= g) ≡ (o >>= λ b. f b >>= g)
bind_assoc none f g = refl
bind_assoc (some b) f g = refl

-- What the destructor makes of the state.
abbrev pub finished : Logging → LogLevel → FixedBuffer → Logging
finished s level b = record s { outputs = s.outputs ++ text b ∷ []; aborted = is_fatal level }

pub log-written :
    (s : Logging) (e : Entry)
    → enabled s.log_level e.level ≡ true
    → log s e ≡ (written e >>= λ b. some (finished s e.level b))
unfolding log written destroy
log-written s e h = rw h (
    sym (
      bind_assoc (new_logger e >>= (λ b. insert_all b e.items)) (λ b. insert b (char b'\n'))
        (λ b. some (finished s e.level b))
      ∙ bind_assoc (new_logger e) (λ b. insert_all b e.items)
          (λ b. insert b (char b'\n') >>= λ b. some (finished s e.level b))))
