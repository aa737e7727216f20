-- ===== src/AsyncLogging/Conserve.antt =====
-- No log line of base/async_logging.cpp is lost, doubled or moved, unless the backend falls so far
-- behind that it drops buffers.
use xweb.Prelude.{
  Yields, ℕ, ◌^◌, ◌≤◌, ◌<◌, ◌≡◌, refl, inl, inr, List, [], ◌∷◌, ◌++◌, Option, some, none, ltb,
  length, arith, true, if◌then◌else◌, Bool-cases, ap, ◌∙◌, sym, subst, append_assoc, append-nil,
}
use mathlib.Core.List.{flatten}
use xweb.LogStream.{FixedBuffer, avail}
use xweb.LogStream
use xweb.LogStream.Fixed.{IsValid, text, append_lem, avail_lem, text_of_empty}
use xweb.AsyncLogging.{
  AsyncLogging, Phase, Event, log, thread, spare, append, taken, written, kept, notice, backend,
  step, run, texts,
}
use xweb.AsyncLogging.Stock.{Inv, IsEmpty, spare-IsEmpty, Stage-at, append-Inv}
use xweb.AsyncLogging.Ready.{collect-Inv, write-Inv}

abbrev pub current_text : Option FixedBuffer → List ℕ
current_text none = []
current_text (some b) = text b

-- The bytes that are not yet written, oldest first.
abbrev pub pending : AsyncLogging → List ℕ
pending s = texts s.buffers_to_write ++ (texts s.buffers ++ current_text s.current_buffer)

abbrev pub all : AsyncLogging → List ℕ
all s = s.output ++ pending s

texts-append : (xs : List FixedBuffer) (b : FixedBuffer) → texts (xs ++ b ∷ []) ≡ texts xs ++ text b
unfolding flatten
texts-append [] b = append-nil (text b)
texts-append (x ∷ xs) b = rw (texts-append xs b) (sym (append_assoc (text x) (texts xs) (text b)))

-- A line that fits into the room left, or into an empty buffer, is written whole.
text-append :
    {b : FixedBuffer}
    → IsValid b
    → (line : List ℕ) → length line < 2 ^ 31
    → ltb (length line) (avail b) ≡ true
    → Yields (LogStream.append b line) (λ b'. text b' ≡ text b ++ line)
text-append {b} v line h fits =
    let (b', done, (_, _, now)) = append_lem v line h in
    (b', done, now ∙ ap (λ w. if w then text b ++ line else text b) fits)

avail_of_empty : {size : ℕ} {b : FixedBuffer} → IsEmpty size b → avail b ≡ size
avail_of_empty {size} {b} e =
    omega (arith, avail_lem e.sized.valid, e.sized.same, ap length (text_of_empty b e.begin))

append_keeps :
    {s : AsyncLogging}
    → Inv s
    → (line : List ℕ) → length line < s.size
    → Yields (append s line) (λ s'. (s'.size ≡ s.size) × (all s' ≡ all s ++ line))
unfolding append
append_keeps {s} v line h =
    let (c, held, sized) = v.current in
    elim (Bool-cases (ltb (length line) (avail c))) [
      | inl fits ↦
          let (c', done, now) = text-append sized.valid line (omega arith) fits in
          (
            record s { current_buffer = some c' },
            rw (held, append, fits, done) refl,
            (refl, simp (now, held, append_assoc)),
          )
      | inr full ↦
          let empty = spare-IsEmpty v in
          let (c', done, now) =
            text-append empty.sized.valid line (omega arith)
              (ground (arith, avail_of_empty empty)) in
          (
            record s {
              buffers = s.buffers ++ c ∷ [];
              current_buffer = some c';
              next_buffer = none;
            },
            rw (held, append, full, done) refl,
            (
              refl,
              simp (
                now,
                held,
                texts-append,
                append_assoc,
                text_of_empty (spare s.size s.next_buffer) empty.begin,
              ),
            ),
          )
    ]

abbrev Kept : AsyncLogging → AsyncLogging → Type 0
Kept s s' = (s'.size ≡ s.size) × (all s' ≡ all s)

taken-Kept :
    {s : AsyncLogging}
    → Inv s
    → s.phase ≡ Phase.collecting
    → (c : FixedBuffer) → s.current_buffer ≡ some c
    → Kept s (taken s c)
unfolding taken flatten
taken-Kept {s} v at_top c held =
    let (clear, (n1, new1, empty1), _) = Stage-at v at_top in
    (
      refl,
      simp (
        new1,
        held,
        clear,
        texts-append,
        append_assoc,
        append-nil,
        text_of_empty n1 empty1.begin,
      ),
    )

kept_few : (bs : List FixedBuffer) → length bs ≤ 25 → (kept bs ≡ bs) × (notice bs ≡ [])
unfolding kept notice
kept_few bs h = (ground arith, ground arith)

written-Kept :
    (s : AsyncLogging) (n1 n2 : FixedBuffer)
    → length s.buffers_to_write ≤ 25
    → Kept s (written s n1 n2)
unfolding written flatten
written-Kept s n1 n2 few = (
  refl,
  simp ((kept_few s.buffers_to_write few).0, (kept_few s.buffers_to_write few).1, append_assoc),
)

backend_keeps :
    (p : Phase) {s : AsyncLogging}
    → Inv s
    → s.phase ≡ p
    → length s.buffers_to_write ≤ 25
    → Yields (backend p s) (λ s'. Inv s' × Kept s s')
unfolding backend
backend_keeps Phase.collecting {s} v e few =
    let (s', done, (after, (c, held, same))) = collect-Inv v e in
    (s', done, (after, rw same (taken-Kept v e c held)))
backend_keeps Phase.writing {s} v e few =
    let (s', done, (after, n1, n2, same)) = write-Inv v e in
    (s', done, (after, rw same (written-Kept s n1 n2 few)))

-- Two statements about what one call returns.
both {ℓ} :
    {A : Type 0} {P Q : A → Type ℓ} (o : Option A)
    → Yields o P
    → Yields o Q
    → Yields o (λ a. P a × Q a)
both {Q = Q} o (a, e, p) (b, f, q) = let same : b ≡ a = cc in (a, e, (p, subst Q same q))

abbrev pub lines : List Event → List ℕ
lines [] = []
lines (log line ∷ es) = line ++ lines es
lines (thread ∷ es) = lines es

-- Every line is shorter than a buffer.
abbrev pub Short : ℕ → List Event → Type 0
Short size [] = Unit
Short size (log line ∷ es) = (length line < size) × Short size es
Short size (thread ∷ es) = Short size es

abbrev pub After {ℓ κ} : {A : Type ℓ} → Option A → (A → Type κ) → Type κ
After none P = Unit
After (some a) P = P a

-- The backend never finds more than 25 buffers to write.
abbrev pub InTime : AsyncLogging → List Event → Type 0
InTime s [] = Unit
InTime s (e ∷ es) = (length s.buffers_to_write ≤ 25) × After (step s e) (λ s'. InTime s' es)

abbrev pub Grown : AsyncLogging → List ℕ → AsyncLogging → Type 0
Grown s added s' = Inv s' × (s'.size ≡ s.size) × (all s' ≡ all s ++ added)

pub append-Grown :
    {s : AsyncLogging}
    → Inv s
    → (line : List ℕ) → length line < s.size
    → Yields (append s line) (Grown s line)
append-Grown {s} v line h =
    let small : length line < 2 ^ 31 = omega (arith, v.small) in
    let (s', done, (after, (size, same))) =
      both (append s line) (append-Inv v line small) (append_keeps v line h) in
    (s', done, (after, size, same))

pub backend-Grown :
    {s : AsyncLogging}
    → Inv s
    → length s.buffers_to_write ≤ 25
    → Yields (backend s.phase s) (Grown s [])
backend-Grown {s} v few =
    let (s', done, (after, (size, same))) = backend_keeps s.phase v refl few in
    (s', done, (after, size, same ∙ sym (append-nil (all s))))

step_keeps :
    (e : Event) {s : AsyncLogging}
    → Inv s
    → Short s.size (e ∷ [])
    → length s.buffers_to_write ≤ 25
    → Yields (step s e) (Grown s (lines (e ∷ [])))
unfolding step
step_keeps (log line) {s} v h few =
    subst (λ l. Yields (append s line) (Grown s l)) (sym (append-nil line))
      (append-Grown v line h.0)
step_keeps thread {s} v h few = backend-Grown v few

-- Whatever the interleaving, the bytes written and those still held are those held before and the
-- lines logged since, in order: none is lost, doubled or moved.
pub run_keeps :
    (es : List Event) {s : AsyncLogging}
    → Inv s
    → Short s.size es
    → InTime s es
    → Yields (run s es) (λ s'. all s' ≡ all s ++ lines es)
unfolding run
run_keeps [] {s} v h few = (s, refl, sym (append-nil (all s)))
run_keeps (log line ∷ es) {s} v h few =
    let (s1, done, (v1, size, one)) = step_keeps (log line) v (h.0, tt) few.0 in
    let (s2, rest, two) = run_keeps es v1 (rw size h.1) (rw done at (few.1)) in
    (s2, rw done rest, two ∙ ap (λ l. l ++ lines es) one ∙ simp (append_assoc, append-nil))
run_keeps (thread ∷ es) {s} v h few =
    let (s1, done, (v1, size, one)) = step_keeps thread v tt few.0 in
    let (s2, rest, two) = run_keeps es v1 (rw size h) (rw done at (few.1)) in
    (s2, rw done rest, two ∙ ap (λ l. l ++ lines es) one ∙ simp (append_assoc, append-nil))
