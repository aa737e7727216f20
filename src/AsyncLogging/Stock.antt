-- ===== src/AsyncLogging/Stock.antt =====
-- The buffers that base/async_logging.cpp keeps at hand, and what a producer does with them.
use xweb.Prelude.{
  Yields, ℕ, ◌^◌, ◌<◌, ◌≡◌, refl, ◌⊎◌, inl, inr, List, [], ◌∷◌, ◌++◌, Option, some, none, ltb,
  length, length-append, arith, Bool-cases, ◌∙◌, subst,
}
use xweb.LogStream.{FixedBuffer, new_fixed, avail, reset}
use xweb.LogStream
use xweb.LogStream.Fixed.{IsValid, append_lem, new_fixed-IsValid, length-new_fixed, reset_lem}
use xweb.AsyncLogging.{AsyncLogging, Phase, start, spare, append}

pub record IsSized (size : ℕ) (b : FixedBuffer) : Type 0 where
  pub valid : IsValid b
  pub same : length b.buf ≡ size

-- A buffer that can be filled from the start.
pub record IsEmpty (size : ℕ) (b : FixedBuffer) : Type 0 where
  pub sized : IsSized size b
  pub begin : b.cur ≡ 0

abbrev pub AllSized : ℕ → List FixedBuffer → Type 0
AllSized size [] = Unit
AllSized size (b ∷ bs) = IsSized size b × AllSized size bs

abbrev pub Holds : (FixedBuffer → Type 0) → Option FixedBuffer → Type 0
Holds P o = (b : FixedBuffer) × (o ≡ some b) × P b

-- What the backend holds before its locked region, and behind it: its two spare buffers, and the
-- buffers to write.
abbrev pub Stage : ℕ → Phase → Option FixedBuffer → Option FixedBuffer → List FixedBuffer → Type 0
Stage size Phase.collecting new1 new2 bs =
    (bs ≡ []) × Holds (IsEmpty size) new1 × Holds (IsEmpty size) new2
Stage size Phase.writing new1 new2 bs =
    (new1 ≡ none)
    × AllSized size bs
    × (0 < length bs)
    × (((new2 ≡ none) × (1 < length bs)) ⊎ Holds (IsEmpty size) new2)

-- A producer that has used up the spare buffer has handed one to the backend.
pub record Inv (s : AsyncLogging) : Type 0 where
  pub positive : 0 < s.size
  pub small : s.size < 2 ^ 31
  pub current : Holds (IsSized s.size) s.current_buffer
  pub spared :
      ((s.next_buffer ≡ none) × (0 < length s.buffers)) ⊎ Holds (IsEmpty s.size) s.next_buffer
  pub filled : AllSized s.size s.buffers
  pub stage : Stage s.size s.phase s.new_buffer1 s.new_buffer2 s.buffers_to_write

pub AllSized-append :
    (size : ℕ) (xs ys : List FixedBuffer)
    → AllSized size xs
    → AllSized size ys
    → AllSized size (xs ++ ys)
AllSized-append size [] ys p q = q
AllSized-append size (x ∷ xs) ys p q = (p.0, AllSized-append size xs ys p.1 q)

pub new_fixed-IsEmpty : (size : ℕ) → 0 < size → size < 2 ^ 31 → IsEmpty size (new_fixed size)
new_fixed-IsEmpty size h k = record {
  sized = record { valid = (new_fixed-IsValid size h k).0; same = (length-new_fixed size).0 };
  begin = (length-new_fixed size).1;
}

pub reset-IsEmpty : {size : ℕ} {b : FixedBuffer} → IsSized size b → IsEmpty size (reset b)
reset-IsEmpty s =
    let (valid, same, begin) = reset_lem s.valid in
    record { sized = record { valid = valid; same = same ∙ s.same }; begin = begin }

pub start-Inv : (size : ℕ) → 0 < size → size < 2 ^ 31 → Inv (start size)
unfolding start
start-Inv size h k =
    let e = new_fixed-IsEmpty size h k in
    record {
      positive = h;
      small = k;
      current = (_, refl, e.sized);
      spared = inr (_, refl, e);
      filled = tt;
      stage = (refl, (_, refl, e), (_, refl, e));
    }

-- Appending a line to a sized buffer.
pub append-IsSized :
    {size : ℕ} {b : FixedBuffer}
    → IsSized size b
    → (line : List ℕ) → length line < 2 ^ 31
    → Yields (LogStream.append b line) (IsSized size)
append-IsSized {size} {b} s line h =
    let (b', done, (valid, same, _)) = append_lem s.valid line h in
    (b', done, record { valid = valid; same = same ∙ s.same })

pub spare-IsEmpty : {s : AsyncLogging} → Inv s → IsEmpty s.size (spare s.size s.next_buffer)
spare-IsEmpty {s} v = elim v.spared [
  | inl p ↦ rw p.0 (new_fixed-IsEmpty s.size v.positive v.small)
  | inr (b, e, p) ↦ rw e p
]

pub append-Inv :
    {s : AsyncLogging} → Inv s → (line : List ℕ) → length line < 2 ^ 31 → Yields (append s line) Inv
unfolding append
append-Inv {s} v line h =
    let (c, held, sized) = v.current in
    elim (Bool-cases (ltb (length line) (avail c))) [
      | inl fits ↦
          let (c', done, sized') = append-IsSized sized line h in
          (
            record s { current_buffer = some c' },
            rw (held, append, fits, done) refl,
            record {
              positive = v.positive;
              small = v.small;
              current = (c', refl, sized');
              spared = v.spared;
              filled = v.filled;
              stage = v.stage;
            },
          )
      | inr full ↦
          let (c', done, sized') = append-IsSized (spare-IsEmpty v).sized line h in
          (
            record s {
              buffers = s.buffers ++ c ∷ [];
              current_buffer = some c';
              next_buffer = none;
            },
            rw (held, append, full, done) refl,
            record {
              positive = v.positive;
              small = v.small;
              current = (c', refl, sized');
              spared = inl (refl, omega (arith, length-append s.buffers (c ∷ [])));
              filled = AllSized-append s.size s.buffers (c ∷ []) v.filled (sized, tt);
              stage = v.stage;
            },
          )
    ]

pub Stage-at :
    {s : AsyncLogging} {p : Phase}
    → Inv s
    → s.phase ≡ p
    → Stage s.size p s.new_buffer1 s.new_buffer2 s.buffers_to_write
Stage-at {s} v e =
    subst (λ q. Stage s.size q s.new_buffer1 s.new_buffer2 s.buffers_to_write) e v.stage
