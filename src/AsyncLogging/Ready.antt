-- ===== src/AsyncLogging/Ready.antt =====
-- The buffers that the producers and the backend of base/async_logging.cpp hand to each other are
-- always at hand.
use xweb.Prelude.{
  ap, suc, min, length-take, Yields, ℕ, ◌+◌, ◌^◌, ◌≤◌, ◌<◌, ◌≡◌, refl, inl, inr, List, [], ◌∷◌,
  some, none, length, take, length-append, arith, zero, ◌∙◌,
}
use xweb.LogStream.{FixedBuffer, reset}
use xweb.AsyncLogging.{
  taken, written, resize_two, AsyncLogging, Phase, Event, log, thread, collect, write, kept,
  backend, step, run, pop_back, refill,
}
use xweb.AsyncLogging.Stock.{
  AllSized-append, IsSized, IsEmpty, AllSized, Holds, Inv, reset-IsEmpty, append-Inv, Stage-at,
}

-- The backend's locked region, from the start of its loop.
pub collect-Inv :
    {s : AsyncLogging}
    → Inv s
    → s.phase ≡ Phase.collecting
    → Yields (collect s) (λ s'. Inv s' × Holds (λ c. s' ≡ taken s c) s.current_buffer)
unfolding collect taken
collect-Inv {s} v at_top =
    let (c, held, sized) = v.current in
    let (clear, (n1, new1, empty1), (n2, new2, empty2)) = Stage-at v at_top in
    let all = AllSized-append s.size s.buffers (c ∷ []) v.filled (sized, tt) in
    let count = length-append s.buffers (c ∷ []) in
    (
      taken s c,
      rw (new1, new2, clear, held, collect) (ground (arith, empty1.begin, empty2.begin)),
      (
        record {
          positive = v.positive;
          small = v.small;
          current = (n1, new1, empty1.sized);
          spared = inr (elim v.spared [
            | inl (gone, more) ↦ (n2, rw (gone, new2) refl, empty2)
            | inr (b, one, empty) ↦ (b, rw one refl, empty)
          ]);
          filled = tt;
          stage = (
            refl,
            all,
            omega (arith, count),
            elim v.spared [
              | inl (gone, more) ↦ inl (rw gone refl, omega (arith, count))
              | inr (b, one, empty) ↦ inr (n2, rw (one, new2) refl, empty2)
            ],
          );
        },
        (c, held, refl),
      ),
    )

pop_back_lem :
    (size : ℕ) (bs : List FixedBuffer)
    → AllSized size bs
    → 0 < length bs
    → Yields
        (pop_back bs)
        (λ r. IsSized size r.0 × AllSized size r.1 × (length r.1 + 1 ≡ length bs))
pop_back_lem size [] a h = absurd (omega arith)
pop_back_lem size (b ∷ []) a h = (_, refl, (a.0, tt, omega arith))
pop_back_lem size (b ∷ c ∷ bs) a h =
    let (r, done, (last, rest, count)) = pop_back_lem size (c ∷ bs) a.1 (omega arith) in
    ((r.0, b ∷ r.1), rw done refl, (last, (a.0, rest), omega arith))

refill_lem :
    (size : ℕ) (bs : List FixedBuffer)
    → AllSized size bs
    → 0 < length bs
    → Yields
        (refill none bs)
        (λ r. IsEmpty size r.0 × AllSized size r.1 × (length r.1 + 1 ≡ length bs))
refill_lem size bs a h =
    let (r, done, (last, rest, count)) = pop_back_lem size bs a h in
    ((reset r.0, r.1), rw done refl, (reset-IsEmpty last, rest, count))

take-AllSized : (size n : ℕ) (bs : List FixedBuffer) → AllSized size bs → AllSized size (take n bs)
take-AllSized size zero bs a = tt
take-AllSized size (suc n) [] a = tt
take-AllSized size (suc n) (b ∷ bs) a = (a.0, take-AllSized size n bs a.1)

resize_two_lem :
    (size : ℕ) (bs : List FixedBuffer)
    → AllSized size bs
    → AllSized size (resize_two (kept bs)) × (min 2 (length bs) ≤ length (resize_two (kept bs)))
unfolding resize_two kept
resize_two_lem size bs a =
    ground (arith, length-take 2 bs, take-AllSized size 2 bs a, take-AllSized size 2 (take 2 bs))

written-Inv :
    {s : AsyncLogging} {n1 n2 : FixedBuffer}
    → Inv s
    → IsEmpty s.size n1
    → IsEmpty s.size n2
    → Inv (written s n1 n2)
unfolding written
written-Inv v e1 e2 = record {
  positive = v.positive;
  small = v.small;
  current = v.current;
  spared = v.spared;
  filled = v.filled;
  stage = (refl, (_, refl, e1), (_, refl, e2));
}

write_lem :
    (s : AsyncLogging) (r1 r2 : FixedBuffer × List FixedBuffer)
    → 0 < length s.buffers_to_write
    → refill s.new_buffer1 (resize_two (kept s.buffers_to_write)) ≡ some r1
    → refill s.new_buffer2 r1.1 ≡ some r2
    → write s ≡ some (written s r1.0 r2.0)
unfolding write
write_lem s r1 r2 h e1 e2 = rw (write, e1, e2) (ground arith)

-- The rest of the loop's body finds a buffer for each of the two spares that it lacks.
pub write-Inv :
    {s : AsyncLogging}
    → Inv s
    → s.phase ≡ Phase.writing
    → Yields
        (write s)
        (λ s'. Inv s' × (n1 : FixedBuffer) × (n2 : FixedBuffer) × (s' ≡ written s n1 n2))
write-Inv {s} v at_end =
    let (moved, sized, some_left, second) = Stage-at v at_end in
    let (sized2, count2) = resize_two_lem s.size s.buffers_to_write sized in
    let (r1, done1, (empty1, rest, left)) =
      refill_lem s.size (resize_two (kept s.buffers_to_write)) sized2 (omega (arith, count2)) in
    let first = ap (λ o. refill o (resize_two (kept s.buffers_to_write))) moved ∙ done1 in
    elim second [
      | inl (gone, two) ↦
          let (r2, done2, (empty2, _, _)) = refill_lem s.size r1.1 rest (omega (arith, count2)) in
          (
            written s r1.0 r2.0,
            write_lem s r1 r2 some_left first (ap (λ o. refill o r1.1) gone ∙ done2),
            (written-Inv v empty1 empty2, _, _, refl),
          )
      | inr (n2, new2, empty2) ↦ (
        written s r1.0 n2,
        write_lem s r1 (n2, r1.1) some_left first (ap (λ o. refill o r1.1) new2),
        (written-Inv v empty1 empty2, _, _, refl),
      )
    ]

pub backend-Inv : (p : Phase) {s : AsyncLogging} → Inv s → s.phase ≡ p → Yields (backend p s) Inv
unfolding backend
backend-Inv Phase.collecting v e = let (s', done, after) = collect-Inv v e in (s', done, after.0)
backend-Inv Phase.writing v e = let (s', done, after) = write-Inv v e in (s', done, after.0)

abbrev pub Loggable : List Event → Type 0
Loggable [] = Unit
Loggable (log line ∷ es) = (length line < 2 ^ 31) × Loggable es
Loggable (thread ∷ es) = Loggable es

-- One step of a producer or of the backend passes every `assert`, and leaves both what they need.
pub step-Inv : {s : AsyncLogging} (e : Event) → Inv s → Loggable (e ∷ []) → Yields (step s e) Inv
unfolding step
step-Inv (log line) v h = append-Inv v line h.0
step-Inv {s} thread v h = backend-Inv s.phase v refl

-- From the start, no interleaving of producers and backend fails an `assert` or leaves an array.
pub run-Inv : (es : List Event) {s : AsyncLogging} → Inv s → Loggable es → Yields (run s es) Inv
unfolding run
run-Inv [] {s} v h = (s, refl, v)
run-Inv (log line ∷ es) v h =
    let (s1, done, v1) = step-Inv (log line) v (h.0, tt) in
    let (s2, rest, v2) = run-Inv es v1 h.1 in (s2, rw done rest, v2)
run-Inv (thread ∷ es) v h =
    let (s1, done, v1) = step-Inv thread v tt in
    let (s2, rest, v2) = run-Inv es v1 h in (s2, rw done rest, v2)
