-- ===== src/AsyncLogging/Life/Places.antt =====
-- base/async_logging.h: `start` and `stop` against the backend thread.
use xweb.Prelude.{
  Yields, ℕ, ◌<◌, ◌^◌, ◌≡◌, refl, List, [], ◌∷◌, Bool, true, false, length, arith, Bool-cases, inl,
  inr, sym, subst,
}
use xweb.Prelude.Int.{ℤ, pos}
use xweb.CountDownLatch.{CountDownLatch, new_latch, positive, is_zero, decrement, count_down}
use xweb.AsyncLogging.{AsyncLogging, Phase}
use xweb.AsyncLogging.Stock.{append-Inv, start-Inv}
use xweb.AsyncLogging.Ready.{backend-Inv}
use xweb.AsyncLogging.Stock
use xweb.AsyncLogging.Life.{
  Owner, Worker, Life, new_life, owner_step, looped, worker_step, Move, move, moves,
}

-- Where owner and backend can stand together, with `running_` and the latch.
unfoldable pub Stands : Owner → Worker → Bool → ℤ → Type 0
Stands Owner.not_started Worker.absent r n = (r ≡ false) × (n ≡ pos 1)
Stands Owner.waiting Worker.beginning r n = (r ≡ true) × (n ≡ pos 1)
Stands Owner.waiting Worker.opening r n = (r ≡ true) × (n ≡ pos 1)
Stands Owner.waiting Worker.testing r n = (r ≡ true) × (n ≡ pos 0)
Stands Owner.waiting Worker.looping r n = (r ≡ true) × (n ≡ pos 0)
Stands Owner.started Worker.testing r n = (r ≡ true) × (n ≡ pos 0)
Stands Owner.started Worker.looping r n = (r ≡ true) × (n ≡ pos 0)
Stands Owner.notifying Worker.testing r n = r ≡ false
Stands Owner.notifying Worker.looping r n = r ≡ false
Stands Owner.notifying Worker.finished r n = r ≡ false
Stands Owner.joining Worker.testing r n = r ≡ false
Stands Owner.joining Worker.looping r n = r ≡ false
Stands Owner.joining Worker.finished r n = r ≡ false
Stands Owner.stopped Worker.finished r n = r ≡ false
Stands o w r n = ⊥

pub record Inv (l : Life) : Type 0 where
  pub stock : Stock.Inv l.logging
  pub stands : Stands l.owner l.worker l.running l.latch.count

owner_step-Stands :
    (o : Owner) (w : Worker) (l : Life)
    → Stands o w l.running l.latch.count
    → (let l' = owner_step o (record l { owner = o; worker = w }) in
        Stands l'.owner l'.worker l'.running l'.latch.count × (l'.logging ≡ l.logging))
unfolding Stands owner_step positive
owner_step-Stands o w l h = ground arith

count-count_down : (l : CountDownLatch) → l.count ≡ pos 1 → (count_down l).count ≡ pos 0
unfolding count_down is_zero decrement
count-count_down l h = rw h refl

looped-Stands :
    (p : Phase) (o : Owner) (l : Life) (s : AsyncLogging)
    → Stands o Worker.looping l.running l.latch.count
    → (let l' = looped p (record l { owner = o; worker = Worker.looping }) s in
        Stands l'.owner l'.worker l'.running l'.latch.count × (l'.logging ≡ s))
unfolding Stands
looped-Stands Phase.collecting o l s h = (h, refl)
looped-Stands Phase.writing o l s h = (ground arith, refl)

looping-Stands :
    (o : Owner) (l : Life)
    → Stands o Worker.looping l.running l.latch.count
    → Stock.Inv l.logging
    → Yields
        (worker_step Worker.looping (record l { owner = o; worker = Worker.looping }))
        (λ l'. Stands l'.owner l'.worker l'.running l'.latch.count × Stock.Inv l'.logging)
unfolding worker_step
looping-Stands o l h i =
    let (s, done, after) = backend-Inv l.logging.phase i refl in
    let (stands, same) = looped-Stands l.logging.phase o l s h in
    (
      looped l.logging.phase (record l { owner = o; worker = Worker.looping }) s,
      rw done refl,
      (stands, subst Stock.Inv (sym same) after),
    )

worker_step-Stands :
    (w : Worker) (o : Owner) (l : Life)
    → Stands o w l.running l.latch.count
    → Stock.Inv l.logging
    → Yields
        (worker_step w (record l { owner = o; worker = w }))
        (λ l'. Stands l'.owner l'.worker l'.running l'.latch.count × Stock.Inv l'.logging)
unfolding Stands worker_step
worker_step-Stands Worker.absent o l h i = (_, refl, (h, i))
worker_step-Stands Worker.beginning o l h i =
    let begun : l.running ≡ true = ground arith in
    (record l { owner = o; worker = Worker.opening }, rw begun refl, (ground arith, i))
worker_step-Stands Worker.opening o l h i = (_, refl, (ground (arith, count-count_down l.latch), i))
worker_step-Stands Worker.testing o l h i = elim (Bool-cases l.running) [
  | inl on ↦ (record l { owner = o; worker = Worker.looping }, rw on refl, (ground (arith, on), i))
  | inr off ↦ (
    record l { owner = o; flushed = l.logging.output; worker = Worker.finished },
    rw off refl,
    (ground (arith, off), i),
  )
]
worker_step-Stands Worker.looping o l h i = looping-Stands o l h i
worker_step-Stands Worker.finished o l h i = (_, refl, (h, i))

-- A line is shorter than an int can count.
unfoldable pub Fits : Move → Type 0
Fits Move.owner_moves = Unit {0}
Fits Move.worker_moves = Unit {0}
Fits (Move.producer_logs line) = length line < 2 ^ 31

unfoldable pub Loggable : List Move → Type 0
unfolding Fits
Loggable [] = Unit {0}
Loggable (m ∷ ms) = Fits m × Loggable ms

pub move-Inv : (m : Move) {l : Life} → Inv l → Fits m → Yields (move l m) Inv
unfolding move Fits
move-Inv Move.owner_moves {l} v h =
    let (stands, same) = owner_step-Stands l.owner l.worker l v.stands in
    (_, refl, record { stock = subst Stock.Inv (sym same) v.stock; stands = stands })
move-Inv Move.worker_moves {l} v h =
    let (l', done, (stands, stock)) = worker_step-Stands l.worker l.owner l v.stands v.stock in
    (l', done, record { stock = stock; stands = stands })
move-Inv (Move.producer_logs line) {l} v h =
    let (s, done, after) = append-Inv v.stock line h in
    (record l { logging = s }, rw done refl, record { stock = after; stands = v.stands })

pub new_life-Inv : (size : ℕ) → 0 < size → size < 2 ^ 31 → Inv (new_life size)
unfolding new_life Stands new_latch
new_life-Inv size h k = record { stock = start-Inv size h k; stands = (refl, refl) }

-- Whatever the order of the steps of the owner, the backend and the producers, no `assert` of
-- `threadFunc` fails (`running_` is set when it begins), nothing leaves an array, and where the
-- owner and the backend stand fits `running_` and the latch: `start` returns only after the backend
-- opened its file, and `stop` only after it has finished.
pub moves-Inv : (ms : List Move) {l : Life} → Inv l → Loggable ms → Yields (moves l ms) Inv
unfolding moves Loggable
moves-Inv [] {l} v h = (l, refl, v)
moves-Inv (m ∷ ms) v h =
    let (l1, done, v1) = move-Inv m v h.0 in
    let (l2, rest, v2) = moves-Inv ms v1 h.1 in (l2, rw done rest, v2)

-- The owner is in `stop`, or behind it.
abbrev pub in_stop : Owner → Bool
in_stop o = elim o [
  | Owner.notifying ↦ true
  | Owner.joining ↦ true
  | Owner.stopped ↦ true
  | _ ↦ false
]

-- The backend has not opened the latch.
abbrev pub is_early : Worker → Bool
is_early w = elim w [
  | Worker.absent ↦ true
  | Worker.beginning ↦ true
  | Worker.opening ↦ true
  | _ ↦ false
]

pub Stands-off :
    (o : Owner) (w : Worker) (r : Bool) (n : ℤ)
    → Stands o w r n
    → in_stop o ≡ true
    → (r ≡ false) × (is_early w ≡ false)
unfolding Stands
Stands-off o w r n h k = ground arith
