-- ===== src/Rio/Blocks.antt =====
-- base/rio.cpp: `rio_readn` and `rio_writen` move whole blocks.
use xweb.Prelude.{
  Yields, ℕ, zero, suc, ◌+◌, ◌-◌, ◌<◌, ◌≤◌, ◌≡◌, ◌⊎◌, inl, inr, refl, sym, ap, ap₂, subst, ◌∙◌,
  List, [], ◌∷◌, ◌++◌, some, length, take, drop, arith, append_assoc, append-nil, length-drop,
  take-append-drop,
}
use xweb.Prelude.Slices.{take-append_add, take-append_all, drop-append_all, drop-drop}
use xweb.Buffer.Transfer.{ReadResult, got, failed}
use xweb.TcpConnection.{WriteResult, wrote, write_failed}
use xweb.Rio.{eintr, block, readn_loop, writen_loop, rio_readn, rio_writen}

-- Every `write` takes something.
unfoldable pub Takes : List WriteResult → Type 0
Takes [] = Unit
Takes (write_failed e ∷ ws) = ⊥
Takes (wrote zero ∷ ws) = ⊥
Takes (wrote (suc n) ∷ ws) = Takes ws

-- Writes that each take something, and as many as there are bytes, send them all.
writen_lem :
    (ws : List WriteResult) (errno : ℕ) (ds sent : List ℕ)
    → Takes ws
    → length ds ≤ length ws
    → Yields (writen_loop ws errno ds sent) (λ (result, ws', errno').
      (result ≡ block (sent ++ ds)) × Takes ws' × (length ws ≤ length ws' + length ds))
unfolding writen_loop Takes
writen_lem ws errno [] sent h room =
    ((block sent, ws, errno), refl, (ap block (sym (append-nil sent)), h, omega arith))
writen_lem [] errno (d ∷ ds) sent h room = absurd (omega (arith, room))
writen_lem (write_failed e ∷ ws) errno (d ∷ ds) sent h room = absurd h
writen_lem (wrote zero ∷ ws) errno (d ∷ ds) sent h room = absurd h
writen_lem (wrote (suc n) ∷ ws) errno (d ∷ ds) sent h room =
    let ((result, ws', errno'), done, (all, left, count)) =
      writen_lem ws errno (drop n ds) (sent ++ d ∷ take n ds) h
        (omega (arith, room, length-drop n ds)) in
    (
      (result, ws', errno'),
      done,
      (
        all
            ∙ ap block (
                append_assoc sent (d ∷ take n ds) (drop n ds)
                ∙ ap (λ t. sent ++ d ∷ t) (take-append-drop n ds)),
        left,
        omega (arith, count, length-drop n ds),
      ),
    )

-- The reads of a file with these bytes, by blocks of a size of which `left` bytes are still to
-- be read: pieces that are not longer than what is asked for, between signals, and the end of
-- the file whenever it is asked for more.
unfoldable pub Supplies : ℕ → List ReadResult → ℕ → List ℕ → Type 0
Supplies size [] left ds = ⊥
Supplies size (failed e ∷ reads) left ds = (e ≡ eintr) × Supplies size reads left ds
Supplies size (got [] ∷ reads) left ds = (ds ≡ []) × ((left ≡ size) ⊎ Supplies size reads size [])
Supplies size (got (b ∷ bs) ∷ reads) left ds =
    (rest : List ℕ) × (ds ≡ (b ∷ bs) ++ rest)
    × (((left ≡ length (b ∷ bs)) × Supplies size reads size rest)
        ⊎ ((length (b ∷ bs) < left) × Supplies size reads (left - length (b ∷ bs)) rest))

-- What is left of a file after a block.
unfoldable pub Later : ℕ → List ReadResult → ℕ → List ℕ → Type 0
Later size reads left ds = ((ds ≡ []) × (left ≡ size)) ⊎ Supplies size reads size (drop left ds)

drop-append_add : (xs ys : List ℕ) (n : ℕ) → drop (length xs + n) (xs ++ ys) ≡ drop n ys
drop-append_add xs ys n =
    sym (drop-drop n (length xs) (length xs + n) (xs ++ ys) refl)
    ∙ ap (drop n) (drop-append_all xs ys (length xs) refl)

readn_full :
    (reads : List ReadResult) (errno left : ℕ) (bytes : List ℕ)
    → left ≡ 0
    → readn_loop reads errno left bytes ≡ some (block bytes, reads, errno)
unfolding readn_loop
readn_full [] errno zero bytes h = refl
readn_full (failed e ∷ reads) errno zero bytes h = refl
readn_full (got [] ∷ reads) errno zero bytes h = refl
readn_full (got (b ∷ bs) ∷ reads) errno zero bytes h = refl
readn_full reads errno (suc left) bytes h = absurd (omega (arith, h))

readn_lem :
    (size : ℕ) (reads : List ReadResult) (errno left : ℕ) (ds bytes : List ℕ)
    → suc left ≤ size
    → Supplies size reads (suc left) ds
    → Yields (readn_loop reads errno (suc left) bytes) (λ (result, reads', errno').
      (result ≡ block (bytes ++ take (suc left) ds)) × Later size reads' (suc left) ds)
unfolding readn_loop Supplies Later
readn_lem size [] errno left ds bytes small h = absurd h
readn_lem size (failed e ∷ reads) errno left ds bytes small (again, h) =
    let (r, done, q) = readn_lem size reads e left ds bytes small h in
    (r, ground (arith, again, done), q)
readn_lem size (got [] ∷ reads) errno left ds bytes small (e, h) = (
  (block bytes, reads, errno),
  refl,
  (
    ap block (sym (ap (λ t. bytes ++ take (suc left) t) e ∙ append-nil bytes)),
    elim h [
      | inl full ↦ inl (e, full)
      | inr later ↦ inr (subst (λ t. Supplies size reads size (drop (suc left) t)) (sym e) later)
    ],
  ),
)
readn_lem size (got (b ∷ bs) ∷ reads) errno left ds bytes small (rest, e, inl (full, h)) = (
  (block (bytes ++ b ∷ bs), reads, errno),
  readn_full reads errno (left - length bs) (bytes ++ b ∷ bs) (omega (arith, full)),
  (
    ap (λ t. block (bytes ++ t))
        (sym (ap (take (suc left)) e ∙ take-append_all (b ∷ bs) rest (suc left) (sym full))),
    inr (
        subst (Supplies size reads size)
          (sym (ap (drop (suc left)) e ∙ drop-append_all (b ∷ bs) rest (suc left) (sym full))) h),
  ),
)
readn_lem size (got (b ∷ bs) ∷ reads) errno left ds bytes small (rest, e, inr (less, h)) =
    let more = left - length bs - 1 in
    let count : left - length bs ≡ suc more = omega (arith, less) in
    let left_count : suc left - length (b ∷ bs) ≡ suc more = omega (arith, less) in
    let whole : suc left ≡ length (b ∷ bs) + suc more = omega (arith, less) in
    let (r, done, (all, later)) =
      readn_lem size reads errno more rest (bytes ++ b ∷ bs) (omega (arith, small, whole))
        (subst (λ k. Supplies size reads k rest) left_count h) in
    (
      r,
      ap (λ k. readn_loop reads errno k (bytes ++ b ∷ bs)) count ∙ done,
      (
        all
            ∙ ap block (append_assoc bytes (b ∷ bs) (take (suc more) rest))
            ∙ ap (λ t. block (bytes ++ t))
                (sym (
                  ap (take (suc left)) e
                  ∙ take-append_add (b ∷ bs) rest (suc more) (suc left) (sym whole))),
        elim later [
          | inl (done, full) ↦ absurd (omega (arith, small, whole, full))
          | inr h' ↦ inr (
              subst (Supplies size r.1 size)
                (sym (ap₂ drop whole e ∙ drop-append_add (b ∷ bs) rest (suc more))) h')
        ],
      ),
    )

-- Writes that each take something, and as many as there are bytes, let `rio_writen` send all of
-- them.
pub writen-Takes :
    (ws : List WriteResult) (errno : ℕ) (ds : List ℕ)
    → Takes ws
    → length ds ≤ length ws
    → Yields (rio_writen ws errno ds) (λ (result, ws', errno').
      (result ≡ block ds) × Takes ws' × (length ws ≤ length ws' + length ds))
unfolding rio_writen
writen-Takes ws errno ds h room = writen_lem ws errno ds [] h room

-- However the reads of a file are cut, between signals, `rio_readn` returns a whole block, or at
-- the end of the file what is left, and leaves the rest of the file for later.
pub readn-Supplies :
    (size : ℕ) (reads : List ReadResult) (errno : ℕ) (ds : List ℕ)
    → 0 < size
    → Supplies size reads size ds
    → Yields (rio_readn reads errno size) (λ (result, reads', errno').
      (result ≡ block (take size ds)) × ((ds ≡ []) ⊎ Supplies size reads' size (drop size ds)))
unfolding rio_readn Later
readn-Supplies zero reads errno ds pos h = absurd (omega (arith, pos))
readn-Supplies (suc left) reads errno ds pos h =
    let (r, done, (all, later)) = readn_lem (suc left) reads errno left ds [] (omega arith) h in
    (r, done, (all, elim later [ inl (e, _) ↦ inl e | inr h' ↦ inr h' ]))
