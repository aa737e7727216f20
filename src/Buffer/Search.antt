-- ===== src/Buffer/Search.antt =====
-- `findCRLF` and `findEOL` of net/buffer.h: `std::search` and `memchr` over the readable bytes. A
-- pointer is an index into the vector, and NULL is `none`.
use mathlib.Core.Option
use xweb.Prelude.{
  ℕ, zero, suc, ◌+◌, ◌-◌, ◌≤◌, ◌<◌, ◌≡◌, refl, List, [], ◌∷◌, ◌&&◌, Option, some, none, arith, leb,
  ◌==◌, if◌then◌else◌, get_elem?, length, drop, ap, ◌>>◌, assert, Bool-cases, inl, inr,
}
use xweb.Prelude.Slices.{slice, drop-slice}
use xweb.Buffer.{Buffer, content, readable_bytes, peek}
use xweb.Buffer.Invariant.{IsValid, readable_bytes_lem, length-content}

-- `std::search(first, last, "\r\n")`, from `first` on.
unfoldable pub search_crlf : List ℕ → Option ℕ
search_crlf [] = none
search_crlf (x ∷ []) = none
search_crlf (x ∷ y ∷ r) =
    if x == b'\r' && y == b'\n' then some 0 else Option.map suc (search_crlf (y ∷ r))

pub memchr : ℕ → List ℕ → Option ℕ
memchr c [] = none
memchr c (x ∷ r) = if x == c then some 0 else Option.map suc (memchr c r)

unfoldable pub find_crlf : Buffer → Option ℕ
unfolding readable_bytes peek
find_crlf b = Option.map (◌+◌ b.reader_index) (search_crlf (peek b (readable_bytes b)))

pub find_eol : Buffer → Option ℕ
unfolding readable_bytes peek
find_eol b = Option.map (◌+◌ b.reader_index) (memchr b'\n' (peek b (readable_bytes b)))

-- With a start, which must lie in the readable bytes; the outer `none` is a failed `assert`.
pub find_crlf_from : Buffer → ℕ → Option (Option ℕ)
find_crlf_from b start = do
  assert (leb b.reader_index start)
  assert (leb start b.writer_index)
  some (Option.map (◌+◌ start) (search_crlf (slice b.buffer start (b.writer_index - start))))

pub find_eol_from : Buffer → ℕ → Option (Option ℕ)
find_eol_from b start = do
  assert (leb b.reader_index start)
  assert (leb start b.writer_index)
  some (Option.map (◌+◌ start) (memchr b'\n' (slice b.buffer start (b.writer_index - start))))

-- The least index with a property, or none if no index has it.
pub First : (ℕ → Type 0) → Option ℕ → Type 0
First P none = (j : ℕ) → ¬ P j
First P (some i) = P i × ((j : ℕ) → j < i → ¬ P j)

abbrev pub CrlfAt : List ℕ → ℕ → Type 0
CrlfAt xs i = (get_elem? xs i ≡ some b'\r') × (get_elem? xs (suc i) ≡ some b'\n')

abbrev pub ByteAt : ℕ → List ℕ → ℕ → Type 0
ByteAt c xs i = get_elem? xs i ≡ some c

module _ (P : ℕ → Type 0) where
  First-at_zero : P 0 → First P (some 0)
  unfolding First
  First-at_zero p = (p, λ j lt. absurd (omega arith))

  none_below : ¬ P 0 → ((j : ℕ) → ¬ P (suc j)) → (j : ℕ) → ¬ P j
  none_below h f zero p = h p
  none_below h f (suc j) p = f j p

  less_below : (i : ℕ) → ¬ P 0 → ((j : ℕ) → j < i → ¬ P (suc j)) → (j : ℕ) → j < suc i → ¬ P j
  less_below i h f zero lt p = h p
  less_below i h f (suc j) lt p = f j (omega arith) p

  First-suc : (o : Option ℕ) → ¬ P 0 → First (λ i. P (suc i)) o → First P (Option.map suc o)
  unfolding First
  First-suc none h f = none_below h f
  First-suc (some i) h f = (f.0, less_below i h f.1)

search_crlf-First : (xs : List ℕ) → First (CrlfAt xs) (search_crlf xs)
unfolding search_crlf First
search_crlf-First [] = λ j p. cc
search_crlf-First (x ∷ []) = none_below (CrlfAt (x ∷ [])) (λ p. ground arith) (λ j p. ground arith)
search_crlf-First (x ∷ y ∷ r) = elim (Bool-cases (x == b'\r' && y == b'\n')) [
  | inl e ↦ rw e (First-at_zero (CrlfAt (x ∷ y ∷ r)) (ground arith))
  | inr e ↦ rw e (
      First-suc (CrlfAt (x ∷ y ∷ r)) (search_crlf (y ∷ r)) (λ p. ground arith)
        (search_crlf-First (y ∷ r)))
]

memchr-First : (c : ℕ) (xs : List ℕ) → First (ByteAt c xs) (memchr c xs)
unfolding memchr First
memchr-First c [] = λ j p. cc
memchr-First c (x ∷ r) = elim (Bool-cases (x == c)) [
  | inl e ↦ rw e (First-at_zero (ByteAt c (x ∷ r)) (ground arith))
  | inr e ↦ rw e (First-suc (ByteAt c (x ∷ r)) (memchr c r) (λ p. ground arith) (memchr-First c r))
]

readable-content : {b : Buffer} → IsValid b → peek b (readable_bytes b) ≡ content b
unfolding peek content
readable-content {b} v = ap (slice b.buffer b.reader_index) (readable_bytes_lem v)

-- Both searches find the first place in the content, and NULL means that there is none.
pub find_First :
    {b : Buffer}
    → IsValid b
    → ((o : Option ℕ) × (find_crlf b ≡ Option.map (◌+◌ b.reader_index) o)
        × First (CrlfAt (content b)) o)
      × ((o : Option ℕ) × (find_eol b ≡ Option.map (◌+◌ b.reader_index) o)
          × First (ByteAt b'\n' (content b)) o)
unfolding find_crlf find_eol
find_First {b} v = (
  (search_crlf (content b), rw (readable-content v) refl, search_crlf-First (content b)),
  (memchr b'\n' (content b), rw (readable-content v) refl, memchr-First b'\n' (content b)),
)

-- A search from a pointer into the readable bytes does not stop, and finds the first place from
-- there on.
pub find_from_First :
    {b : Buffer}
    → IsValid b
    → (skipped : ℕ) → skipped ≤ length (content b)
    → let start = b.reader_index + skipped in
      ((o : Option ℕ) × (find_crlf_from b start ≡ some (Option.map (◌+◌ start) o))
        × First (CrlfAt (drop skipped (content b))) o)
      × ((o : Option ℕ) × (find_eol_from b start ≡ some (Option.map (◌+◌ start) o))
          × First (ByteAt b'\n' (drop skipped (content b))) o)
unfolding find_crlf_from find_eol_from content
find_from_First {b} v skipped h =
    let start = b.reader_index + skipped in
    let rest = slice b.buffer start (b.writer_index - start) in
    let at_rest : drop skipped (content b) ≡ rest =
      drop-slice b.buffer b.reader_index _ skipped _ _ refl (omega (arith, length-content v)) in
    rw at_rest (
      (search_crlf rest, ground (arith, length-content v), search_crlf-First rest),
      (memchr b'\n' rest, ground (arith, length-content v), memchr-First b'\n' rest),
    )
