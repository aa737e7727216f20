-- ===== src/Rio/Lines.antt =====
-- base/rio.cpp: the lines that `rio_readlineb` returns.
use xweb.Prelude.{
  ℕ, zero, suc, ◌+◌, ◌-◌, ◌≡◌, ◌≢◌, refl, sym, ap, ◌∙◌, List, [], ◌∷◌, ◌++◌, some, length, arith,
  append_assoc, append-nil, length-append,
}
use xweb.Buffer.Transfer.{ReadResult, got}
use xweb.Rio.{Rio, newline, refill, serve, rio_read, line, readline_loop, rio_readlineb}

abbrev pub at : List ℕ → List ReadResult → Rio
at unread reads = record { unread = unread; reads = reads }

-- No byte of it ends a line.
unfoldable pub Plain : List ℕ → Type 0
Plain [] = Unit {0}
Plain (c ∷ cs) = (c ≢ newline) × Plain cs

pub rio_read-one :
    (c : ℕ) (cs : List ℕ) (reads : List ReadResult)
    → rio_read (at (c ∷ cs) reads) 1 ≡ some (got (c ∷ []), at cs reads)
unfolding rio_read serve
rio_read-one c cs reads = ground arith

pub rio_read-end :
    (reads : List ReadResult) → rio_read (at [] (got [] ∷ reads)) 1 ≡ some (got [], at [] reads)
unfolding rio_read refill
rio_read-end reads = refl

-- One turn of the loop.
turn_newline :
    (left n : ℕ) (bytes cs : List ℕ) (reads : List ReadResult)
    → readline_loop (suc left) n bytes (at (newline ∷ cs) reads)
      ≡ some (line n (bytes ++ newline ∷ []), at cs reads)
unfolding readline_loop
turn_newline left n bytes cs reads = rw (rio_read-one newline cs reads) refl

turn_plain :
    (left n : ℕ) (bytes : List ℕ) (c : ℕ) (cs : List ℕ) (reads : List ReadResult)
    → c ≢ newline
    → readline_loop (suc left) n bytes (at (c ∷ cs) reads)
      ≡ readline_loop left (suc n) (bytes ++ c ∷ []) (at cs reads)
unfolding readline_loop
turn_plain left n bytes c cs reads h = rw (rio_read-one c cs reads) (ground (arith, h))

turn_end :
    (left n : ℕ) (bytes : List ℕ) (reads : List ReadResult)
    → n ≢ 1
    → readline_loop (suc left) n bytes (at [] (got [] ∷ reads)) ≡ some (line n bytes, at [] reads)
unfolding readline_loop
turn_end left n bytes reads h = ground (arith, h, rio_read-end reads)

Plain-loop :
    (xs : List ℕ) (turns left n : ℕ) (bytes rest : List ℕ) (reads : List ReadResult)
    → Plain xs
    → turns ≡ length xs + left
    → readline_loop turns n bytes (at (xs ++ rest) reads)
      ≡ readline_loop left (n + length xs) (bytes ++ xs) (at rest reads)
unfolding Plain
Plain-loop [] turns left n bytes rest reads plain e =
    ap (λ t. readline_loop t n bytes (at rest reads)) (omega (arith, e))
    ∙ ap (λ k. readline_loop left k bytes (at rest reads)) (omega arith)
    ∙ ap (λ bs. readline_loop left (n + 0) bs (at rest reads)) (sym (append-nil bytes))
Plain-loop (c ∷ cs) zero left n bytes rest reads plain e = absurd (omega arith)
Plain-loop (c ∷ cs) (suc turns) left n bytes rest reads plain e =
    turn_plain turns n bytes c (cs ++ rest) reads plain.0
    ∙ Plain-loop cs turns left (suc n) (bytes ++ c ∷ []) rest reads plain.1 (omega arith)
    ∙ ap (λ k. readline_loop left k ((bytes ++ c ∷ []) ++ cs) (at rest reads)) (omega arith)
    ∙ ap (λ bs. readline_loop left (n + suc (length cs)) bs (at rest reads))
        (append_assoc bytes (c ∷ []) cs)

readline_prefix :
    (xs : List ℕ) (left : ℕ) (rest : List ℕ) (reads : List ReadResult)
    → Plain xs
    → rio_readlineb (at (xs ++ rest) reads) (suc (length xs + left))
      ≡ readline_loop left (1 + length xs) xs (at rest reads)
unfolding rio_readlineb
readline_prefix xs left rest reads plain =
    Plain-loop xs (suc (length xs + left) - 1) left 1 [] rest reads plain (omega arith)

-- With a line in the buffer and room for it with its newline and the final 0, `rio_readlineb`
-- returns the line and its length with the newline, and leaves what follows it.
pub readlineb-newline :
    (xs : List ℕ) (room : ℕ) (rest : List ℕ) (reads : List ReadResult)
    → Plain xs
    → rio_readlineb (at (xs ++ newline ∷ rest) reads) (suc (length xs + suc room))
      ≡ some (line (length (xs ++ newline ∷ [])) (xs ++ newline ∷ []), at rest reads)
readlineb-newline xs room rest reads plain =
    readline_prefix xs (suc room) (newline ∷ rest) reads plain
    ∙ turn_newline room (1 + length xs) xs rest reads
    ∙ ap (λ k. some (line k (xs ++ newline ∷ []), at rest reads))
        (omega (arith, length-append xs (newline ∷ [])))

-- Without a newline, at the end of the file and where the room ends, the count that `rio_readlineb`
-- returns is one more than the bytes it wrote, if there is a byte.
pub readlineb-count :
    (x : ℕ) (xs : List ℕ) (room : ℕ) (rest : List ℕ) (reads : List ReadResult)
    → Plain (x ∷ xs)
    → (rio_readlineb (at ((x ∷ xs) ++ []) (got [] ∷ reads)) (suc (length (x ∷ xs) + suc room))
        ≡ some (line (1 + length (x ∷ xs)) (x ∷ xs), at [] reads))
      × (rio_readlineb (at ((x ∷ xs) ++ rest) reads) (suc (length (x ∷ xs) + 0))
          ≡ some (line (1 + length (x ∷ xs)) (x ∷ xs), at rest reads))
unfolding readline_loop
readlineb-count x xs room rest reads plain = (
  readline_prefix (x ∷ xs) (suc room) [] (got [] ∷ reads) plain
      ∙ turn_end room (1 + length (x ∷ xs)) (x ∷ xs) reads (omega arith),
  readline_prefix (x ∷ xs) 0 rest reads plain,
)
