-- ===== src/Rio/Tests.antt =====
-- The bytes of a line, whole and in pieces.
use xweb.Prelude.{ℕ, refl, List, [], ◌∷◌, ◌++◌, arith}
use xweb.Rio.{Rio, rio_init, eintr, newline, rio_readlineb}
use xweb.Rio.Chunks.{Ahead, Agree, Delivers, flat, readlineb-chunks}
use xweb.Rio.Lines.{Plain}
use xweb.Buffer.Transfer.{got, failed}

abbrev hi : List ℕ
hi = b'h' ∷ b'i' ∷ []

hi-Plain : Plain hi
unfolding Plain
hi-Plain = ((omega arith), ((omega arith), tt))

-- Two pieces, with a signal between them.
abbrev pieces : Rio
pieces = rio_init (got hi ∷ failed eintr ∷ got (newline ∷ 7 ∷ []) ∷ got [] ∷ [])

pieces-Ahead : Ahead pieces (hi ++ newline ∷ 7 ∷ [])
unfolding Ahead Delivers rio_init
pieces-Ahead = (hi ++ newline ∷ 7 ∷ [], refl, (newline ∷ 7 ∷ [], refl, (refl, ([], refl, refl))))

readlineb-chunks_example :
    Agree (rio_readlineb pieces 100) (rio_readlineb (flat (hi ++ newline ∷ 7 ∷ [])) 100)
readlineb-chunks_example = readlineb-chunks pieces (hi ++ newline ∷ 7 ∷ []) 100 pieces-Ahead
