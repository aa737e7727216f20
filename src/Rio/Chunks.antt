-- ===== src/Rio/Chunks.antt =====
-- base/rio.cpp: `rio_readlineb` over a stream that `read` delivers in pieces.
use xweb.Prelude.{
  ℕ, zero, suc, ◌-◌, ◌≡◌, ◌⊎◌, inl, inr, refl, sym, subst, ◌∙◌, List, [], ◌∷◌, ◌++◌, Option, some,
  arith, ◌==◌, if◌then◌else◌, Bool, true, false,
}
use xweb.Buffer.Transfer.{ReadResult, got, failed}
use xweb.Rio.{
  Rio, eintr, newline, refill, serve, rio_read, LineResult, line, end_of_file, readline_loop,
  take_byte, rio_readlineb,
}
use xweb.Rio.Lines.{at, rio_read-one, rio_read-end}

-- The calls of `read` deliver these bytes, in pieces and between signals, and then the end of
-- the file.
unfoldable pub Delivers : List ReadResult → List ℕ → Type 0
Delivers [] ds = ⊥
Delivers (failed errno ∷ reads) ds = (errno ≡ eintr) × Delivers reads ds
Delivers (got [] ∷ reads) ds = ds ≡ []
Delivers (got (b ∷ bs) ∷ reads) ds = (rest : List ℕ) × (ds ≡ (b ∷ bs) ++ rest) × Delivers reads rest

-- The bytes that are still ahead.
unfoldable pub Ahead : Rio → List ℕ → Type 0
Ahead r s = (ds : List ℕ) × (s ≡ r.unread ++ ds) × Delivers r.reads ds

-- The same bytes in one piece.
abbrev pub flat : List ℕ → Rio
flat s = record { unread = s; reads = got [] ∷ [] }

-- What `refill` returns: the end of the file, or the next piece.
Refilled : List ReadResult → List ℕ → Type 0
Refilled reads ds =
    ((ds ≡ []) × ((rest : List ReadResult) × (refill reads ≡ some (got [], rest))))
    ⊎ ((b : ℕ) × (bs ds' : List ℕ) × (rest : List ReadResult) × (refill reads
          ≡ some (got (b ∷ bs), rest))
        × (ds ≡ (b ∷ bs) ++ ds')
        × Delivers rest ds')

refill_lem : (reads : List ReadResult) (ds : List ℕ) → Delivers reads ds → Refilled reads ds
unfolding refill Refilled Delivers
refill_lem [] ds h = absurd h
refill_lem (failed errno ∷ reads) ds (again, h) = elim (refill_lem reads ds h) [
  | inl (done, (rest, e)) ↦ inl (done, (rest, ground (arith, e, again)))
  | inr (b, bs, ds', rest, e, more, later) ↦
      inr (b, bs, ds', rest, ground (arith, e, again), more, later)
]
refill_lem (got [] ∷ reads) ds h = inl (h, (reads, refl))
refill_lem (got (b ∷ bs) ∷ reads) ds (rest, e, h) = inr (b, bs, rest, reads, refl, e, h)

read_end :
    (reads rest : List ReadResult)
    → refill reads ≡ some (got [], rest)
    → rio_read (at [] reads) 1 ≡ some (got [], at [] rest)
unfolding rio_read
read_end reads rest q = rw q refl

read_piece :
    (reads rest : List ReadResult) (b : ℕ) (bs : List ℕ)
    → refill reads ≡ some (got (b ∷ bs), rest)
    → rio_read (at [] reads) 1 ≡ some (got (b ∷ []), at bs rest)
unfolding rio_read serve
read_piece reads rest b bs q = rw q (ground arith)

-- What `rio_read` of one byte returns: the end of the file, or the next byte.
Next : Rio → List ℕ → Type 0
Next r s =
    ((s ≡ []) × ((r' : Rio) × (rio_read r 1 ≡ some (got [], r'))))
    ⊎ ((c : ℕ) × (s' : List ℕ) × (r' : Rio) × (s ≡ c ∷ s')
        × (rio_read r 1 ≡ some (got (c ∷ []), r'))
        × Ahead r' s')

read_one_empty : (reads : List ReadResult) (ds : List ℕ) → Delivers reads ds → Next (at [] reads) ds
unfolding Next Refilled Ahead
read_one_empty reads ds h = elim (refill_lem reads ds h) [
  | inl (done, (rest, q)) ↦ inl (done, (at [] rest, read_end reads rest q))
  | inr (b, bs, ds', rest, q, more, later) ↦
      inr (b, bs ++ ds', at bs rest, more, read_piece reads rest b bs q, (ds', refl, later))
]

read_one :
    (unread : List ℕ) (reads : List ReadResult) (ds : List ℕ)
    → Delivers reads ds
    → Next (at unread reads) (unread ++ ds)
unfolding Next Ahead
read_one [] reads ds h = read_one_empty reads ds h
read_one (c ∷ cs) reads ds h =
    inr (c, cs ++ ds, at cs reads, refl, rio_read-one c cs reads, (ds, refl, h))

-- The same result, and the same bytes ahead unless the file ended.
unfoldable pub Agree : Option (LineResult × Rio) → Option (LineResult × Rio) → Type 0
Agree o o' =
    (result : LineResult) × (r r' : Rio) × (o ≡ some (result, r))
    × (o' ≡ some (result, r'))
    × ((r'.reads ≡ []) ⊎ ((s : List ℕ) × (r' ≡ flat s) × Ahead r s))

-- One turn of the loop, by what `rio_read` returned.
turn_read :
    (left n : ℕ) (bytes : List ℕ) (r r' : Rio) (rc : ReadResult)
    → rio_read r 1 ≡ some (rc, r')
    → readline_loop (suc left) n bytes r ≡ take_byte n bytes (readline_loop left (suc n)) rc r'
unfolding readline_loop
turn_read left n bytes r r' rc q = rw q refl

turn_byte :
    (left n : ℕ) (bytes : List ℕ) (r r' : Rio) (c : ℕ)
    → rio_read r 1 ≡ some (got (c ∷ []), r')
    → readline_loop (suc left) n bytes r ≡ (
        if c == newline
        then some (line n (bytes ++ c ∷ []), r')
        else readline_loop left (suc n) (bytes ++ c ∷ []) r')
unfolding take_byte
turn_byte left n bytes r r' c q = turn_read left n bytes r r' (got (c ∷ [])) q

-- What both sides do after a byte.
Agree-byte :
    (b : Bool) (result : LineResult) (r r' : Rio) (s : List ℕ) (o o' : Option (LineResult × Rio))
    → r' ≡ flat s
    → Ahead r s
    → Agree o o'
    → Agree (if b then some (result, r) else o) (if b then some (result, r') else o')
unfolding Agree
Agree-byte true result r r' s o o' e h agree = (result, r, r', refl, refl, inr (s, e, h))
Agree-byte false result r r' s o o' e h agree = agree

Agree-end :
    (left n : ℕ) (bytes : List ℕ) (r r' : Rio)
    → rio_read r 1 ≡ some (got [], r')
    → Agree (readline_loop (suc left) n bytes r) (readline_loop (suc left) n bytes (flat []))
unfolding Agree take_byte
Agree-end left n bytes r r' q = (
  (if n == 1 then end_of_file else line n bytes),
  r',
  at [] [],
  turn_read left n bytes r r' (got []) q,
  turn_read left n bytes (flat []) (at [] []) (got []) (rio_read-end []),
  inl refl,
)

loop_chunks :
    (left n : ℕ) (bytes : List ℕ) (r : Rio) (s : List ℕ)
    → Ahead r s
    → Agree (readline_loop left n bytes r) (readline_loop left n bytes (flat s))
unfolding Agree readline_loop Ahead Next
loop_chunks zero n bytes r s h = (line n bytes, r, flat s, refl, refl, inr (s, refl, h))
loop_chunks (suc left) n bytes r s (ds, e, h) = elim (read_one r.unread r.reads ds h) [
  | inl (done, (r', q)) ↦
      subst
        (λ k.
          Agree (readline_loop (suc left) n bytes r) (readline_loop (suc left) n bytes (flat k)))
        (sym (e ∙ done)) (Agree-end left n bytes r r' q)
  | inr (c, s', r', more, q, ahead) ↦
      subst
        (λ k.
          Agree (readline_loop (suc left) n bytes r) (readline_loop (suc left) n bytes (flat k)))
        (sym (e ∙ more))
        (rw (turn_byte left n bytes r r' c q) (
          rw (turn_byte left n bytes (flat (c ∷ s')) (flat s') c (rio_read-one c s' (got [] ∷ [])))
            (Agree-byte (c == newline) (line n (bytes ++ c ∷ [])) r' (flat s') s'
              (readline_loop left (suc n) (bytes ++ c ∷ []) r')
              (readline_loop left (suc n) (bytes ++ c ∷ []) (flat s')) refl ahead
              (loop_chunks left (suc n) (bytes ++ c ∷ []) r' s' ahead))))
]

-- However `read` cuts the stream, between signals, `rio_readlineb` returns what it returns for
-- the same bytes in one piece, and leaves the same bytes ahead unless the file ended.
pub readlineb-chunks :
    (r : Rio) (s : List ℕ) (maxlen : ℕ)
    → Ahead r s
    → Agree (rio_readlineb r maxlen) (rio_readlineb (flat s) maxlen)
unfolding rio_readlineb
readlineb-chunks r s maxlen h = loop_chunks (maxlen - 1) 1 [] r s h
