-- ===== src/HttpData/Headers.antt =====
-- net/http_data.cpp: `read_requesthdrs` reads to the end of the headers.
use xweb.Prelude.{
  Yields, ℕ, zero, suc, ◌+◌, ◌-◌, ◌≤◌, ◌≡◌, ◌≢◌, inl, inr, refl, sym, ap, subst, ◌∙◌, List, [], ◌∷◌,
  ◌++◌, some, false, length, All, arith, append_assoc,
}
use xweb.Buffer.Transfer.{ReadResult, got}
use xweb.Rio.{Rio, rio_init, newline, LineResult, line, rio_readlineb}
use xweb.Rio.Lines.{Plain, at, readlineb-newline}
use xweb.Rio.Chunks.{Ahead, Agree, flat, readlineb-chunks}
use Prim.Native.Nat.{bit_or}
use xweb.Channel.{channel_read, channel_write}
use xweb.HttpData.{
  HttpData, handle_read, watch_for, max_line, c_text, is_crlf, overwrite, after_line, after_call,
  headers_loop, read_requesthdrs,
}

-- A header without its newline: not the blank line, and short enough for the array.
pub record IsHeader (l : List ℕ) : Type 0 where
  pub plain : Plain l
  pub text : All (λ c. c ≢ 0) l
  pub some_text : l ≢ b'\r' ∷ []
  pub short : length l ≤ 1022

-- The headers with their newlines, the blank line, and what follows.
unfoldable pub request : List (List ℕ) → List ℕ → List ℕ
request [] rest = b'\r' ∷ newline ∷ rest
request (l ∷ ls) rest = l ++ newline ∷ request ls rest

-- A line that is ahead is the one that is read.
readline-Ahead :
    (r : Rio) (l rest : List ℕ)
    → Plain l
    → length l ≤ 1022
    → Ahead r (l ++ newline ∷ rest)
    → Yields (rio_readlineb r max_line) (λ (result, r').
      (result ≡ line (length (l ++ newline ∷ [])) (l ++ newline ∷ [])) × Ahead r' rest)
unfolding Agree
readline-Ahead r l rest plain short ahead =
    let (result, r', r'', read, flat_read, left) =
      readlineb-chunks r (l ++ newline ∷ rest) max_line ahead in
    let whole =
      ap (rio_readlineb (flat (l ++ newline ∷ rest))) size
      ∙ readlineb-newline l (1022 - length l) rest (got [] ∷ []) plain in
    let same : some (result, r'')
        ≡ some (line (length (l ++ newline ∷ [])) (l ++ newline ∷ []), at rest (got [] ∷ [])) =
      sym flat_read ∙ whole in
    let stream : r'' ≡ at rest (got [] ∷ []) = cc same in
    (
      (result, r'),
      read,
      (
        cc same,
        elim left [
          | inl e ↦ absurd (ground (arith, sym (ap (λ (q : Rio). q.reads) stream) ∙ e))
          | inr (s, e, h) ↦ subst (Ahead r') (ap (λ (q : Rio). q.unread) (sym e ∙ stream)) h
        ],
      ),
    )
  where
    size : max_line ≡ suc (length l + suc (1022 - length l))
    size = omega (arith, short)

c_text-text : (l more : List ℕ) → All (λ c. c ≢ 0) l → c_text (l ++ 0 ∷ more) ≡ l
unfolding c_text
c_text-text [] more h = refl
c_text-text (zero ∷ l) more h = absurd (h.0 refl)
c_text-text (suc c ∷ l) more h = ap (λ t. suc c ∷ t) (c_text-text l more h.1)

text-newline : (l : List ℕ) → All (λ c. c ≢ 0) l → All (λ c. c ≢ 0) (l ++ newline ∷ [])
text-newline [] h = (omega arith, tt)
text-newline (c ∷ l) h = (h.0, text-newline l h.1)

is_crlf-newline : (l : List ℕ) → l ≢ b'\r' ∷ [] → is_crlf (l ++ newline ∷ []) ≡ false
unfolding is_crlf
is_crlf-newline [] h = refl
is_crlf-newline (a ∷ []) h = ground (arith, λ (e : a ≡ b'\r'). h (ap (λ c. c ∷ []) e))
is_crlf-newline (a ∷ b ∷ []) h = refl
is_crlf-newline (a ∷ b ∷ c ∷ l) h = refl

-- The array after a line was read.
buf_text :
    (buf l : List ℕ) (n : ℕ)
    → All (λ c. c ≢ 0) l
    → c_text (after_line buf (line n (l ++ newline ∷ []))) ≡ l ++ newline ∷ []
unfolding after_line overwrite
buf_text buf l n h =
    ap c_text (append_assoc (l ++ newline ∷ []) (0 ∷ []) _)
    ∙ c_text-text (l ++ newline ∷ []) _ (text-newline l h)

-- The loop, with a header in its array.
loop_step :
    (turns : ℕ) (buf l : List ℕ) (n : ℕ) (r r' : Rio) (result : LineResult)
    → IsHeader l
    → rio_readlineb r max_line ≡ some (result, r')
    → headers_loop (suc turns) (after_line buf (line n (l ++ newline ∷ []))) r
      ≡ after_call (headers_loop turns) (after_line buf (line n (l ++ newline ∷ []))) result r'
unfolding headers_loop
loop_step turns buf l n r r' result h read =
    rw (buf_text buf l n h.text, is_crlf-newline l h.some_text, read) refl

loop_end :
    (turns : ℕ) (buf : List ℕ) (n : ℕ) (r : Rio)
    → headers_loop (suc turns) (after_line buf (line n (b'\r' ∷ newline ∷ []))) r ≡ some (false, r)
unfolding headers_loop is_crlf c_text after_line overwrite
loop_end turns buf n r = refl

blank-Plain : Plain (b'\r' ∷ [])
unfolding Plain
blank-Plain = (omega arith, tt)

-- The last line: the blank one is read, and ends the loop.
loop_blank :
    (turns : ℕ) (buf l rest : List ℕ) (n : ℕ) (r : Rio)
    → IsHeader l
    → Ahead r (b'\r' ∷ newline ∷ rest)
    → Yields
        (headers_loop (suc (suc turns)) (after_line buf (line n (l ++ newline ∷ []))) r)
        (λ (unfinished, r'). (unfinished ≡ false) × Ahead r' rest)
unfolding after_call
loop_blank turns buf l rest n r h ahead =
    let ((result, r'), read, (same, ahead')) =
      readline-Ahead r (b'\r' ∷ []) rest blank-Plain (omega arith) ahead in
    let array = after_line buf (line n (l ++ newline ∷ [])) in
    (
      (false, r'),
      loop_step (suc turns) buf l n r r' result h read
          ∙ ap (λ k. after_call (headers_loop (suc turns)) array k r') same
          ∙ loop_end turns array 2 r',
      (refl, ahead'),
    )

loop_headers :
    (ls : List (List ℕ)) (turns : ℕ) (buf l rest : List ℕ) (n : ℕ) (r : Rio)
    → IsHeader l
    → All IsHeader ls
    → length ls + 2 ≤ turns
    → Ahead r (request ls rest)
    → Yields
        (headers_loop turns (after_line buf (line n (l ++ newline ∷ []))) r)
        (λ (unfinished, r'). (unfinished ≡ false) × Ahead r' rest)
unfolding request after_call
loop_headers [] (suc (suc turns)) buf l rest n r h hs room ahead =
    loop_blank turns buf l rest n r h ahead
loop_headers ls zero buf l rest n r h hs room ahead = absurd (omega (arith, room))
loop_headers ls (suc zero) buf l rest n r h hs room ahead = absurd (omega (arith, room))
loop_headers (l' ∷ ls) (suc (suc turns)) buf l rest n r h (h', hs) room ahead =
    let ((result, r1), read, (same, ahead1)) =
      readline-Ahead r l' (request ls rest) h'.plain h'.short ahead in
    let array = after_line buf (line n (l ++ newline ∷ [])) in
    let ((unfinished, r'), done, end) =
      loop_headers ls (suc turns) array l' rest (length (l' ++ newline ∷ [])) r1 h' hs
        (omega (arith, room)) ahead1 in
    (
      (unfinished, r'),
      loop_step (suc turns) buf l n r r1 result h read
          ∙ ap (λ k. after_call (headers_loop (suc turns)) array k r1) same
          ∙ done,
      end,
    )

-- However the stream is cut, with two turns more than there are headers, `read_requesthdrs`
-- reads to behind the blank line and returns 0.
pub read_requesthdrs-request :
    (ls : List (List ℕ)) (turns : ℕ) (buf rest : List ℕ) (r : Rio)
    → All IsHeader ls
    → length ls + 2 ≤ turns
    → Ahead r (request ls rest)
    → Yields
        (read_requesthdrs turns buf r)
        (λ (unfinished, r'). (unfinished ≡ false) × Ahead r' rest)
unfolding read_requesthdrs request
read_requesthdrs-request ls zero buf rest r hs room ahead = absurd (omega (arith, room))
read_requesthdrs-request [] (suc turns) buf rest r hs room ahead =
    let ((result, r'), read, (same, ahead')) =
      readline-Ahead r (b'\r' ∷ []) rest blank-Plain (omega arith) ahead in
    (
      (false, r'),
      rw read
          (ap (λ k. headers_loop (suc turns) (after_line buf k) r') same ∙ loop_end turns buf 2 r'),
      (refl, ahead'),
    )
read_requesthdrs-request (l ∷ ls) (suc turns) buf rest r (h, hs) room ahead =
    let ((result, r1), read, (same, ahead1)) =
      readline-Ahead r l (request ls rest) h.plain h.short ahead in
    let ((unfinished, r'), done, end) =
      loop_headers ls (suc turns) buf l rest (length (l ++ newline ∷ [])) r1 h hs
        (omega (arith, room)) ahead1 in
    (
      (unfinished, r'),
      rw read (ap (λ k. headers_loop (suc turns) (after_line buf k) r1) same ∙ done),
      end,
    )

-- However the stream is cut, `handleRead` of a whole request, with turns enough, makes the loop
-- wait for writes as well as reads.
pub handle_read-request :
    (d : HttpData) (first : List ℕ) (ls : List (List ℕ)) (turns : ℕ) (buf rest : List ℕ)
    (reads : List ReadResult)
    → Plain first
    → length first ≤ 1022
    → All IsHeader ls
    → length ls + 2 ≤ turns
    → Ahead (rio_init reads) (first ++ newline ∷ request ls rest)
    → handle_read d turns buf reads ≡ some (watch_for d (bit_or channel_read channel_write))
unfolding handle_read
handle_read-request d first ls turns buf rest reads plain short hs room ahead =
    let ((result, r1), read, (same, ahead1)) =
      readline-Ahead (rio_init reads) first (request ls rest) plain short ahead in
    let ((unfinished, r'), done, (finished, _)) =
      read_requesthdrs-request ls turns buf rest r1 hs room ahead1 in
    rw (read, done, finished) refl
