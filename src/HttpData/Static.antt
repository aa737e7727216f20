-- ===== src/HttpData/Static.antt =====
-- net/http_data.cpp: what `serve_static` sends of a file.
use xweb.Prelude.{
  ltb, true, Yields, ℕ, zero, suc, ◌+◌, ◌*◌, ◌<◌, ◌≤◌, ◌≡◌, ◌⊎◌, inl, inr, refl, sym, ap, subst,
  ◌∙◌, List, [], ◌∷◌, ◌++◌, length, take, drop, arith, append_assoc, append-nil, length-append,
  length-take, length-drop, take-append-drop, dec_le,
}
use xweb.Prelude.Slices.{take_all, drop_all}
use xweb.Rio.Blocks.{Takes, Supplies, writen-Takes, readn-Supplies}
use xweb.Buffer.Transfer.{ReadResult}
use xweb.HttpData.{
  max_line, Io, bytes_of, send_block, overwrite, after_read, copy_loop, serve_static, Header,
  file_type, c_text, file_type,
}

-- A body is the file, and less than a block of other bytes that make it whole blocks.
unfoldable pub Padded : List ℕ → List ℕ → Type 0
Padded ds body =
    (extra : List ℕ) × (body ≡ ds ++ extra)
    × (length extra < max_line)
    × ((k : ℕ) × (length body ≡ k * max_line))

length-overwrite :
    (buf bytes : List ℕ) → length bytes ≤ length buf → length (overwrite buf bytes) ≡ length buf
unfolding overwrite
length-overwrite buf bytes h =
    omega (arith, h, length-append bytes (drop (length bytes) buf), length-drop (length bytes) buf)

nil_of : (xs : List ℕ) → length xs ≡ 0 → xs ≡ []
nil_of [] h = refl
nil_of (x ∷ xs) h = absurd (omega (arith, h))

-- The array after a block is read into it, and then the body of what is left of the file.
joined :
    (buf ds body : List ℕ)
    → length buf ≡ max_line
    → 0 < length ds
    → Padded (drop max_line ds) body
    → Padded ds (overwrite buf (take max_line ds) ++ body)
unfolding Padded overwrite
joined buf ds body size filled (extra, e, small, (k, whole)) = elim (dec_le max_line (length ds)) [
  | yes h ↦ (extra, full h, small, (suc k, omega (arith, whole, lengths)))
  | no h ↦
      let nothing = empty_body h in
      (
        drop (length ds) buf,
        last h nothing,
        omega (arith, size, filled, length-drop (length ds) buf),
        (1, omega (arith, lengths, ap length nothing)),
      )
]
  where
    first : List ℕ
    first = take max_line ds

    lengths : length (overwrite buf first ++ body) ≡ max_line + length body
    lengths = omega (
      arith,
      size,
      length-append (overwrite buf first) body,
      length-overwrite buf first (omega (arith, size, length-take max_line ds)),
    )

    full : max_line ≤ length ds → overwrite buf first ++ body ≡ ds ++ extra
    full h =
        ap (λ t. first ++ t ++ body)
          (drop_all (length first) buf (omega (arith, size, h, length-take max_line ds)))
        ∙ ap (λ t. t ++ body) (append-nil first)
        ∙ ap (λ t. first ++ t) e
        ∙ sym (append_assoc first (drop max_line ds) extra)
        ∙ ap (λ t. t ++ extra) (take-append-drop max_line ds)

    empty_body : ¬ (max_line ≤ length ds) → body ≡ []
    empty_body h = nil_of body (
        omega (
          arith,
          whole,
          small,
          h,
          length-drop max_line ds,
          ap length e,
          length-append (drop max_line ds) extra,
        ))

    last :
        ¬ (max_line ≤ length ds)
        → body ≡ []
        → overwrite buf first ++ body ≡ ds ++ drop (length ds) buf
    last h nothing =
        ap (λ t. overwrite buf t ++ body) (take_all max_line ds (omega (arith, h)))
        ∙ ap (λ t. overwrite buf ds ++ t) nothing
        ∙ append-nil (overwrite buf ds)

-- A block that is sent while every `write` takes something.
send_block_lem :
    (io : Io) (ds : List ℕ)
    → Takes io.writes
    → length ds ≤ length io.writes
    → Yields (send_block io ds) (λ io'.
      (io'.sent ≡ io.sent ++ ds)
      × Takes io'.writes
      × (length io.writes ≤ length io'.writes + length ds)
      × (io'.reads ≡ io.reads))
unfolding send_block
send_block_lem io ds h room =
    let ((result, ws, errno), done, (all, left, count)) =
      writen-Takes io.writes io.errno ds h room in
    (
      record io { writes = ws; errno = errno; sent = io.sent ++ bytes_of result },
      rw done refl,
      (ap (λ b. io.sent ++ bytes_of b) all, left, count, refl),
    )

copy_lem :
    (turns : ℕ) (buf : List ℕ) (io : Io) (ds : List ℕ)
    → length buf ≡ max_line
    → length ds ≤ max_line * turns
    → Supplies max_line io.reads max_line ds
    → Takes io.writes
    → max_line * turns ≤ length io.writes
    → Yields
        (copy_loop (suc turns) buf io)
        (λ io'. (body : List ℕ) × (io'.sent ≡ io.sent ++ body) × Padded ds body)
unfolding copy_loop after_read Padded
copy_lem turns buf io [] size room h takes many =
    let ((result, reads, errno), done, (all, _)) =
      readn-Supplies max_line io.reads io.errno [] (omega arith) h in
    (
      record io { reads = reads; errno = errno },
      rw (done, all) refl,
      ([], sym (append-nil io.sent), ([], refl, omega arith, (0, refl))),
    )
copy_lem zero buf io (d ∷ ds) size room h takes many = absurd (omega (arith, room))
copy_lem (suc turns) buf io (d ∷ ds) size room h takes many =
    let ((result, reads, errno), done, (all, later)) =
      readn-Supplies max_line io.reads io.errno (d ∷ ds) (omega arith) h in
    let io1 = record io { reads = reads; errno = errno } in
    let full =
      length-overwrite buf (take max_line (d ∷ ds))
        (omega (arith, size, length-take max_line (d ∷ ds))) in
    let (io2, sent, (s, takes2, count, same)) =
      send_block_lem io1 (overwrite buf (take max_line (d ∷ ds))) takes
        (omega (arith, many, full, size)) in
    let (io', copied, (body, s', padded)) =
      copy_lem turns (overwrite buf (take max_line (d ∷ ds))) io2 (drop max_line (d ∷ ds))
        (full ∙ size) (omega (arith, room, length-drop max_line (d ∷ ds)))
        (subst (λ k. Supplies max_line k max_line (drop max_line (d ∷ ds))) (sym same)
          (rest reads later))
        takes2 (omega (arith, many, count, full, size)) in
    (
      io',
      rw done (ap (after_read (copy_loop (suc turns)) buf io1) all ∙ rw sent copied),
      (
        overwrite buf (take max_line (d ∷ ds)) ++ body,
        s'
            ∙ ap (λ t. t ++ body) s
            ∙ append_assoc io.sent (overwrite buf (take max_line (d ∷ ds))) body,
        joined buf (d ∷ ds) body size (omega arith) padded,
      ),
    )
  where
    rest :
        (reads : List ReadResult)
        → ((d ∷ ds ≡ []) ⊎ Supplies max_line reads max_line (drop max_line (d ∷ ds)))
        → Supplies max_line reads max_line (drop max_line (d ∷ ds))
    rest reads (inl e) = absurd (omega (arith, ap length e))
    rest reads (inr h') = h'

-- Whatever text the `sprintf` calls leave in the array, if they keep its size and end it by a NUL:
-- however the reads of the file are cut, while every `write` takes something, and with turns
-- enough, `serve_static` sends that text and then the file, padded with less than a block of other
-- bytes to whole blocks.
pub serve_static-Padded :
    (header : Header) (turns : ℕ) (buf : List ℕ) (io : Io) (name : List ℕ) (filesize : ℕ)
    (ds : List ℕ)
    → length (header buf (file_type name) filesize) ≡ max_line
    → length (c_text (header buf (file_type name) filesize)) < max_line
    → length ds ≤ max_line * turns
    → Supplies max_line io.reads max_line ds
    → Takes io.writes
    → max_line + max_line * turns ≤ length io.writes
    → Yields (serve_static header (suc turns) buf io name filesize) (λ io'.
      (body : List ℕ) × (io'.sent
        ≡ io.sent ++ (c_text (header buf (file_type name) filesize) ++ body))
      × Padded ds body)
unfolding serve_static
serve_static-Padded header turns buf io name filesize ds size ended room h takes many =
    let printed = header buf (file_type name) filesize in
    let text = c_text printed in
    let (io1, sent, (s, takes1, count, same)) =
      send_block_lem io text takes (omega (arith, ended, many)) in
    let (io', copied, (body, s', padded)) =
      copy_lem turns printed io1 ds size room
        (subst (λ k. Supplies max_line k max_line ds) (sym same) h) takes1
        (omega (arith, many, count, ended)) in
    let inside : ltb (length text) (length printed) ≡ true = ground (arith, size, ended) in
    (
      io',
      rw (inside, sent) copied,
      (body, s' ∙ ap (λ t. t ++ body) s ∙ append_assoc io.sent text body, padded),
    )
