-- ===== src/Buffer/Retrieve.antt =====
-- What the operations of net/buffer.h that remove bytes do with the content of the buffer.
use xweb.Prelude.{
  Yields, ℕ, ◌+◌, ◌-◌, ◌≤◌, ◌<◌, ◌≡◌, refl, [], none, arith, ltb, Bool-cases, inl, inr, length,
  take, drop, ◌∙◌, ap, sym,
}
use xweb.Prelude.Slices.{slice, drop-slice, take-slice, take_all, drop_all}
use xweb.Buffer.{
  Buffer, content, cheap_prepend, retrieve, retrieve_all, retrieve_as_string,
  retrieve_all_as_string, unwrite, readable_bytes, peek,
}
use xweb.Buffer.Invariant.{IsValid, readable_bytes_lem, length-content}

abbrev advanced : Buffer → ℕ → Buffer
advanced b len = record b { reader_index = b.reader_index + len }

module _ {b : Buffer} (v : IsValid b) where
  advanced_lem :
      (len : ℕ)
      → len ≤ length (content b)
      → IsValid (advanced b len) × (content (advanced b len) ≡ drop len (content b))
  unfolding content
  advanced_lem len h =
      let fits : len ≤ b.writer_index - b.reader_index = omega (arith, length-content v) in
      (omega arith, sym (drop-slice b.buffer b.reader_index _ len _ _ (omega arith) (omega arith)))

  emptied_lem :
      (len : ℕ)
      → length (content b) ≤ len
      → IsValid (retrieve_all b) × (content (retrieve_all b) ≡ drop len (content b))
  unfolding retrieve_all content
  emptied_lem len h = (omega arith, sym (drop_all len (content b) h))

  -- `retrieve` drops the oldest bytes, whichever branch it takes, and never stops when that many
  -- are readable; an emptied buffer starts again behind the prepend area.
  pub retrieve_refines :
      (len : ℕ)
      → len ≤ length (content b)
      → Yields (retrieve b len) (λ b'.
        IsValid b'
        × (content b' ≡ drop len (content b))
        × (len ≡ length (content b) → b'.writer_index ≡ cheap_prepend))
  unfolding retrieve retrieve_all
  retrieve_refines len h = elim (Bool-cases (ltb len (readable_bytes b))) [
    | inl e ↦ (
      advanced b len,
      rw e (ground (arith, readable_bytes_lem v)),
      (
        (advanced_lem len h).0,
        (advanced_lem len h).1,
        λ all. absurd (ground (arith, readable_bytes_lem v, length-content v)),
      ),
    )
    | inr e ↦
        let (valid, rest) =
          emptied_lem len (ground (arith, readable_bytes_lem v, length-content v)) in
        (
          retrieve_all b,
          rw e (ground (arith, readable_bytes_lem v, length-content v)),
          (valid, rest, λ all. refl),
        )
  ]

  pub retrieve_too_much : (len : ℕ) → length (content b) < len → retrieve b len ≡ none
  unfolding retrieve
  retrieve_too_much len h = ground (arith, readable_bytes_lem v, length-content v)

  pub peek_lem : (len : ℕ) → len ≤ length (content b) → peek b len ≡ take len (content b)
  unfolding peek content
  peek_lem len h = sym (
      take-slice b.buffer b.reader_index (b.writer_index - b.reader_index) len
        (omega (arith, length-content v)))

  -- On a valid buffer, up to the number of readable bytes, `retrieveAsString` does not stop: it
  -- returns that many of the oldest bytes and leaves a valid buffer with the others.
  pub retrieve_as_string_refines :
      (len : ℕ)
      → len ≤ length (content b)
      → Yields
          (retrieve_as_string b len)
          (λ r. (r.0 ≡ take len (content b)) × IsValid r.1 × (content r.1 ≡ drop len (content b)))
  unfolding retrieve_as_string
  retrieve_as_string_refines len h =
      let (b', done, after) = retrieve_refines len h in
      (
        (peek b len, b'),
        rw done (ground (arith, readable_bytes_lem v, length-content v)),
        (peek_lem len h, after.0, after.1),
      )

  pub retrieve_all_as_string_refines :
      Yields (retrieve_all_as_string b) (λ r. (r.0 ≡ content b) × IsValid r.1 × (content r.1 ≡ []))
  unfolding retrieve_all_as_string
  retrieve_all_as_string_refines =
      let all = length (content b) in
      let (r, done, (bytes, valid, rest)) = retrieve_as_string_refines all (omega arith) in
      (
        r,
        rw (readable_bytes_lem v, ← length-content v) done,
        (
          bytes ∙ take_all all (content b) (omega arith),
          valid,
          rest ∙ drop_all all (content b) (omega arith),
        ),
      )

  -- On a valid buffer, up to the number of readable bytes, `unwrite` does not stop: it takes back
  -- that many of the newest bytes and leaves a valid buffer with the others.
  pub unwrite_refines :
      (len kept : ℕ)
      → kept + len ≡ length (content b)
      → Yields (unwrite b len) (λ b'. IsValid b' × (content b' ≡ take kept (content b)))
  unfolding unwrite content
  unwrite_refines len kept h =
      let n = length-content v in
      (
        record b { writer_index = b.writer_index - len },
        ground (arith, readable_bytes_lem v, length-content v),
        (
          omega (arith, length-content v),
          ap (λ n. slice b.buffer b.reader_index n) (omega (arith, length-content v))
              ∙ sym (take-slice b.buffer b.reader_index _ kept (omega (arith, length-content v))),
        ),
      )
