-- ===== src/Buffer/Invariant.antt =====
-- The representation invariant of the buffer and the bytes that it holds.
use xweb.Prelude.{
  Yields, ℕ, zero, ◌+◌, ◌-◌, ◌≤◌, ◌<◌, ◌≡◌, List, ◌++◌, some, inl, inr, arith, ltb, length,
  replicate, length-append, length-replicate, Bool-cases, add_size,
}
use xweb.Prelude.Slices.{
  slice, splice, length-splice, length-slice, slice-append, slice-splice_self, take_all,
}
use xweb.Prelude.Memory.{copy_to_lem}
use xweb.Buffer.{
  content, Buffer, cheap_prepend, max_size, readable_bytes, writable_bytes, prependable_bytes,
  make_space, resize,
}

pub record IsValid (b : Buffer) : Type 0 where
  pub order : b.reader_index ≤ b.writer_index
  pub inside : b.writer_index ≤ length b.buffer
  pub room : cheap_prepend ≤ length b.buffer
  pub small : length b.buffer ≤ max_size

pub readable_bytes_lem :
    {b : Buffer} → IsValid b → readable_bytes b ≡ b.writer_index - b.reader_index
unfolding readable_bytes
readable_bytes_lem v = omega arith

pub writable_bytes_lem :
    {b : Buffer} → IsValid b → writable_bytes b ≡ length b.buffer - b.writer_index
unfolding writable_bytes
writable_bytes_lem v = omega arith

pub length-content : {b : Buffer} → IsValid b → length (content b) ≡ b.writer_index - b.reader_index
unfolding content
length-content {b} v = length-slice b.buffer b.reader_index _ (omega arith)

resize_lem :
    (bs : List ℕ) (n : ℕ)
    → length bs ≤ n
    → n ≤ max_size
    → resize bs n ≡ some (bs ++ replicate (n - length bs) 0)
unfolding resize
resize_lem bs n h k = ground (arith, take_all n bs)

-- The same bytes, and room for `len` more.
abbrev pub Roomy : Buffer → ℕ → Buffer → Type 0
Roomy b len b' = IsValid b' × (content b' ≡ content b) × (b'.writer_index + len ≤ length b'.buffer)

module _ {b : Buffer} (len : ℕ) (v : IsValid b) (need : length b.buffer - b.writer_index < len)
    (fits : b.writer_index + len ≤ max_size) where
  abbrev gap : ℕ
  gap = b.writer_index + len - length b.buffer

  abbrev readable : ℕ
  readable = b.writer_index - b.reader_index

  abbrev held : List ℕ
  held = slice b.buffer b.reader_index readable

  length-held : length held ≡ readable
  length-held = length-slice b.buffer b.reader_index readable (omega arith)

  grown : Buffer
  grown = record b { buffer = b.buffer ++ replicate gap 0 }

  moved : Buffer
  moved = record b {
    buffer = splice b.buffer cheap_prepend held;
    reader_index = cheap_prepend;
    writer_index = cheap_prepend + readable;
  }

  length-grown : length grown.buffer ≡ b.writer_index + len
  unfolding grown
  length-grown =
      omega (arith, length-append b.buffer (replicate gap 0), length-replicate gap (zero))

  grown-Roomy : Roomy b len grown
  unfolding content grown
  grown-Roomy = (
    omega (arith, length-grown),
    slice-append b.buffer _ b.reader_index _ (omega arith),
    omega (arith, length-grown),
  )

  moved-Roomy :
      cheap_prepend + len ≤ length b.buffer - readable
      → cheap_prepend < b.reader_index
      → Roomy b len moved
  unfolding content moved
  moved-Roomy h front =
      let e = length-splice b.buffer cheap_prepend held (omega (arith, length-held)) in
      (
        omega (arith, e),
        slice-splice_self b.buffer cheap_prepend _ held (omega (arith, length-held))
            (omega (arith, length-held)),
        omega (arith, e),
      )

  pub make_space_lem : Yields (make_space b len) (Roomy b len)
  unfolding make_space readable_bytes writable_bytes prependable_bytes moved grown
  make_space_lem =
      elim (Bool-cases
        (ltb (add_size (writable_bytes b) (prependable_bytes b)) (add_size len cheap_prepend))) [
          | inl e ↦ (
            grown,
            rw e (ground (arith, resize_lem b.buffer (b.writer_index + len))),
            grown-Roomy,
          )
          | inr e ↦ (
            moved,
            rw e (ground (arith, copy_to_lem b.buffer cheap_prepend held, length-held)),
            moved-Roomy (ground arith) (ground arith),
          )
        ]
