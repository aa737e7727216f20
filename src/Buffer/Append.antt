-- ===== src/Buffer/Append.antt =====
-- What the operations of net/buffer.h that add bytes do with the content of the buffer.
use xweb.Prelude.{
  Yields, none, ◌≢◌, ℕ, [], ◌+◌, ◌-◌, ◌≤◌, ◌≡◌, refl, some, List, ◌++◌, inl, inr, arith, ltb,
  length, Bool-cases, ◌∙◌, ap,
}
use xweb.Prelude.Slices.{splice, length-splice, slice-splice_after, slice-splice_before}
use xweb.Prelude.Memory.{copy_to_lem}
use xweb.Buffer.{
  cheap_prepend, new_buffer, initial_size, content, Buffer, max_size, writable_bytes,
  ensure_writable_bytes, append, prepend, has_written, prependable_bytes, fresh,
}
use xweb.Buffer.Invariant.{IsValid, Roomy, writable_bytes_lem, make_space_lem}

pub fresh-IsValid : IsValid fresh × (content fresh ≡ [])
unfolding fresh content
fresh-IsValid = (omega arith, refl)

pub writer_index-fresh : fresh.writer_index ≡ cheap_prepend
unfolding fresh
writer_index-fresh = refl

pub new_buffer-default : new_buffer initial_size ≡ some fresh
unfolding new_buffer
new_buffer-default = refl

-- The constructor ignores its argument: any other size than the default fails its `assert`.
pub new_buffer-other : (init_size : ℕ) → init_size ≢ initial_size → new_buffer init_size ≡ none
unfolding new_buffer
new_buffer-other init_size h = ground arith

-- The buffer after `ds` is copied behind its bytes.
abbrev pub written : Buffer → List ℕ → Buffer
written b ds = record b {
  buffer = splice b.buffer b.writer_index ds;
  writer_index = b.writer_index + length ds;
}

pub written_lem :
    {b : Buffer}
    → IsValid b
    → (ds : List ℕ) → b.writer_index + length ds ≤ length b.buffer
    → IsValid (written b ds) × (content (written b ds) ≡ content b ++ ds)
unfolding content
written_lem {b} v ds fits = (
  omega (arith, length-splice b.buffer b.writer_index ds fits),
  slice-splice_after b.buffer b.reader_index _ b.writer_index _ ds (omega arith) fits (omega arith),
)

module _ {b : Buffer} (v : IsValid b) where
  pub ensure_writable_bytes_lem :
      (len : ℕ)
      → b.writer_index + len ≤ max_size
      → Yields (ensure_writable_bytes b len) (Roomy b len)
  unfolding ensure_writable_bytes
  ensure_writable_bytes_lem len fits = elim (Bool-cases (ltb (writable_bytes b) len)) [
    | inl e ↦
        let (b', made, roomy) = make_space_lem len v (ground (arith, writable_bytes_lem v)) fits in
        (b', rw (e, made) (ground (arith, writable_bytes_lem roomy.0)), roomy)
    | inr e ↦ (
      b,
      rw e (ground (arith, writable_bytes_lem v)),
      (v, refl, ground (arith, writable_bytes_lem v)),
    )
  ]

  -- On a valid buffer whose write index stays within the largest vector, `append` does not stop,
  -- keeps the buffer valid, and adds exactly its bytes behind the content, whether it writes in
  -- place, moves the content to the front or grows the vector.
  pub append_refines :
      (ds : List ℕ)
      → b.writer_index + length ds ≤ max_size
      → Yields (append b ds) (λ b'. IsValid b' × (content b' ≡ content b ++ ds))
  unfolding append has_written
  append_refines ds fits =
      let (b', made, roomy) = ensure_writable_bytes_lem (length ds) fits in
      let (valid, bytes) = written_lem roomy.0 ds roomy.2 in
      (
        written b' ds,
        rw made (
            ground (
              arith,
              copy_to_lem b'.buffer b'.writer_index ds,
              length-splice b'.buffer b'.writer_index ds,
              writable_bytes_lem {b = record b' { buffer = splice b'.buffer b'.writer_index ds }}
                  (omega (arith, roomy, length-splice b'.buffer b'.writer_index ds)),
              roomy,
            )),
        (valid, bytes ∙ ap (λ c. c ++ ds) roomy.1),
      )

  -- On a valid buffer with room in front, `prepend` does not stop, keeps the buffer valid, puts
  -- exactly its bytes before the content, and takes that much of the room.
  pub prepend_refines :
      (ds : List ℕ)
      → length ds ≤ b.reader_index
      → Yields (prepend b ds) (λ b'.
        IsValid b'
        × (content b' ≡ ds ++ content b)
        × (b'.reader_index + length ds ≡ b.reader_index))
  unfolding prepend prependable_bytes content
  prepend_refines ds fits = (
    record b {
      buffer = splice b.buffer (b.reader_index - length ds) ds;
      reader_index = b.reader_index - length ds;
    },
    ground (arith, copy_to_lem b.buffer (b.reader_index - length ds) ds),
    (
      omega (arith, length-splice b.buffer (b.reader_index - length ds) ds),
      slice-splice_before b.buffer (b.reader_index - length ds) (b.writer_index - b.reader_index)
          b.reader_index _ ds (omega arith) (omega arith) (omega arith),
      omega arith,
    ),
  )

  -- Where there is room, `append` neither grows nor moves.
  pub append_in_place :
      (ds : List ℕ)
      → b.writer_index + length ds ≤ length b.buffer
      → append b ds ≡ some (written b ds)
  unfolding append ensure_writable_bytes has_written
  append_in_place ds room = ground (
    arith,
    writable_bytes_lem v,
    copy_to_lem b.buffer b.writer_index ds,
    length-splice b.buffer b.writer_index ds,
    writable_bytes_lem {b = record b { buffer = splice b.buffer b.writer_index ds }}
        (omega (arith, length-splice b.buffer b.writer_index ds)),
  )
