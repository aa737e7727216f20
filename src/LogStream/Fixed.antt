-- ===== src/LogStream/Fixed.antt =====
-- The fixed buffer of base/log_stream.h stays within its array.
use xweb.Prelude.{
  Yields, zero, append_assoc, append-nil, sym, ℕ, ◌+◌, ◌-◌, ◌^◌, ◌≤◌, ◌<◌, ◌≡◌, refl, List, [], ◌∷◌,
  ◌++◌, none, ltb, leb, if◌then◌else◌, length, take, length-append, length-replicate, arith, dec_lt,
  dec_le, ◌∙◌, ap,
}
use xweb.Prelude.Slices.{
  take-append_all, take-slice, length-slice, splice, length-splice, slice-splice_after, slice,
}
use xweb.Prelude.Memory.{copy_to_lem}
use xweb.LogStream.{reset, FixedBuffer, new_fixed, avail, append, put_numeric, max_numeric_size}

-- `cur_` points into the array, whose size is an `int`.
pub record IsValid (b : FixedBuffer) : Type 0 where
  pub inside : b.cur < length b.buf
  pub small : length b.buf < 2 ^ 31

-- The bytes from `data_` to `cur_`.
unfoldable pub text : FixedBuffer → List ℕ
text b = slice b.buf 0 b.cur

pub new_fixed-IsValid :
    (size : ℕ) → 0 < size → size < 2 ^ 31 → IsValid (new_fixed size) × (text (new_fixed size) ≡ [])
unfolding new_fixed text
new_fixed-IsValid size h k = (omega (arith, length-replicate size (zero)), refl)

pub length-new_fixed :
    (size : ℕ) → (length (new_fixed size).buf ≡ size) × ((new_fixed size).cur ≡ 0)
unfolding new_fixed
length-new_fixed size = (length-replicate size (zero), refl)

pub reset_lem :
    {b : FixedBuffer}
    → IsValid b
    → IsValid (reset b) × (length (reset b).buf ≡ length b.buf) × ((reset b).cur ≡ 0)
unfolding reset
reset_lem v = omega arith

pub text_of_empty : (b : FixedBuffer) → b.cur ≡ 0 → text b ≡ []
unfolding text
text_of_empty b e = rw e refl

module _ {b : FixedBuffer} (v : IsValid b) where
  pub length-text : length (text b) ≡ b.cur
  unfolding text
  length-text = length-slice b.buf 0 b.cur (omega arith)

  pub avail_lem : avail b + length (text b) ≡ length b.buf
  unfolding avail
  avail_lem = omega (arith, length-text)

  -- The buffer after `ws` is written at `cur_`, which then advances by `n`.
  abbrev filled : List ℕ → ℕ → FixedBuffer
  filled ws n = record { buf = splice b.buf b.cur ws; cur = b.cur + n }

  filled_lem :
      (ws ds more : List ℕ)
      → ws ≡ ds ++ more
      → b.cur + length ws ≤ length b.buf
      → b.cur + length ds < length b.buf
      → IsValid (filled ws (length ds))
        × (text (filled ws (length ds)) ≡ text b ++ ds)
        × (length (splice b.buf b.cur ws) ≡ length b.buf)
  unfolding text
  filled_lem ws ds more e h k =
      let size = length-splice b.buf b.cur ws h in
      let sum : length ws ≡ length ds + length more = ap length e ∙ length-append ds more in
      (
        omega (arith, size),
        sym (take-slice (splice b.buf b.cur ws) 0 (b.cur + length ws) _ (omega arith))
            ∙ ap (take (b.cur + length ds)) (
                slice-splice_after b.buf 0 b.cur b.cur _ ws (omega arith) h refl
                ∙ ap (λ xs. text b ++ xs) e
                ∙ sym (append_assoc (text b) ds more))
            ∙ take-append_all (text b ++ ds) more _
                (omega (arith, length-append (text b) ds, length-text)),
        size,
      )

  -- `append` takes a block that is smaller than the room left and drops any other; it never leaves
  -- the array.
  pub append_lem :
      (ds : List ℕ)
      → length ds < 2 ^ 31
      → Yields (append b ds) (λ b'.
        IsValid b'
        × (length b'.buf ≡ length b.buf)
        × (text b' ≡ (if ltb (length ds) (avail b) then text b ++ ds else text b)))
  unfolding append avail
  append_lem ds small = elim (dec_lt (length ds) (length b.buf - b.cur)) [
    | yes h ↦
        let (valid, bytes, size) =
          filled_lem ds ds [] (sym (append-nil ds)) (omega arith) (omega arith) in
        (
          filled ds (length ds),
          ground (arith, copy_to_lem b.buf b.cur ds),
          (valid, size, ground arith),
        )
    | no h ↦ (b, ground arith, (v, refl, ground arith))
  ]

  -- A number whose text is shorter than the reserve of 32 bytes is written whole, with its NUL
  -- inside the array, or dropped where less than the reserve is left.
  pub put_numeric_lem :
      (ds : List ℕ)
      → length ds < max_numeric_size
      → Yields (put_numeric b ds) (λ b'.
        IsValid b'
        × (length b'.buf ≡ length b.buf)
        × (text b' ≡ (if leb max_numeric_size (avail b) then text b ++ ds else text b)))
  unfolding put_numeric avail
  put_numeric_lem ds small = elim (dec_le max_numeric_size (length b.buf - b.cur)) [
    | yes h ↦
        let (valid, bytes, size) =
          filled_lem (ds ++ 0 ∷ []) ds (0 ∷ []) refl (omega (arith, length-append ds (0 ∷ [])))
            (omega arith) in
        (
          filled (ds ++ 0 ∷ []) (length ds),
          ground (arith, length-append ds (0 ∷ []), copy_to_lem b.buf b.cur (ds ++ 0 ∷ [])),
          (valid, size, ground arith),
        )
    | no h ↦ (b, ground arith, (v, refl, ground arith))
  ]

  -- A block of 2 GiB or more that is not smaller than the room left is written over the end of the
  -- array, because its length turns into a negative `int`.
  pub append_huge : (ds : List ℕ) → 2 ^ 31 ≤ length ds → length ds < 2 ^ 32 → append b ds ≡ none
  unfolding append
  append_huge ds large small = ground arith
