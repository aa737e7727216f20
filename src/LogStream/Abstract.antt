-- ===== src/LogStream/Abstract.antt =====
-- base/log_stream.h: what a FixedBuffer is for its clients. Two buffers of one size with the same
-- text cannot be told apart by `append`, whatever lies behind the text in the array.
use mathlib.Core.Equiv.{IsEquiv, Iso, iso_to_equiv}
use mathlib.Core.HLevel.{Σ_prop_path}
use mathlib.Core.List
use mathlib.Core.Quot
use mathlib.Core.Quot.{Quot, Quot-set}
use native.Mathlib.Bridge.{le_prop}
use native.Mathlib.Nat.{ℕ_set}
use xweb.Prelude.{
  Yields, ℕ, zero, ◌-◌, ◌^◌, ◌<◌, ◌≡◌, refl, List, ◌++◌, if◌then◌else◌, ltb, length, replicate,
  length-append, length-replicate, arith, ◌∙◌, ap, sym,
}
use xweb.Prelude.Slices.{take-append_all}
use xweb.LogStream.{FixedBuffer, append, avail}
use xweb.LogStream.Fixed.{IsValid, text, append_lem, length-text, avail_lem}

module _ (size : ℕ) (small : size < 2 ^ 31) where
  -- A buffer that any calls can have left.
  abbrev pub SizedBuffer : Type 0
  SizedBuffer = (b : FixedBuffer) × IsValid b × (length b.buf ≡ size)

  abbrev pub SameText : SizedBuffer → SizedBuffer → Type 0
  SameText b c = text b.0 ≡ text c.0

  abbrev pub AbstractBuffer : Type 0
  AbstractBuffer = Quot SameText

  -- A text that leaves at least one byte of the array.
  abbrev pub ShortText : Type 0
  ShortText = (ds : List ℕ) × (length ds < size)

  abbrev of_text : List ℕ → FixedBuffer
  of_text ds = record { buf = ds ++ replicate (size - length ds) 0; cur = length ds }

  text-of_text : (ds : List ℕ) → text (of_text ds) ≡ ds
  unfolding text
  text-of_text ds = take-append_all ds (replicate (size - length ds) 0) (length ds) refl

  sized_of : (ds : List ℕ) → length ds < size → SizedBuffer
  sized_of ds h =
      let same : length (of_text ds).buf ≡ size = omega (
        arith,
        length-append ds (replicate (size - length ds) 0),
        length-replicate (size - length ds) (zero),
      ) in
      (of_text ds, record { inside = omega (arith, same); small = omega (arith, same) }, same)

  short_lem : (b : SizedBuffer) → length (text b.0) < size
  short_lem b = omega (arith, length-text b.1, b.2, b.1.inside)

  pub bytes : AbstractBuffer → List ℕ
  bytes = Quot.lift (List.is_set ℕ_set) (λ b. text b.0) (λ b c h. h)

  short : (q : AbstractBuffer) → length (bytes q) < size
  unfolding bytes
  short = Quot.ind (λ q. le_prop) short_lem

  pub read : AbstractBuffer → ShortText
  unfolding bytes
  read q = (bytes q, short q)

  pub read_iso : Iso AbstractBuffer ShortText
  unfolding read bytes sized_of
  read_iso = record {
    fun = read;
    inv = λ t. Quot.mk (sized_of t.0 t.1);
    rinv = λ t. Σ_prop_path (λ ds. le_prop) (text-of_text t.0);
    linv = Quot.ind (λ q. Quot-set _ _) (λ b. Quot.sound (text-of_text (text b.0)));
  }

  -- `append` at the level of texts.
  abbrev pub extended : List ℕ → List ℕ → List ℕ
  extended ds t = if ltb (length ds) (size - length t) then t ++ ds else t

  module _ (ds : List ℕ) (fits : length ds < 2 ^ 31) where
    -- `append` on one of the buffers, which does not leave the array.
    abbrev appended : SizedBuffer → SizedBuffer
    appended b =
        let (b', done, (valid, same, now)) = append_lem b.1 ds fits in (b', valid, same ∙ b.2)

    text-appended : (b : SizedBuffer) → text (appended b).0 ≡ extended ds (text b.0)
    text-appended b =
        let (b', done, (valid, same, now)) = append_lem b.1 ds fits in
        let room : avail b.0 ≡ size - length (text b.0) = omega (arith, avail_lem b.1, b.2) in
        rw room at now

    pub push : AbstractBuffer → AbstractBuffer
    push =
        Quot.lift Quot-set (λ b. Quot.mk (appended b))
          (λ b c h. Quot.sound (text-appended b ∙ ap (extended ds) h ∙ sym (text-appended c)))

    -- Up to what lies behind the text, the buffers of a size below 2 GiB are exactly the texts
    -- shorter than the array (reading the text is an equivalence), and `append` of a block below
    -- 2 GiB, which never leaves the array, is a function on them: it extends the text by the
    -- block, or leaves it where the room is not larger than the block.
    pub read-append :
        (b : SizedBuffer)
        → IsEquiv read
          × Yields (append b.0 ds) (λ b'.
            (c : SizedBuffer) × (c.0 ≡ b')
            × (push (Quot.mk b) ≡ Quot.mk c)
            × (bytes (push (Quot.mk b)) ≡ extended ds (bytes (Quot.mk b))))
    unfolding push bytes read_iso read
    read-append b =
        let (b', done, _) = append_lem b.1 ds fits in
        ((iso_to_equiv read_iso).1, (b', done, (appended b, refl, refl, text-appended b)))
