-- ===== src/Prelude/Slices.antt =====
-- Ranges of a list: reading `n` elements from an index on, and writing a block over an index.
use xweb.Prelude.Lists.{length, take, drop, length-append, length-take, length-drop}
use Prim.Native.Nat.{ℕ, zero, suc, ◌+◌, ◌≤◌}
use mathlib.Core.Path.{◌≡◌, refl, sym, ap, ◌∙◌}
use mathlib.Core.List.{List, [], ◌∷◌, ◌++◌, append_assoc}
use native.Mathlib.Omega.{arith}

module _ {ℓ} {A : Type ℓ} where
  abbrev pub slice : List A → ℕ → ℕ → List A
  slice xs i n = take n (drop i xs)

  -- `std::copy` of `ds` to index `i`.
  abbrev pub splice : List A → ℕ → List A → List A
  splice xs i ds = take i xs ++ (ds ++ drop (i + length ds) xs)

  pub take-append_le : (n : ℕ) (xs ys : List A) → n ≤ length xs → take n (xs ++ ys) ≡ take n xs
  take-append_le zero xs ys h = refl
  take-append_le (suc n) [] ys h = absurd (omega arith)
  take-append_le (suc n) (x ∷ xs) ys h = ap (◌∷◌ x) (take-append_le n xs ys (omega arith))

  pub take-append_all : (xs ys : List A) (n : ℕ) → length xs ≡ n → take n (xs ++ ys) ≡ xs
  take-append_all [] ys zero h = refl
  take-append_all [] ys (suc n) h = absurd (omega arith)
  take-append_all (x ∷ xs) ys zero h = absurd (omega arith)
  take-append_all (x ∷ xs) ys (suc n) h = ap (◌∷◌ x) (take-append_all xs ys n (omega arith))

  pub take_all : (n : ℕ) (xs : List A) → length xs ≤ n → take n xs ≡ xs
  take_all zero [] h = refl
  take_all zero (x ∷ xs) h = absurd (omega arith)
  take_all (suc n) [] h = refl
  take_all (suc n) (x ∷ xs) h = ap (◌∷◌ x) (take_all n xs (omega arith))

  pub drop_all : (n : ℕ) (xs : List A) → length xs ≤ n → drop n xs ≡ []
  drop_all zero [] h = refl
  drop_all zero (x ∷ xs) h = absurd (omega arith)
  drop_all (suc n) [] h = refl
  drop_all (suc n) (x ∷ xs) h = drop_all n xs (omega arith)

  pub drop-append_le :
      (n : ℕ) (xs ys : List A) → n ≤ length xs → drop n (xs ++ ys) ≡ drop n xs ++ ys
  drop-append_le zero xs ys h = refl
  drop-append_le (suc n) [] ys h = absurd (omega arith)
  drop-append_le (suc n) (x ∷ xs) ys h = drop-append_le n xs ys (omega arith)

  pub drop-append_all : (xs ys : List A) (n : ℕ) → length xs ≡ n → drop n (xs ++ ys) ≡ ys
  drop-append_all [] ys zero h = refl
  drop-append_all [] ys (suc n) h = absurd (omega arith)
  drop-append_all (x ∷ xs) ys zero h = absurd (omega arith)
  drop-append_all (x ∷ xs) ys (suc n) h = drop-append_all xs ys n (omega arith)

  drop-nil : (n : ℕ) → drop {A = A} n [] ≡ []
  drop-nil zero = refl
  drop-nil (suc n) = refl

  pub take-nil : (n : ℕ) → take {A = A} n [] ≡ []
  take-nil zero = refl
  take-nil (suc n) = refl

  pub drop-drop : (m n k : ℕ) (xs : List A) → n + m ≡ k → drop m (drop n xs) ≡ drop k xs
  drop-drop m zero k xs h = ap (λ j. drop j xs) (omega arith)
  drop-drop m (suc n) k [] h = drop-nil m ∙ sym (drop-nil k)
  drop-drop m (suc n) zero (x ∷ xs) h = absurd (omega arith)
  drop-drop m (suc n) (suc k) (x ∷ xs) h = drop-drop m n k xs (omega arith)

  pub drop-take : (m n k : ℕ) (xs : List A) → m + n ≡ k → drop m (take k xs) ≡ take n (drop m xs)
  drop-take zero n k xs h = ap (λ j. take j xs) (omega arith)
  drop-take (suc m) n zero xs h = absurd (omega arith)
  drop-take (suc m) n (suc k) [] h = sym (take-nil n)
  drop-take (suc m) n (suc k) (x ∷ xs) h = drop-take m n k xs (omega arith)

  pub take-take : (m n : ℕ) (xs : List A) → m ≤ n → take m (take n xs) ≡ take m xs
  take-take zero n xs h = refl
  take-take (suc m) zero xs h = absurd (omega arith)
  take-take (suc m) (suc n) [] h = refl
  take-take (suc m) (suc n) (x ∷ xs) h = ap (◌∷◌ x) (take-take m n xs (omega arith))

  pub take-append_add :
      (xs ys : List A) (n k : ℕ) → length xs + n ≡ k → take k (xs ++ ys) ≡ xs ++ take n ys
  take-append_add [] ys n k h = ap (λ j. take j ys) (omega arith)
  take-append_add (x ∷ xs) ys n zero h = absurd (omega arith)
  take-append_add (x ∷ xs) ys n (suc k) h = ap (◌∷◌ x) (take-append_add xs ys n k (omega arith))

  pub length-slice : (xs : List A) (i n : ℕ) → i + n ≤ length xs → length (slice xs i n) ≡ n
  length-slice xs i n h = omega (arith, length-take n (drop i xs), length-drop i xs)

  pub length-splice :
      (xs : List A) (i : ℕ) (ds : List A)
      → i + length ds ≤ length xs
      → length (splice xs i ds) ≡ length xs
  length-splice xs i ds h = omega (
    arith,
    length-append (take i xs) (ds ++ drop (i + length ds) xs),
    length-append ds (drop (i + length ds) xs),
    length-take i xs,
    length-drop (i + length ds) xs,
  )

  -- A block written just behind a range extends it.
  pub slice-splice_after :
      (xs : List A) (i n w m : ℕ) (ds : List A)
      → i + n ≡ w
      → w + length ds ≤ length xs
      → n + length ds ≡ m
      → slice (splice xs w ds) i m ≡ slice xs i n ++ ds
  slice-splice_after xs i n w m ds hw hl hm =
      rw
        (
          drop-append_le i (take w xs) (ds ++ drop (w + length ds) xs)
              (omega (arith, length-take w xs)),
          drop-take i n w xs hw,
          ← append_assoc (slice xs i n) ds (drop (w + length ds) xs),
        )
        (take-append_all (slice xs i n ++ ds) (drop (w + length ds) xs) m
          (omega (arith, length-append (slice xs i n) ds, length-slice xs i n (omega arith))))

  -- A block written just before a range extends it.
  pub slice-splice_before :
      (xs : List A) (i n r m : ℕ) (ds : List A)
      → i + length ds ≡ r
      → r ≤ length xs
      → length ds + n ≡ m
      → slice (splice xs i ds) i m ≡ ds ++ slice xs r n
  slice-splice_before xs i n r m ds hr hl hm =
      rw
        (
          drop-append_all (take i xs) (ds ++ drop (i + length ds) xs) i
              (omega (arith, length-take i xs)),
          hr,
        )
        (take-append_add ds (drop r xs) n m hm)

  pub slice-append :
      (xs ys : List A) (i n : ℕ) → i + n ≤ length xs → slice (xs ++ ys) i n ≡ slice xs i n
  slice-append xs ys i n h =
      rw (drop-append_le i xs ys (omega arith))
        (take-append_le n (drop i xs) ys (omega (arith, length-drop i xs)))

  pub drop-slice :
      (xs : List A) (i n k j m : ℕ) → i + k ≡ j → k + m ≡ n → drop k (slice xs i n) ≡ slice xs j m
  drop-slice xs i n k j m hj hm =
      drop-take k m n (drop i xs) hm ∙ ap (take m) (drop-drop k i j xs hj)

  pub take-slice : (xs : List A) (i n k : ℕ) → k ≤ n → take k (slice xs i n) ≡ slice xs i k
  take-slice xs i n k h = take-take k n (drop i xs) h

  pub slice-splice_self :
      (xs : List A) (i m : ℕ) (ds : List A)
      → i + length ds ≤ length xs
      → length ds ≡ m
      → slice (splice xs i ds) i m ≡ ds
  slice-splice_self xs i m ds h hm =
      rw
        (drop-append_all (take i xs) (ds ++ drop (i + length ds) xs) i
          (omega (arith, length-take i xs)))
        (take-append_all ds (drop (i + length ds) xs) m hm)
