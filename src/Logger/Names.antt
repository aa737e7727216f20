-- ===== src/Logger/Names.antt =====
-- base/logger.h: the name of a source file without its directories.
use xweb.Prelude.{
  ℕ, ◌≡◌, ◌≢◌, refl, List, [], ◌∷◌, ◌++◌, some, none, length, All, arith, length-append,
}
use xweb.Logger.{source_array, source_pointer, behind_last, behind_slash, slash}

abbrev pub Free : ℕ → List ℕ → Type 0
Free c xs = All (λ x. x ≢ c) xs

behind_last-Free : (c : ℕ) (xs : List ℕ) → Free c xs → behind_last c xs ≡ none
unfolding behind_last
behind_last-Free c [] h = refl
behind_last-Free c (x ∷ xs) h = ground (arith, h.0, behind_last-Free c xs h.1)

behind_last-append :
    (c : ℕ) (dir base : List ℕ) → Free c base → behind_last c (dir ++ c ∷ base) ≡ some base
unfolding behind_last
behind_last-append c [] base h = ground (arith, behind_last-Free c base h)
behind_last-append c (x ∷ dir) base h = ground (arith, behind_last-append c dir base h)

behind_slash-append :
    (dir base : List ℕ) → Free slash base → behind_slash (dir ++ slash ∷ base) ≡ some base
unfolding behind_slash
behind_slash-append dir base h = ground (arith, behind_last-append slash dir base h)

-- Both constructors of a source file keep what follows the last slash.
pub source-slash :
    (dir base : List ℕ)
    → Free slash base
    → (source_array (dir ++ slash ∷ base) ≡ record { data_text = base; size = length base })
      × (source_pointer (dir ++ slash ∷ base) ≡ record { data_text = base; size = length base })
unfolding source_array source_pointer
source-slash dir base h = (
  ground (arith, behind_slash-append dir base h, length-append dir (slash ∷ base)),
  ground (arith, behind_slash-append dir base h),
)
