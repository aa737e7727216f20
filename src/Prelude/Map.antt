-- ===== src/Prelude/Map.antt =====
-- `std::map` as an association list with keys of any discrete type.

use mathlib.Core.Path.{◌≡◌, refl, subst}
use mathlib.Core.Logic.{◌≢◌}
use mathlib.Core.List.{List, [], ◌∷◌}
use mathlib.Core.Option.{Option, none, some}
use xweb.Prelude.Lists.{All}
use native.Mathlib.Omega.{arith}

module _ {ℓ κ} {K : Type ℓ} {V : Type κ} (dec : Discrete K) where
  unfoldable pub find : List (K × V) → K → Option V
  find [] k = none
  find (e ∷ m) k = elim (dec e.0 k) [ yes _ ↦ some e.1 | no _ ↦ find m k ]

  unfoldable pub erase : List (K × V) → K → List (K × V)
  erase [] k = []
  erase (e ∷ m) k = elim (dec e.0 k) [ yes _ ↦ erase m k | no _ ↦ e ∷ erase m k ]

  -- `m[k] = v`
  unfoldable pub assign : List (K × V) → K → V → List (K × V)
  unfolding erase
  assign m k v = (k, v) ∷ erase m k

  pub find-erase : (m : List (K × V)) (k : K) → find (erase m k) k ≡ none
  unfolding find erase
  find-erase [] k = refl
  find-erase (e ∷ m) k = ground (arith, find-erase m k)

  pub find-erase_ne : (m : List (K × V)) (k j : K) → k ≢ j → find (erase m k) j ≡ find m j
  unfolding find erase
  find-erase_ne [] k j h = refl
  find-erase_ne (e ∷ m) k j h = ground (arith, find-erase_ne m k j)

  pub find-assign : (m : List (K × V)) (k : K) (v : V) → find (assign m k v) k ≡ some v
  unfolding find assign
  find-assign m k v = ground arith

  pub find-assign_ne :
      (m : List (K × V)) (k j : K) (v : V) → k ≢ j → find (assign m k v) j ≡ find m j
  unfolding find assign
  find-assign_ne m k j v h = ground (arith, find-erase_ne m k j)

  -- Without the key there is nothing to erase.
  pub erase_absent : (m : List (K × V)) (k : K) → find m k ≡ none → erase m k ≡ m
  unfolding find erase
  erase_absent [] k h = refl
  erase_absent (e ∷ m) k h = ground (arith, erase_absent m k)

  pub All-erase {ρ} : (P : K × V → Type ρ) (m : List (K × V)) (k : K) → All P m → All P (erase m k)
  unfolding erase
  All-erase P [] k h = h
  All-erase P (e ∷ m) k h = by_key (dec e.0 k) (All-erase P m k h.1)
    where
      by_key :
          (d : Dec (e.0 ≡ k))
          → All P (erase m k)
          → All P (elim d [ yes _ ↦ erase m k | no _ ↦ e ∷ erase m k ])
      by_key (yes _) all = all
      by_key (no _) all = (h.0, all)

  -- What holds of every entry holds of what is found.
  pub find-All {ρ} :
      (P : K × V → Type ρ) (m : List (K × V)) (k : K) (v : V)
      → All P m
      → find m k ≡ some v
      → P (k, v)
  unfolding find
  find-All P [] k v h e = absurd (ground (arith, e))
  find-All P (e ∷ m) k v h found = by_key (dec e.0 k) (find-All P m k v h.1) found
    where
      by_key :
          (d : Dec (e.0 ≡ k))
          → (find m k ≡ some v → P (k, v))
          → elim d [ yes _ ↦ some e.1 | no _ ↦ find m k ] ≡ some v
          → P (k, v)
      by_key (yes same) later q = subst P (ground (arith, same, q)) h.0
      by_key (no _) later q = later q
