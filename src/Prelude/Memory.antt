-- ===== src/Prelude/Memory.antt =====
-- A block copied into an array: `none` is a copy that leaves the array.
use Prim.Native.Nat.{ℕ, ◌+◌, ◌≤◌}
use mathlib.Core.Path.{◌≡◌}
use mathlib.Core.List.{List}
use mathlib.Core.Option.{Option, none, some}
use native.Mathlib.Omega.{arith}
use xweb.Prelude.Compare.{leb, if◌then◌else◌}
use xweb.Prelude.Lists.{length}
use xweb.Prelude.Slices.{splice}

-- `memcpy` or `std::copy` of `ds` to index `i`.
unfoldable pub copy_to : List ℕ → ℕ → List ℕ → Option (List ℕ)
copy_to bytes i ds = if leb (i + length ds) (length bytes) then some (splice bytes i ds) else none

pub copy_to_lem :
    (bs : List ℕ) (i : ℕ) (ds : List ℕ)
    → i + length ds ≤ length bs
    → copy_to bs i ds ≡ some (splice bs i ds)
unfolding copy_to
copy_to_lem bs i ds h = ground arith
