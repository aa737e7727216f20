-- ===== src/LogStream.antt =====
-- base/log_stream.h and base/log_stream.cpp: the fixed buffer of a log line and the operators that
-- format into it. `none` is a write that leaves the array.
pub mod Fixed
pub mod Decimal
pub mod Hex
pub mod Insert
pub mod Chain
pub mod Abstract
mod Tests
use xweb.Prelude.{
  ℕ, zero, suc, ◌+◌, ◌-◌, ◌*◌, ◌/◌, ◌%◌, ◌^◌, List, [], ◌∷◌, ◌++◌, Option, none, some, Bool, true,
  false, ltb, leb, ◌==◌, if◌then◌else◌, length, get_or, replicate, ◌>>=◌,
}
use mathlib.Core.List.{reverse}
use xweb.Prelude.Int.{ℤ, pos, negsuc}
use xweb.Prelude.Memory.{copy_to}

-- The array `data_` of SIZE bytes, and the index of `cur_` in it.
pub record FixedBuffer : Type 0 where
  pub buf : List ℕ
  pub cur : ℕ

abbrev pub small_buffer : ℕ
small_buffer = 4000

abbrev pub large_buffer : ℕ
large_buffer = 4000 * 1000

abbrev pub max_numeric_size : ℕ
max_numeric_size = 32

unfoldable pub new_fixed : ℕ → FixedBuffer
new_fixed size = record { buf = replicate size 0; cur = 0 }

unfoldable pub avail : FixedBuffer → ℕ
avail b = length b.buf - b.cur

-- `avail() > static_cast<int>(len)`: a length of 2^31 to 2^32 - 1 becomes a negative `int`.
pub has_room : FixedBuffer → ℕ → Bool
unfolding avail
has_room b len = if ltb (len % 2 ^ 32) (2 ^ 31) then ltb (len % 2 ^ 32) (avail b) else true

-- A block that does not fit is dropped.
unfoldable pub append : FixedBuffer → List ℕ → Option FixedBuffer
unfolding has_room copy_to
append b ds =
    if has_room b (length ds)
    then (do bytes ← copy_to b.buf b.cur ds; some (record { buf = bytes; cur = b.cur + length ds }))
    else some b

pub add : FixedBuffer → ℕ → FixedBuffer
add b len = record b { cur = b.cur + len }

unfoldable pub reset : FixedBuffer → FixedBuffer
reset b = record b { cur = 0 }

pub bzero : FixedBuffer → FixedBuffer
bzero b = record b { buf = replicate (length b.buf) 0 }

-- `digits`: `zero` points to its middle, so that negative remainders have a digit too.
abbrev pub digits : List ℕ
digits =
    b'9' ∷ b'8' ∷ b'7' ∷ b'6' ∷ b'5' ∷ b'4' ∷ b'3' ∷ b'2' ∷ b'1' ∷ b'0' ∷ b'1' ∷ b'2' ∷ b'3' ∷ b'4'
    ∷ b'5' ∷ b'6' ∷ b'7' ∷ b'8' ∷ b'9' ∷ []

-- `zero[lsd]`, where `lsd` is `r` or, for a negative value, `-r`.
pub zero_at : Bool → ℕ → ℕ
zero_at negative r = get_or digits (if negative then 9 - r else 9 + r) 0

-- The digits of a magnitude, last one first: the loop of `convert`. In C++ `%` and `/` go toward
-- zero, so a negative value gives the negated remainders of its magnitude.
pub convert_loop : ℕ → Bool → ℕ → List ℕ
unfolding zero_at
convert_loop zero negative i = []
convert_loop (suc fuel) negative i =
    let more = convert_loop fuel negative (i / 10) in
    zero_at negative (i % 10) ∷ (if i / 10 == 0 then [] else more)

-- The text that `convert` leaves in its buffer, without the final NUL.
unfoldable pub convert : ℤ → List ℕ
unfolding convert_loop
convert (pos n) = reverse (convert_loop (suc n) false n)
convert (negsuc n) = reverse (convert_loop (suc (suc n)) true (suc n) ++ b'-' ∷ [])

abbrev pub digits_hex : List ℕ
digits_hex =
    b'0' ∷ b'1' ∷ b'2' ∷ b'3' ∷ b'4' ∷ b'5' ∷ b'6' ∷ b'7' ∷ b'8' ∷ b'9' ∷ b'A' ∷ b'B' ∷ b'C' ∷ b'D'
    ∷ b'E' ∷ b'F' ∷ []

pub convert_hex_loop : ℕ → ℕ → List ℕ
convert_hex_loop zero i = []
convert_hex_loop (suc fuel) i =
    let more = convert_hex_loop fuel (i / 16) in
    get_or digits_hex (i % 16) 0 ∷ (if i / 16 == 0 then [] else more)

pub convert_hex : ℕ → List ℕ
unfolding convert_hex_loop
convert_hex n = reverse (convert_hex_loop (suc n) n)

-- Text formatted at `current()`, with its NUL, then `add` of its length.
pub put_numeric : FixedBuffer → List ℕ → Option FixedBuffer
unfolding avail copy_to add
put_numeric b text =
    if leb max_numeric_size (avail b)
    then (do
      bytes ← copy_to b.buf b.cur (text ++ 0 ∷ [])
      some (add (record b { buf = bytes }) (length text)))
    else some b

pub format_integer : FixedBuffer → ℤ → Option FixedBuffer
unfolding put_numeric convert
format_integer b v = put_numeric b (convert v)

-- `operator<<(const void*)`
pub format_pointer : FixedBuffer → ℕ → Option FixedBuffer
unfolding put_numeric convert_hex
format_pointer b p = put_numeric b (b'0' ∷ b'x' ∷ convert_hex p)
