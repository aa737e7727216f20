-- ===== src/LogStream/Decimal.antt =====
-- `convert` of base/log_stream.cpp against a reader of decimal numbers.
use mathlib.Core.List.{reverse, reverse-cons, reverse-append}
use native.Mathlib.Nat.{pow-suc}
use xweb.Prelude.{
  tabulated, table_entry, length-reverse, ◌&&◌, ℕ, zero, suc, ◌+◌, ◌-◌, ◌*◌, ◌/◌, ◌%◌, ◌^◌, ◌≤◌,
  ◌<◌, ◌≡◌, refl, List, [], ◌∷◌, ◌++◌, Bool, true, false, ◌==◌, if◌then◌else◌, length, arith,
  length-append, ◌∙◌, ap,
}
use xweb.Prelude.Int.{ℤ, pos, negsuc, pos_part, neg_part}
use xweb.LogStream.{zero_at, convert_loop, convert}

-- The number that a text of digits stands for, read from the left.
pub value : ℕ → List ℕ → ℕ
value acc [] = acc
value acc (c ∷ cs) = value (acc * 10 + (c - b'0')) cs

negated : ℕ → ℤ
negated zero = pos 0
negated (suc n) = negsuc n

-- A decimal number, with a minus sign or without.
pub decimal : List ℕ → ℤ
unfolding value negated
decimal [] = pos 0
decimal (c ∷ cs) = if c == b'-' then negated (value 0 cs) else pos (value 0 (c ∷ cs))

-- Digits with the last one first.
little : List ℕ → ℕ
little [] = 0
little (c ∷ cs) = (c - b'0') + 10 * little cs

value-append :
    (acc : ℕ) (xs : List ℕ) (y : ℕ) → value acc (xs ++ y ∷ []) ≡ value acc xs * 10 + (y - b'0')
unfolding value
value-append acc [] y = refl
value-append acc (x ∷ xs) y = value-append (acc * 10 + (x - b'0')) xs y

value-reverse : (xs : List ℕ) → value 0 (reverse xs) ≡ little xs
unfolding little value
value-reverse [] = refl
value-reverse (x ∷ xs) =
    rw (reverse-cons x xs, value-append 0 (reverse xs) x) (omega (arith, value-reverse xs))

-- Both halves of the digit tabulated give the digit of the remainder.
zero_at_table : tabulated (λ r. zero_at true r == b'0' + r && zero_at false r == b'0' + r) 10 ≡ true
unfolding tabulated zero_at
zero_at_table = refl

zero_at_lem : (negative : Bool) (r : ℕ) → r < 10 → zero_at negative r ≡ b'0' + r
zero_at_lem true r h = ground (arith, table_entry _ 10 r zero_at_table h)
zero_at_lem false r h = ground (arith, table_entry _ 10 r zero_at_table h)

little-convert_loop :
    (fuel : ℕ) (negative : Bool) (i : ℕ) → i < fuel → little (convert_loop fuel negative i) ≡ i
unfolding little convert_loop
little-convert_loop zero negative i h = absurd (omega arith)
little-convert_loop (suc fuel) negative i h =
    ground (arith, zero_at_lem negative (i % 10), little-convert_loop fuel negative (i / 10))

length-convert_loop :
    (k fuel : ℕ) (negative : Bool) (i : ℕ)
    → i < 10 ^ suc k
    → length (convert_loop fuel negative i) ≤ suc k
unfolding convert_loop
length-convert_loop k zero negative i h = omega arith
length-convert_loop zero (suc fuel) negative i h = ground arith
length-convert_loop (suc k) (suc fuel) negative i h =
    ground (arith, pow-suc 10 (suc k), length-convert_loop k fuel negative (i / 10))

abbrev Digits : List ℕ → Type 0
Digits [] = Unit
Digits (c ∷ cs) = (b'0' ≤ c) × (c ≤ b'9') × Digits cs

Digits-append : (xs ys : List ℕ) → Digits xs → Digits ys → Digits (xs ++ ys)
Digits-append [] ys p q = q
Digits-append (x ∷ xs) ys p q = (p.0, p.1, Digits-append xs ys p.2 q)

Digits-reverse : (xs : List ℕ) → Digits xs → Digits (reverse xs)
Digits-reverse [] p = tt
Digits-reverse (x ∷ xs) p =
    rw (reverse-cons x xs)
      (Digits-append (reverse xs) (x ∷ []) (Digits-reverse xs p.2) (p.0, p.1, tt))

convert_loop-Digits : (fuel : ℕ) (negative : Bool) (i : ℕ) → Digits (convert_loop fuel negative i)
unfolding convert_loop
convert_loop-Digits zero negative i = tt
convert_loop-Digits (suc fuel) negative i =
    ground (arith, zero_at_lem negative (i % 10), convert_loop-Digits fuel negative (i / 10))

decimal_of_Digits : (xs : List ℕ) → Digits xs → decimal xs ≡ pos (value 0 xs)
unfolding decimal value
decimal_of_Digits [] p = refl
decimal_of_Digits (c ∷ cs) p = ground arith

-- The text of every integer reads back as that integer, the negative ones included.
pub decimal-convert : (v : ℤ) → decimal (convert v) ≡ v
unfolding convert decimal
decimal-convert (pos n) =
    let ds = convert_loop (suc n) false n in
    decimal_of_Digits (reverse ds) (Digits-reverse ds (convert_loop-Digits (suc n) false n))
    ∙ ap pos (value-reverse ds ∙ little-convert_loop (suc n) false n (omega arith))
decimal-convert (negsuc n) =
    let ds = convert_loop (suc (suc n)) true (suc n) in
    rw (reverse-append ds (b'-' ∷ []))
      (ap negated (value-reverse ds ∙ little-convert_loop (suc (suc n)) true (suc n) (omega arith)))

pub length-convert : (v : ℤ) → pos_part v < 2 ^ 64 → neg_part v ≤ 2 ^ 63 → length (convert v) ≤ 20
unfolding convert
length-convert (pos n) h k =
    omega
      (arith, length-reverse (convert_loop (suc n) false n), length-convert_loop 19 (suc n) false n)
length-convert (negsuc n) h k =
    let ds = convert_loop (suc (suc n)) true (suc n) in
    omega (
      arith,
      length-reverse (ds ++ b'-' ∷ []),
      length-append ds (b'-' ∷ []),
      length-convert_loop 18 (suc (suc n)) true (suc n),
    )
