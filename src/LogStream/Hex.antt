-- ===== src/LogStream/Hex.antt =====
-- `convertHex` of base/log_stream.cpp against a reader of hexadecimal numbers.
use mathlib.Core.List.{reverse, reverse-cons}
use native.Mathlib.Nat.{pow-suc}
use xweb.Prelude.{
  ℕ, zero, suc, ◌+◌, ◌-◌, ◌*◌, ◌/◌, ◌%◌, ◌^◌, ◌≤◌, ◌<◌, ◌≡◌, refl, List, [], ◌∷◌, ◌++◌, ◌==◌, leb,
  true, if◌then◌else◌, length, get_or, arith, ◌∙◌, tabulated, table_entry, length-reverse,
}
use xweb.LogStream.{digits_hex, convert_hex_loop, convert_hex}

hex_value : ℕ → ℕ
hex_value c = if leb c b'9' then c - b'0' else c - b'A' + 10

pub hex : ℕ → List ℕ → ℕ
unfolding hex_value
hex acc [] = acc
hex acc (c ∷ cs) = hex (acc * 16 + hex_value c) cs

little : List ℕ → ℕ
unfolding hex_value
little [] = 0
little (c ∷ cs) = hex_value c + 16 * little cs

hex-append :
    (acc : ℕ) (xs : List ℕ) (y : ℕ) → hex acc (xs ++ y ∷ []) ≡ hex acc xs * 16 + hex_value y
unfolding hex
hex-append acc [] y = refl
hex-append acc (x ∷ xs) y = hex-append (acc * 16 + hex_value x) xs y

hex-reverse : (xs : List ℕ) → hex 0 (reverse xs) ≡ little xs
unfolding little hex
hex-reverse [] = refl
hex-reverse (x ∷ xs) =
    rw (reverse-cons x xs, hex-append 0 (reverse xs) x) (omega (arith, hex-reverse xs))

digits_table : tabulated (λ r. hex_value (get_or digits_hex r 0) == r) 16 ≡ true
unfolding tabulated hex_value
digits_table = refl

digits_lem : (r : ℕ) → r < 16 → hex_value (get_or digits_hex r 0) ≡ r
digits_lem r h = ground (arith, table_entry _ 16 r digits_table h)

little-convert_hex_loop : (fuel i : ℕ) → i < fuel → little (convert_hex_loop fuel i) ≡ i
unfolding little convert_hex_loop
little-convert_hex_loop zero i h = absurd (omega arith)
little-convert_hex_loop (suc fuel) i h =
    rw (digits_lem (i % 16) (omega arith)) (ground (arith, little-convert_hex_loop fuel (i / 16)))

length-convert_hex_loop : (k fuel i : ℕ) → i < 16 ^ suc k → length (convert_hex_loop fuel i) ≤ suc k
unfolding convert_hex_loop
length-convert_hex_loop k zero i h = omega arith
length-convert_hex_loop zero (suc fuel) i h = ground arith
length-convert_hex_loop (suc k) (suc fuel) i h =
    ground (arith, pow-suc 16 (suc k), length-convert_hex_loop k fuel (i / 16))

-- The text of every pointer value reads back as that value.
pub hex-convert_hex : (n : ℕ) → hex 0 (convert_hex n) ≡ n
unfolding convert_hex
hex-convert_hex n =
    hex-reverse (convert_hex_loop (suc n) n) ∙ little-convert_hex_loop (suc n) n (omega arith)

pub length-convert_hex : (n : ℕ) → n < 2 ^ 64 → length (convert_hex n) ≤ 16
unfolding convert_hex
length-convert_hex n h =
    omega (arith, length-reverse (convert_hex_loop (suc n) n), length-convert_hex_loop 15 (suc n) n)
