-- ===== src/LogStream/Tests.antt =====
-- Runs of base/log_stream.cpp, and the theorems at such inputs.
use xweb.Prelude.{Yields, ◌^◌, ◌-◌, ◌≡◌, refl, List, [], ◌∷◌, ◌++◌, arith, length, replicate}
use xweb.Prelude.Int.{pos, negsuc}
use xweb.LogStream.{FixedBuffer, avail, convert, convert_hex}
use xweb.LogStream.Fixed.{IsValid, text}
use mathlib.Core.Equiv.{IsEquiv}
use mathlib.Core.Quot
use xweb.LogStream.{append}
use xweb.LogStream.Abstract.{SizedBuffer, read, push, bytes, extended, read-append}
use xweb.LogStream.Decimal.{decimal, decimal-convert}
use xweb.LogStream.Insert.{Item, insert_all, shown_all, insert_all_lem}

-- A buffer of 48 bytes that holds "ab".
abbrev started : FixedBuffer
started = record { buf = b'a' ∷ b'b' ∷ replicate 46 0; cur = 2 }

started-IsValid : IsValid started
started-IsValid = omega arith

avail-started : avail started ≡ 46
unfolding avail
avail-started = refl

convert_runs :
    (convert (pos 0) ≡ b'0' ∷ [])
    × (convert (pos 2048) ≡ b'2' ∷ b'0' ∷ b'4' ∷ b'8' ∷ [])
    × (convert (negsuc 119) ≡ b'-' ∷ b'1' ∷ b'2' ∷ b'0' ∷ [])
unfolding convert
convert_runs = (refl, refl, refl)

convert_min : length (convert (negsuc (2 ^ 63 - 1))) ≡ 20
unfolding convert
convert_min = refl

convert_hex_runs : convert_hex 0xbeef ≡ b'B' ∷ b'E' ∷ b'E' ∷ b'F' ∷ []
unfolding convert_hex
convert_hex_runs = refl

abbrev items : List Item
items = Item.string (b'x' ∷ b'=' ∷ []) ∷ Item.integer (negsuc 41) ∷ []

decimal-convert_example : decimal (convert (negsuc 41)) ≡ negsuc 41
decimal-convert_example = decimal-convert (negsuc 41)

insert_all_lem_example :
    Yields (insert_all started items) (λ b. IsValid b × (text b ≡ text started ++ shown_all items))
unfolding convert
insert_all_lem_example =
    insert_all_lem items started-IsValid (omega arith) (omega (arith, avail-started))

abbrev started_sized : SizedBuffer 48 (omega arith)
started_sized = (started, started-IsValid, refl)

read-append_example :
    IsEquiv (read 48 (omega arith))
    × Yields (append started (b'c' ∷ [])) (λ b'.
      (c : SizedBuffer 48 (omega arith)) × (c.0 ≡ b')
      × (push 48 (omega arith) (b'c' ∷ []) (omega arith) (Quot.mk started_sized) ≡ Quot.mk c)
      × (bytes 48
            (omega arith)
            (push 48 (omega arith) (b'c' ∷ []) (omega arith) (Quot.mk started_sized))
          ≡ extended 48 (omega arith) (b'c' ∷ []) (bytes 48 (omega arith) (Quot.mk started_sized))))
read-append_example = read-append 48 (omega arith) (b'c' ∷ []) (omega arith) started_sized
