-- ===== src/LogStream/Insert.antt =====
-- The `operator<<` overloads of base/log_stream.h and base/log_stream.cpp.
use xweb.Prelude.{
  Yields, ℕ, ◌+◌, ◌-◌, ◌^◌, ◌≤◌, ◌<◌, ◌≡◌, refl, List, [], ◌∷◌, ◌++◌, Option, some, none, Bool,
  true, ltb, leb, if◌then◌else◌, length, take, length-append, append-nil, append_assoc, arith, ◌∙◌,
  ap, sym, ◌>>=◌,
}
use xweb.Prelude.Slices.{take_all}
use xweb.Prelude.Int.{ℤ, pos_part, neg_part}
use xweb.Prelude.Memory.{copy_to}
use xweb.LogStream.{
  FixedBuffer, avail, append, add, put_numeric, format_integer, format_pointer, convert,
  convert_hex, max_numeric_size,
}
use xweb.LogStream.Fixed.{IsValid, text, avail_lem, append_lem, put_numeric_lem}
use xweb.LogStream.Decimal.{length-convert}
use xweb.LogStream.Hex.{length-convert_hex}

-- What a log statement can insert: one constructor for a group of overloads. A C string may be
-- NULL, a thread id comes as the text of its `stringstream`, and a `double` as that of `snprintf`.
pub data Item : Type 0 where
  flag : Bool → Item
  integer : ℤ → Item
  pointer : ℕ → Item
  double : List ℕ → Item
  char : ℕ → Item
  c_string : Option (List ℕ) → Item
  string : List ℕ → Item

abbrev null_text : List ℕ
null_text = b'(' ∷ b'n' ∷ b'u' ∷ b'l' ∷ b'l' ∷ b')' ∷ []

-- `snprintf` to at most 32 bytes, the NUL included, then `add` of the length it wanted.
pub format_double : FixedBuffer → List ℕ → Option FixedBuffer
unfolding avail copy_to add
format_double b t =
    if leb max_numeric_size (avail b)
    then (do
      bytes ← copy_to b.buf b.cur (take (max_numeric_size - 1) t ++ 0 ∷ [])
      some (add (record b { buf = bytes }) (length t)))
    else some b

unfoldable pub insert : FixedBuffer → Item → Option FixedBuffer
unfolding format_integer format_pointer format_double
insert b (flag v) = append b ((if v then b'1' else b'0') ∷ [])
insert b (integer v) = format_integer b v
insert b (pointer p) = format_pointer b p
insert b (double t) = format_double b t
insert b (char c) = append b (c ∷ [])
insert b (c_string (some s)) = append b s
insert b (c_string none) = append b null_text
insert b (string s) = append b s

-- A chain of `<<`.
unfoldable pub insert_all : FixedBuffer → List Item → Option FixedBuffer
insert_all b [] = some b
insert_all b (it ∷ its) = insert b it >>= λ b'. insert_all b' its

abbrev pub shown : Item → List ℕ
shown (flag v) = (if v then b'1' else b'0') ∷ []
shown (integer v) = convert v
shown (pointer p) = b'0' ∷ b'x' ∷ convert_hex p
shown (double t) = t
shown (char c) = c ∷ []
shown (c_string (some s)) = s
shown (c_string none) = null_text
shown (string s) = s

abbrev pub shown_all : List Item → List ℕ
shown_all [] = []
shown_all (it ∷ its) = shown it ++ shown_all its

-- What the C++ types hold: 64-bit integers and pointers, texts below 2 GiB.
abbrev pub InRange : Item → Type 0
InRange (integer v) = (pos_part v < 2 ^ 64) × (neg_part v ≤ 2 ^ 63)
InRange (pointer p) = p < 2 ^ 64
InRange (double t) = length t < max_numeric_size
InRange (c_string (some s)) = length s < 2 ^ 31
InRange (string s) = length s < 2 ^ 31
InRange _ = Unit {0}

-- Whether the operator writes its text; otherwise it writes nothing.
abbrev pub writes : FixedBuffer → Item → Bool
writes b (integer v) = leb max_numeric_size (avail b)
writes b (pointer p) = leb max_numeric_size (avail b)
writes b (double t) = leb max_numeric_size (avail b)
writes b it = ltb (length (shown it)) (avail b)

abbrev pub Inserted : FixedBuffer → Item → FixedBuffer → Type 0
Inserted b it b' =
    IsValid b'
    × (length b'.buf ≡ length b.buf)
    × (text b' ≡ (if writes b it then text b ++ shown it else text b))

format_double-put_numeric :
    (b : FixedBuffer) (t : List ℕ)
    → length t < max_numeric_size
    → format_double b t ≡ put_numeric b t
unfolding format_double put_numeric
format_double-put_numeric b t h = rw (take_all (max_numeric_size - 1) t (omega arith)) refl

module _ {b : FixedBuffer} (valid : IsValid b) where
  -- No operator leaves the array: it writes its whole text, or nothing where the room is too small.
  pub insert_lem : (it : Item) → InRange it → Yields (insert b it) (Inserted b it)
  unfolding insert format_integer format_pointer
  insert_lem (flag v) h = append_lem valid _ (omega arith)
  insert_lem (integer i) h =
      put_numeric_lem valid (convert i) (omega (arith, length-convert i h.0 h.1))
  insert_lem (pointer p) h = put_numeric_lem valid _ (omega (arith, length-convert_hex p h))
  insert_lem (double t) h = rw (format_double-put_numeric b t h) (put_numeric_lem valid t h)
  insert_lem (char c) h = append_lem valid _ (omega arith)
  insert_lem (c_string (some s)) h = append_lem valid s h
  insert_lem (c_string none) h = append_lem valid null_text (omega arith)
  insert_lem (string s) h = append_lem valid s h

  insert_fits :
      (it : Item)
      → InRange it
      → length (shown it) + max_numeric_size ≤ avail b
      → Yields
          (insert b it)
          (λ b'. IsValid b' × (length b'.buf ≡ length b.buf) × (text b' ≡ text b ++ shown it))
  insert_fits it h room =
      let (b', done, (v', size, now)) = insert_lem it h in
      (
        b',
        done,
        (
          v',
          size,
          now ∙ ap (λ (w : Bool). if w then text b ++ shown it else text b) (writes_lem it room),
        ),
      )
    where
      writes_lem : (it : Item) → length (shown it) + max_numeric_size ≤ avail b → writes b it ≡ true
      writes_lem (flag v) r = ground arith
      writes_lem (integer i) r = ground arith
      writes_lem (pointer p) r = ground arith
      writes_lem (double t) r = ground arith
      writes_lem (char c) r = ground arith
      writes_lem (c_string (some s)) r = ground arith
      writes_lem (c_string none) r = ground arith
      writes_lem (string s) r = ground arith

abbrev pub AllInRange : List Item → Type 0
AllInRange [] = Unit
AllInRange (it ∷ its) = InRange it × AllInRange its

-- A chain of operators whose texts leave 32 bytes of the array free writes all of them, in order.
pub insert_all_lem :
    (its : List Item) {b : FixedBuffer}
    → IsValid b
    → AllInRange its
    → length (shown_all its) + max_numeric_size ≤ avail b
    → Yields (insert_all b its) (λ b'. IsValid b' × (text b' ≡ text b ++ shown_all its))
unfolding insert_all
insert_all_lem [] {b} v h room = (b, refl, (v, sym (append-nil (text b))))
insert_all_lem (it ∷ its) {b} v h room =
    let split = length-append (shown it) (shown_all its) in
    let (b1, first, (v1, size, now)) = insert_fits v it h.0 (omega (arith, split)) in
    let grown = ap length now ∙ length-append (text b) (shown it) in
    let (b2, rest, (v2, all)) =
      insert_all_lem its v1 h.1 (omega (arith, split, avail_lem v, avail_lem v1)) in
    (
      b2,
      rw first rest,
      (
        v2,
        all ∙ ap (λ t. t ++ shown_all its) now ∙ append_assoc (text b) (shown it) (shown_all its),
      ),
    )
