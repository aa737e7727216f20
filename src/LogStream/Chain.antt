-- ===== src/LogStream/Chain.antt =====
-- Chains of the operators of base/log_stream.h.
use xweb.Prelude.{
  Yields, ◌≡◌, refl, ◌∙◌, inl, inr, List, [], ◌∷◌, ◌++◌, Option, length, ◌>>=◌, Option-cases,
}
use xweb.LogStream.{FixedBuffer}
use xweb.LogStream.Fixed.{IsValid}
use xweb.LogStream.Insert.{Item, insert, insert_all, AllInRange, insert_lem}

insert_all-append :
    (xs ys : List Item) (b : FixedBuffer)
    → insert_all b (xs ++ ys) ≡ (insert_all b xs >>= λ b'. insert_all b' ys)
unfolding insert_all
insert_all-append [] ys b = refl
insert_all-append (x ∷ xs) ys b = elim (Option-cases (insert b x)) [
  | inl e ↦ rw e refl
  | inr (b', e) ↦ rw e (insert_all-append xs ys b')
]

-- A part of a statement that inserts the items.
unfoldable pub Inserts : (FixedBuffer → Option FixedBuffer) → List Item → Type 0
Inserts f xs = (b : FixedBuffer) → f b ≡ insert_all b xs

pub then-Inserts :
    (o : Option FixedBuffer) (b : FixedBuffer) (g : FixedBuffer → Option FixedBuffer)
    (xs ys : List Item)
    → o ≡ insert_all b xs
    → Inserts g ys
    → (o >>= g) ≡ insert_all b (xs ++ ys)
unfolding Inserts
then-Inserts o b g xs ys p q = elim (Option-cases (insert_all b xs)) [
  | inl e ↦ rw (p, insert_all-append xs ys b, e) refl
  | inr (b', e) ↦ rw (p, insert_all-append xs ys b, e) (q b')
]

pub one_insert :
    (f : FixedBuffer → Option FixedBuffer) (it : Item)
    → ((b : FixedBuffer) → f b ≡ insert b it)
    → Inserts f (it ∷ [])
unfolding Inserts insert_all
one_insert f it p b = elim (Option-cases (insert b it)) [
  | inl e ↦ rw (p b, e) refl
  | inr (b', e) ↦ rw (p b, e) refl
]

pub AllInRange-append : (xs ys : List Item) → AllInRange xs → AllInRange ys → AllInRange (xs ++ ys)
AllInRange-append [] ys h k = k
AllInRange-append (x ∷ xs) ys h k = (h.0, AllInRange-append xs ys h.1 k)

-- Whatever a chain inserts, it stays within the array.
pub insert_all-IsValid :
    (its : List Item) {b : FixedBuffer}
    → IsValid b
    → AllInRange its
    → Yields (insert_all b its) (λ b'. IsValid b' × (length b'.buf ≡ length b.buf))
unfolding insert_all
insert_all-IsValid [] {b} v h = (b, refl, (v, refl))
insert_all-IsValid (it ∷ its) {b} v h =
    let (b1, first, (v1, size, _)) = insert_lem v it h.0 in
    let (b2, rest, (v2, size')) = insert_all-IsValid its v1 h.1 in
    (b2, rw first rest, (v2, size' ∙ size))
