-- ===== src/Buffer/Words.antt =====
-- The integers of net/buffer.h in network byte order. An `intN_t` is its bit pattern, and `size`
-- is its `sizeof`: 8, 4, 2 or 1. Behind `htobe64`, `htonl` and `htons` the bytes in memory are
-- those of the integer, most significant first.
use xweb.Prelude.{
  Yields, ℕ, zero, suc, ◌+◌, ◌*◌, ◌/◌, ◌%◌, ◌^◌, ◌≤◌, ◌<◌, ◌≡◌, refl, List, [], ◌∷◌, ◌++◌, Option,
  some, arith, leb, length, drop, ◌∙◌, ap, sym, ◌>>=◌, ◌>>◌, assert, length-append, append-nil,
}
use native.Mathlib.Nat.{pow-suc}
use xweb.Prelude.Slices.{take-append_all, drop-append_all}
use xweb.Buffer.{max_size, Buffer, content, append, prepend, retrieve, readable_bytes, peek}
use xweb.Buffer.Invariant.{IsValid, readable_bytes_lem, length-content}
use xweb.Buffer.Append.{append_refines, prepend_refines}
use xweb.Buffer.Retrieve.{retrieve_refines, peek_lem}

pub to_be : ℕ → ℕ → List ℕ
to_be zero x = []
to_be (suc k) x = to_be k (x / 256) ++ (x % 256) ∷ []

unfoldable pub from_be : ℕ → List ℕ → ℕ
from_be acc [] = acc
from_be acc (b ∷ bs) = from_be (acc * 256 + b) bs

pub append_int : ℕ → Buffer → ℕ → Option Buffer
append_int size b x = append b (to_be size x)

pub prepend_int : ℕ → Buffer → ℕ → Option Buffer
prepend_int size b x = prepend b (to_be size x)

unfoldable pub peek_int : ℕ → Buffer → Option ℕ
peek_int size b = do assert (leb size (readable_bytes b)); some (from_be 0 (peek b size))

pub retrieve_int : ℕ → Buffer → Option Buffer
retrieve_int size b = retrieve b size

unfoldable pub read_int : ℕ → Buffer → Option (ℕ × Buffer)
unfolding peek_int retrieve_int
read_int size b = do result ← peek_int size b; b' ← retrieve_int size b; some (result, b')

pub length-to_be : (k x : ℕ) → length (to_be k x) ≡ k
unfolding to_be
length-to_be zero x = refl
length-to_be (suc k) x =
    omega (arith, length-append (to_be k (x / 256)) ((x % 256) ∷ []), length-to_be k (x / 256))

from_be-append :
    (acc : ℕ) (bs : List ℕ) (y : ℕ) → from_be acc (bs ++ y ∷ []) ≡ from_be acc bs * 256 + y
unfolding from_be
from_be-append acc [] y = refl
from_be-append acc (b ∷ bs) y = from_be-append (acc * 256 + b) bs y

-- Decoding undoes encoding for every integer that the size can hold.
from_be-to_be : (k x : ℕ) → x < 256 ^ k → from_be 0 (to_be k x) ≡ x
unfolding to_be from_be
from_be-to_be zero x h = omega arith
from_be-to_be (suc k) x h =
    rw (from_be-append 0 (to_be k (x / 256)) (x % 256))
      (omega (arith, from_be-to_be k (x / 256) (omega (arith, pow-suc 256 k))))

module _ {b : Buffer} (size x : ℕ) (v : IsValid b) (range : x < 256 ^ size) where
  starts-le : (rest : List ℕ) → content b ≡ to_be size x ++ rest → size ≤ length (content b)
  starts-le rest h = rw h (omega (arith, length-append (to_be size x) rest, length-to_be size x))

  peek_int_lem : (rest : List ℕ) → content b ≡ to_be size x ++ rest → peek_int size b ≡ some x
  unfolding peek_int
  peek_int_lem rest h =
      rw
        (
          peek_lem v size (starts-le rest h),
          h,
          take-append_all (to_be size x) rest size (length-to_be size x),
          from_be-to_be size x range,
        )
        (ground (arith, readable_bytes_lem v, length-content v, starts-le rest h))

  -- An integer at the front of the content is read, and exactly its bytes are removed.
  pub read_int_lem :
      (rest : List ℕ)
      → content b ≡ to_be size x ++ rest
      → Yields (read_int size b) (λ r. (r.0 ≡ x) × IsValid r.1 × (content r.1 ≡ rest))
  unfolding read_int retrieve_int
  read_int_lem rest h =
      let (b', done, after) = retrieve_refines v size (starts-le rest h) in
      (
        (x, b'),
        rw (peek_int_lem rest h, done) refl,
        (
          refl,
          after.0,
          after.1
              ∙ ap (drop size) h
              ∙ drop-append_all (to_be size x) rest size (length-to_be size x),
        ),
      )

module _ {b : Buffer} (size x : ℕ) (v : IsValid b) (range : x < 256 ^ size) where
  -- What `prependIntN` puts in front, `readIntN` takes off: it returns the integer and leaves the
  -- bytes that were there before.
  pub read-prepend_int :
      size ≤ b.reader_index
      → Yields
          (prepend_int size b x)
          (λ b'. Yields (read_int size b') (λ r. (r.0 ≡ x) × (content r.1 ≡ content b)))
  unfolding prepend_int
  read-prepend_int room =
      let (b', made, (valid, bytes, _)) =
        prepend_refines v (to_be size x) (omega (arith, length-to_be size x)) in
      let (r, done, (value, _, rest)) = read_int_lem size x valid range (content b) bytes in
      (b', made, (r, done, (value, rest)))

  -- What `appendIntN` adds behind the content `readIntN` returns once the content is retrieved.
  pub read-append_int :
      b.writer_index + size ≤ max_size
      → Yields (append_int size b x) (λ b'.
        Yields
          (retrieve b' (length (content b)))
          (λ b''. Yields (read_int size b'') (λ r. (r.0 ≡ x) × (content r.1 ≡ []))))
  unfolding append_int
  read-append_int room =
      let (b', made, (valid, bytes)) =
        append_refines v (to_be size x) (omega (arith, length-to_be size x)) in
      let old = length (content b) in
      let (b'', cut, (valid', rest, _)) =
        retrieve_refines valid old
          (rw bytes (omega (arith, length-append (content b) (to_be size x)))) in
      let front =
        rest
        ∙ ap (drop old) bytes
        ∙ drop-append_all (content b) (to_be size x) old refl
        ∙ sym (append-nil (to_be size x)) in
      let (r, done, (value, _, none_left)) = read_int_lem size x valid' range [] front in
      (b', made, (b'', cut, (r, done, (value, none_left))))
