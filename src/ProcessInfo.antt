-- ===== src/ProcessInfo.antt =====
-- base/process_info.cpp: the name of the host. What `gethostname` returns is an argument.
use xweb.Prelude.{
  ℕ, ◌-◌, ◌<◌, ◌≤◌, List, [], ◌∷◌, Option, none, some, ◌==◌, if◌then◌else◌, arith, length, take,
  length-take,
}

-- The string up to the first NUL.
pub c_string : List ℕ → List ℕ
c_string [] = []
c_string (b ∷ bs) = let rest = c_string bs in if b == 0 then [] else b ∷ rest

abbrev name_size : ℕ
name_size = 256

-- `hostname`, with what `gethostname` left in the array, if it succeeded; the last byte is set
-- to NUL.
pub hostname : Option (List ℕ) → List ℕ
unfolding c_string
hostname none = b'u' ∷ b'n' ∷ b'k' ∷ b'n' ∷ b'o' ∷ b'w' ∷ b'n' ∷ b'h' ∷ b'o' ∷ b's' ∷ b't' ∷ []
hostname (some buf) = c_string (take (name_size - 1) buf)

length-c_string : (bs : List ℕ) → length (c_string bs) ≤ length bs
unfolding c_string
length-c_string [] = omega arith
length-c_string (b ∷ bs) = ground (arith, length-c_string bs)

-- The name of a host is shorter than the array.
pub length-hostname : (host : Option (List ℕ)) → length (hostname host) < name_size
unfolding hostname
length-hostname none = omega arith
length-hostname (some buf) = omega (arith, length-c_string (take 255 buf), length-take 255 buf)
