-- ===== src/InetAddress/Text.antt =====
-- net/inet_address.h: the text of an address.
use xweb.Prelude.{ℕ, ◌≡◌, ◌≢◌, refl, sym, ap, ◌∙◌, List, [], ◌∷◌, ◌++◌, arith, All}
use xweb.Prelude.Int.{pos, pos_part}
use xweb.LogStream.Decimal.{decimal, decimal-convert}
use xweb.InetAddress.{InetAddress, addr, to_string}

-- Texts without a colon, before one, are told apart from what follows it.
colon_splits :
    (xs ys us vs : List ℕ)
    → All (λ c. c ≢ b':') xs
    → All (λ c. c ≢ b':') ys
    → xs ++ b':' ∷ us ≡ ys ++ b':' ∷ vs
    → (xs ≡ ys) × (us ≡ vs)
colon_splits [] [] us vs p q h = (refl, ground (arith, h))
colon_splits [] (y ∷ ys) us vs p q h = absurd (q.0 (ground (arith, h)))
colon_splits (x ∷ xs) [] us vs p q h = absurd (p.0 (ground (arith, h)))
colon_splits (x ∷ xs) (y ∷ ys) us vs p q h =
    let (same, rest) = colon_splits xs ys us vs p.1 q.1 (ground (arith, h)) in
    (ground (arith, same, h), rest)

-- With texts of `inet_ntoa` that have no colon and differ for different addresses, and with an
-- `ntohs` that takes different ports to different ports, addresses of the same text have the same
-- IPv4 address and port.
pub to_string_injective :
    (inet_ntoa : ℕ → List ℕ) (ntohs : ℕ → ℕ) (a b : InetAddress)
    → ((n : ℕ) → All (λ c. c ≢ b':') (inet_ntoa n))
    → ((m n : ℕ) → inet_ntoa m ≡ inet_ntoa n → m ≡ n)
    → ((m n : ℕ) → ntohs m ≡ ntohs n → m ≡ n)
    → to_string inet_ntoa ntohs a ≡ to_string inet_ntoa ntohs b
    → ((addr a).sin_addr ≡ (addr b).sin_addr) × ((addr a).sin_port ≡ (addr b).sin_port)
unfolding to_string
to_string_injective inet_ntoa ntohs a b plain addresses ports h =
    let (host, port) = colon_splits _ _ _ _ (plain (addr a).sin_addr) (plain (addr b).sin_addr) h in
    let p = pos (ntohs (addr a).sin_port) in
    let q = pos (ntohs (addr b).sin_port) in
    (
      addresses _ _ host,
      ports _ _ (ap pos_part (sym (decimal-convert p) ∙ ap decimal port ∙ decimal-convert q)),
    )
