-- ===== src/TcpServer/Names.antt =====
-- net/tcp_server.cpp: the names that a server gives.
use xweb.Prelude.{ℕ, ◌≡◌, sym, ap, ◌∙◌, List, [], ◌∷◌, ◌++◌}
use xweb.Prelude.Int.{ℤ, pos, pos_part}
use xweb.LogStream.{convert}
use xweb.LogStream.Decimal.{decimal, decimal-convert}
use xweb.TcpServer.{connection_name}

append_cancel : (xs ys zs : List ℕ) → xs ++ ys ≡ xs ++ zs → ys ≡ zs
append_cancel [] ys zs h = h
append_cancel (x ∷ xs) ys zs h = append_cancel xs ys zs (cc (h))

cons_cancel : (c : ℕ) (ys zs : List ℕ) → c ∷ ys ≡ c ∷ zs → ys ≡ zs
cons_cancel c ys zs h = cc

-- Connections with different numbers have different names.
pub connection_name_injective :
    (port : ℤ) (i j : ℕ) → connection_name port i ≡ connection_name port j → i ≡ j
unfolding connection_name
connection_name_injective port i j h =
    let texts =
      cons_cancel b'#' (convert (pos i)) (convert (pos j)) (append_cancel (convert port) _ _ h) in
    ap pos_part (sym (decimal-convert (pos i)) ∙ ap decimal texts ∙ decimal-convert (pos j))
