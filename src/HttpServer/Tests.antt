-- ===== src/HttpServer/Tests.antt =====
-- A server of three threads, whose loops are numbers.
use xweb.Prelude.{Yields, ℕ, ◌+◌, ◌>>=◌, ◌≡◌, List, [], ◌∷◌, true, arith}
use xweb.Prelude.Int.{ℤ, pos}
use xweb.HttpServer.{start, new_server}
use xweb.HttpServer.Deal.{dealt, start-dealt}
use xweb.HttpServer.Turns.{hand_conns, waiting}

abbrev four_conns : List (ℕ × ℤ)
four_conns = (0, pos 5) ∷ (0, pos 6) ∷ (0, pos 7) ∷ (0, pos 8) ∷ []

-- A server of three threads: the fourth connection gets the first thread's loop again.
start-dealt_example :
    Yields
      (start (new_server 0 3 0 (pos 4)) true (λ i. 10 + i) >>= λ s. hand_conns s four_conns)
      (λ s'.
        s'.connections
        ≡ (10, waiting (0, pos 5))
          ∷ (11, waiting (0, pos 6))
          ∷ (12, waiting (0, pos 7))
          ∷ (10, waiting (0, pos 8))
          ∷ [])
unfolding dealt
start-dealt_example = start-dealt (λ i. 10 + i) 0 3 0 3 four_conns (omega arith) (omega arith)
