-- ===== src/HttpServer/Turns.antt =====
-- net/http_server.cpp with net/thread_pool.cpp: the loops that the connections get.
use xweb.Prelude.{
  Yields, ℕ, ◌≡◌, refl, sym, ap, ◌∙◌, List, [], ◌∷◌, ◌++◌, Option, some, true, map, length, ◌>>=◌,
  append_assoc, append-nil, arith,
}
use xweb.Prelude.Int.{ℤ}
use xweb.Acceptor.{int_bits}
use xweb.HttpData.{HttpData, new_http_data, new_request}
use xweb.ThreadPool.RoundRobin.{
  IsReady, Turns, turned, get_next_loop_lem, turned-IsReady, Turns-one,
}
use xweb.HttpServer.{HttpServer, hand_new_conn}

-- The connection that waits for its request, by what its channel's memory held and what `accept`
-- returned.
abbrev pub waiting : ℕ × ℤ → HttpData
waiting (active, connfd) = new_request (new_http_data active (int_bits connfd))

module _ {L : Type 0} where
  -- One `handNewConn` after another.
  unfoldable pub hand_conns : HttpServer L → List (ℕ × ℤ) → Option (HttpServer L)
  hand_conns s [] = some s
  hand_conns s ((active, connfd) ∷ more) =
      hand_new_conn s true active connfd >>= λ s'. hand_conns s' more

  -- On a started pool with at least one thread, every connection is kept, waits for its request,
  -- and gets the loop after that of the connection before it, around the vector.
  pub hand_conns-Turns :
      (conns : List (ℕ × ℤ)) (s : HttpServer L)
      → IsReady s.thread_pool
      → Yields (hand_conns s conns) (λ s'.
        (made : List (L × HttpData)) × (s'.connections ≡ s.connections ++ made)
        × (map (λ c. c.1) made ≡ map waiting conns)
        × Turns s.thread_pool (length conns) (map (λ c. c.0) made)
        × IsReady s'.thread_pool)
  unfolding hand_conns hand_new_conn Turns
  hand_conns-Turns [] s r =
      (s, refl, ([], sym (append-nil s.connections), refl, (refl, λ i h. absurd (omega arith)), r))
  hand_conns-Turns ((active, connfd) ∷ conns) s r =
      let (l, at, next) = get_next_loop_lem s.thread_pool r in
      let first : L × HttpData = (l, waiting (active, connfd)) in
      let s1 = record s {
        thread_pool = turned s.thread_pool;
        connections = s.connections ++ first ∷ [];
      } in
      let (s', done, (made, kept, same, turns, ready)) =
        hand_conns-Turns conns s1 (turned-IsReady s.thread_pool r) in
      (
        s',
        rw next done,
        (
          first ∷ made,
          kept ∙ append_assoc s.connections (first ∷ []) made,
          ap (λ t. waiting (active, connfd) ∷ t) same,
          Turns-one s.thread_pool (length conns) l (map (λ c. c.0) made) r at turns,
          ready,
        ),
      )
