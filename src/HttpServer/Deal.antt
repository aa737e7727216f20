-- ===== src/HttpServer/Deal.antt =====
-- net/http_server.cpp with net/thread_pool.cpp: from the constructors and `start` to the loops
-- of the connections.
use xweb.Prelude.{
  Yields, ℕ, suc, ◌%◌, ◌^◌, ◌<◌, ◌≡◌, refl, sym, ap, ◌∙◌, List, [], ◌∷◌, ◌++◌, some, true, false,
  get_elem?, ◌>>=◌, append_assoc, append-nil, arith,
}
use native.Mathlib.Nat.{mod-add-mod, mod-eq_of_lt}
use xweb.Channel.{set_event, new_channel, channel_conn}
use xweb.Prelude.Int.{ℤ, pos}
use xweb.HttpData.{HttpData}
use xweb.ThreadPool.{ThreadPool}
use xweb.ThreadPool.RoundRobin.{IsReady, turned, get_next_loop_lem, turned-IsReady}
use xweb.ThreadPool.Loops.{loops_from, get_elem?-loops_from, start_lem}
use xweb.HttpServer.{HttpServer, new_server, start, hand_new_conn, channel_for}
use xweb.HttpServer.Turns.{waiting, hand_conns}

module _ {L : Type 0} (start_loop : ℕ → L) where
  -- The connections that come after k others: the i-th of all is given to the thread i modulo n.
  unfoldable pub dealt : ℕ → ℕ → List (ℕ × ℤ) → List (L × HttpData)
  dealt n k [] = []
  dealt n k (conn ∷ conns) = (start_loop (k % n), waiting conn) ∷ dealt n (suc k) conns

  -- A pool of the n threads, which has handed out k loops.
  record Dealing (n k : ℕ) (p : ThreadPool L) : Type 0 where
    ready : IsReady p
    size : p.maxn ≡ n
    turn : p.next ≡ k % n
    all : p.loops ≡ loops_from start_loop 0 n

  turned-Dealing : (n k : ℕ) (p : ThreadPool L) → Dealing n k p → Dealing n (suc k) (turned p)
  turned-Dealing n k p d = record {
    ready = turned-IsReady p d.ready;
    size = d.size;
    turn = rw (d.size, d.turn) (mod-add-mod k n 1 ∙ ap (λ m. m % n) (omega arith));
    all = d.all;
  }

  hand_conns-dealt :
      (conns : List (ℕ × ℤ)) (n k : ℕ) (s : HttpServer L)
      → Dealing n k s.thread_pool
      → Yields (hand_conns s conns) (λ s'. s'.connections ≡ s.connections ++ dealt n k conns)
  unfolding hand_conns hand_new_conn dealt
  hand_conns-dealt [] n k s d = (s, refl, sym (append-nil s.connections))
  hand_conns-dealt ((active, connfd) ∷ conns) n k s d =
      let (l, at, next) = get_next_loop_lem s.thread_pool d.ready in
      let same : l ≡ start_loop (k % n) =
        let turn : k % n < n = omega (arith, d.ready.inside, d.turn, d.size) in
        let found : get_elem? s.thread_pool.loops s.thread_pool.next ≡ some (start_loop (k % n)) =
          rw (d.all, d.turn)
            (get_elem?-loops_from start_loop n 0 (k % n) turn
              ∙ ap (λ j. some (start_loop j)) (omega arith)) in
        ground (arith, at, found) in
      let s1 = record s {
        thread_pool = turned s.thread_pool;
        connections = s.connections ++ (l, waiting (active, connfd)) ∷ [];
      } in
      let (s', done, kept) =
        hand_conns-dealt conns n (suc k) s1 (turned-Dealing n k s.thread_pool d) in
      (
        s',
        rw next done,
        kept
            ∙ append_assoc s.connections ((l, waiting (active, connfd)) ∷ [])
                (dealt n (suc k) conns)
            ∙ ap (λ m. s.connections ++ (m, waiting (active, connfd)) ∷ dealt n (suc k) conns) same,
      )

  -- From a new server with a listening descriptor and 0 < n < 2^31 threads: after `start` on the
  -- loop's thread, any connections are kept and wait for their requests, and the i-th of them is
  -- given to the loop of the i-th thread modulo n.
  pub start-dealt :
      (loop : L) (n active fd : ℕ) (conns : List (ℕ × ℤ))
      → 0 < n
      → n < 2 ^ 31
      → Yields
          (start (new_server loop n active (pos (suc fd))) true start_loop >>= λ s.
            hand_conns s conns)
          (λ s'. s'.connections ≡ dealt n 0 conns)
  unfolding start new_server channel_for
  start-dealt loop n active fd conns some_threads small =
      let (p, started, (ready, size, next, all)) = start_lem start_loop loop n some_threads small in
      let channel = set_event (new_channel active (suc fd) false) channel_conn in
      let s = record (new_server loop n active (pos (suc fd))) {
        thread_pool = p;
        accept_channel = some channel;
        updates = [] ++ channel ∷ [];
      } in
      let d : Dealing n 0 p = record {
        ready = ready;
        size = size;
        turn = next ∙ sym (mod-eq_of_lt some_threads);
        all = all;
      } in
      let (s', done, kept) = hand_conns-dealt conns n 0 s d in (s', rw started done, kept)
