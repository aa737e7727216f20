-- ===== src/ThreadPool/Loops.antt =====
-- net/thread_pool.cpp: what `start` leaves.
use xweb.Prelude.{
  Yields, ℕ, zero, suc, ◌+◌, ◌^◌, ◌<◌, ◌≡◌, ap, ◌∙◌, List, [], ◌∷◌, ◌++◌, some, true, get_elem?,
  append_assoc, append-nil, arith,
}
use xweb.ThreadPool.{ThreadPool, new_pool, start, push_loops}
use xweb.ThreadPool.RoundRobin.{IsReady, length-push_loops}

module _ {L : Type 0} (start_loop : ℕ → L) where
  -- The loops of n threads, from the i-th on.
  pub loops_from : ℕ → ℕ → List L
  loops_from i zero = []
  loops_from i (suc n) = start_loop i ∷ loops_from (suc i) n

  loops-push_loops :
      (n i : ℕ) (p q : ThreadPool L)
      → push_loops p start_loop i n ≡ some q
      → q.loops ≡ p.loops ++ loops_from i n
  unfolding push_loops loops_from
  loops-push_loops zero i p q h = ground (arith, h, append-nil p.loops)
  loops-push_loops (suc n) i p q h =
      loops-push_loops n (suc i) (record p { loops = p.loops ++ start_loop i ∷ [] }) q
        (ground (arith, h))
      ∙ append_assoc p.loops (start_loop i ∷ []) (loops_from (suc i) n)

  pub get_elem?-loops_from :
      (n i j : ℕ) → j < n → get_elem? (loops_from i n) j ≡ some (start_loop (i + j))
  unfolding loops_from
  get_elem?-loops_from zero i j h = absurd (omega arith)
  get_elem?-loops_from (suc n) i zero h = ap (λ k. some (start_loop k)) (omega arith)
  get_elem?-loops_from (suc n) i (suc j) h =
      get_elem?-loops_from n (suc i) j (omega arith) ∙ ap (λ k. some (start_loop k)) (omega arith)

  -- `start` of a new pool with at least one thread, on the loop's thread, starts the threads in
  -- order and makes the pool ready for `getNextLoop`.
  pub start_lem :
      (mainloop : L) (n : ℕ)
      → 0 < n
      → n < 2 ^ 31
      → Yields
          (start (new_pool mainloop n) true start_loop)
          (λ p. IsReady p × (p.maxn ≡ n) × (p.next ≡ 0) × (p.loops ≡ loops_from 0 n))
  unfolding start new_pool
  start_lem mainloop n some_threads small =
      let p = record (new_pool mainloop n) { started = true } in
      let (q, made, (len, same, next)) =
        length-push_loops n p start_loop 0 (omega (arith, small)) in
      (
        q,
        made,
        (
          record {
            some_loops = omega (arith, same);
            small = omega (arith, same);
            full = omega (arith, len, same);
            inside = omega (arith, next, same);
          },
          same,
          next,
          loops-push_loops n 0 p q made,
        ),
      )
