-- ===== src/ThreadPool.antt =====
-- net/thread_pool.h and net/thread_pool.cpp: the loops of the worker threads, handed out in turn. A
-- loop is of any type; `t->startLoop()` gives the loops that `start` pushes, an argument.
pub mod RoundRobin
pub mod Loops
use xweb.Prelude.{
  ℕ, zero, suc, ◌+◌, ◌%◌, ◌^◌, List, [], ◌∷◌, ◌++◌, Option, none, some, Bool, true, false, ◌>>=◌,
  ◌>>◌, assert, ltb, get_elem?, add_size, length, ◌==◌, if◌then◌else◌,
}

pub record ThreadPool (L : Type 0) : Type 0 where
  pub maxn : ℕ
  pub next : ℕ
  pub started : Bool
  pub mainloop : L
  pub loops : List L

-- The operator `%`.
abbrev pub remainder : ℕ → ℕ → Option ℕ
remainder n zero = none
remainder n (suc m) = some (n % suc m)

module _ {L : Type 0} where
  pub new_pool : L → ℕ → ThreadPool L
  new_pool mainloop maxn = record {
    maxn = maxn;
    next = 0;
    started = false;
    mainloop = mainloop;
    loops = [];
  }

  -- The loop of `start`, with its `int i` and the turns that are left; `none` is the overflow of
  -- `i`.
  pub push_loops : ThreadPool L → (ℕ → L) → ℕ → ℕ → Option (ThreadPool L)
  push_loops p start_loop i zero = some p
  push_loops p start_loop i (suc left) =
      let rest =
        push_loops (record p { loops = p.loops ++ start_loop i ∷ [] }) start_loop (suc i) left in
      if ltb (suc i) (2 ^ 31) then rest else none

  -- `start`, with the loop that the i-th new thread starts.
  pub start : ThreadPool L → Bool → (ℕ → L) → Option (ThreadPool L)
  unfolding push_loops
  start p in_loop start_loop = do
    assert in_loop
    push_loops (record p { started = true }) start_loop 0 p.maxn

  -- A remainder by 0 stops the program; an index out of the vector too.
  pub get_next_loop : ThreadPool L → Bool → Option (L × ThreadPool L)
  get_next_loop p in_loop = do
    assert in_loop
    if length p.loops == 0 then some (p.mainloop, p) else (do
      loop ← get_elem? p.loops p.next
      next ← remainder (add_size p.next 1) p.maxn
      some (loop, record p { next = next }))
