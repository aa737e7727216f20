-- ===== src/ThreadPool/RoundRobin.antt =====
-- net/thread_pool.cpp: the loops that `getNextLoop` hands out.
use xweb.Prelude.{
  Yields, ℕ, zero, suc, ◌+◌, ◌%◌, ◌^◌, ◌<◌, ◌≡◌, refl, sym, ap, ◌∙◌, List, [], ◌∷◌, ◌++◌, Option,
  some, true, ◌>>=◌, length, get_elem?, arith, length-append,
}
use native.Mathlib.Nat.{mod-lt, mod-add-mod, mod-eq_of_lt}
use xweb.ThreadPool.{ThreadPool, push_loops, get_next_loop, remainder}

remainder_lem : (n m : ℕ) → 0 < m → remainder n m ≡ some (n % m)
remainder_lem n zero h = absurd (omega arith)
remainder_lem n (suc m) h = refl

module _ {L : Type 0} where
  -- A started pool with at least one thread.
  pub record IsReady (p : ThreadPool L) : Type 0 where
    pub some_loops : 0 < p.maxn
    pub small : p.maxn < 2 ^ 64
    pub full : length p.loops ≡ p.maxn
    pub inside : p.next < p.maxn

  -- The loops that n calls return.
  unfoldable pub get_loops : ThreadPool L → ℕ → Option (List L × ThreadPool L)
  get_loops p zero = some ([], p)
  get_loops p (suc n) = do
    (loop, p') ← get_next_loop p true
    (loops, p'') ← get_loops p' n
    some (loop ∷ loops, p'')

  get_elem?-inside : (ls : List L) (i : ℕ) → i < length ls → Yields (get_elem? ls i) (λ l. Unit {0})
  get_elem?-inside [] i h = absurd (omega arith)
  get_elem?-inside (l ∷ ls) zero h = (l, refl, tt)
  get_elem?-inside (l ∷ ls) (suc i) h = get_elem?-inside ls i (omega arith)

  abbrev pub turned : ThreadPool L → ThreadPool L
  turned p = record p { next = (p.next + 1) % p.maxn }

  pub get_next_loop_lem :
      (p : ThreadPool L)
      → IsReady p
      → Yields (get_elem? p.loops p.next) (λ l. get_next_loop p true ≡ some (l, turned p))
  unfolding get_next_loop
  get_next_loop_lem p r =
      let (l, at, _) = get_elem?-inside p.loops p.next (omega (arith, r.full, r.inside)) in
      (
        l,
        at,
        rw (at, remainder_lem ((p.next + 1) % 2 ^ 64) p.maxn r.some_loops)
            (ground (arith, r.full, r.some_loops, r.small, r.inside)),
      )

  pub turned-IsReady : (p : ThreadPool L) → IsReady p → IsReady (turned p)
  turned-IsReady p r = record {
    some_loops = r.some_loops;
    small = r.small;
    full = r.full;
    inside = mod-lt (p.next + 1) r.some_loops;
  }

  -- The i-th of the loops is the one that stands i places on, around the vector.
  unfoldable pub Turns : ThreadPool L → ℕ → List L → Type 0
  Turns p n ls =
      (length ls ≡ n)
      × ((i : ℕ) → i < n → get_elem? ls i ≡ get_elem? p.loops ((p.next + i) % p.maxn))

  pub Turns-one :
      (p : ThreadPool L) (n : ℕ) (l : L) (ls : List L)
      → IsReady p
      → get_elem? p.loops p.next ≡ some l
      → Turns (turned p) n ls
      → Turns p (suc n) (l ∷ ls)
  unfolding Turns
  Turns-one p n l ls r at (len, each) = (omega (arith, len), place)
    where
      place : (i : ℕ) → i < suc n → get_elem? (l ∷ ls) i ≡ get_elem? p.loops ((p.next + i) % p.maxn)
      place zero h = sym (
          ap (get_elem? p.loops)
            (mod-eq_of_lt {n = p.next + 0} {m = p.maxn} (omega (arith, r.inside)) ∙ omega arith)
          ∙ at)
      place (suc i) h =
          each i (omega arith)
          ∙ ap (get_elem? p.loops)
              (mod-add-mod (p.next + 1) p.maxn i ∙ ap (λ k. k % p.maxn) (omega arith))

  -- On a started pool with at least one thread, any number of calls of `getNextLoop` on the
  -- loop's thread return, and the i-th of them returns the loop i places behind the next one,
  -- around the vector.
  pub get_loops-Turns :
      (n : ℕ) (p : ThreadPool L)
      → IsReady p
      → Yields (get_loops p n) (λ r. Turns p n r.0 × IsReady r.1)
  unfolding get_loops Turns
  get_loops-Turns zero p r = (([], p), refl, ((refl, λ i h. absurd (omega arith)), r))
  get_loops-Turns (suc n) p r =
      let (l, at, made) = get_next_loop_lem p r in
      let ((ls, p'), more, (turns, ready)) = get_loops-Turns n (turned p) (turned-IsReady p r) in
      ((l ∷ ls, p'), rw (made, more) refl, (Turns-one p n l ls r at turns, ready))

  pub length-push_loops :
      (n : ℕ) (p : ThreadPool L) (start_loop : ℕ → L) (i : ℕ)
      → i + n < 2 ^ 31
      → Yields
          (push_loops p start_loop i n)
          (λ q. (length q.loops ≡ length p.loops + n) × (q.maxn ≡ p.maxn) × (q.next ≡ p.next))
  unfolding push_loops
  length-push_loops zero p start_loop i h = (p, refl, (omega arith, refl, refl))
  length-push_loops (suc n) p start_loop i h =
      let p' = record p { loops = p.loops ++ start_loop i ∷ [] } in
      let (q, made, (len, maxn, next)) =
        length-push_loops n p' start_loop (suc i) (omega (arith, h)) in
      (
        q,
        ground (arith, made, h),
        (omega (arith, len, length-append p.loops (start_loop i ∷ [])), maxn, next),
      )
