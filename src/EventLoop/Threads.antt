-- ===== src/EventLoop/Threads.antt =====
-- net/event_loop.cpp: `t_loopInThisThread`, which the constructor of EventLoop sets and nothing
-- clears. Threads and loops are numbers; `none` is the LOG_FATAL of a second loop, which ends
-- the program.
use xweb.Prelude.{
  ℕ, ◌≡◌, refl, List, [], ◌∷◌, Option, none, some, Bool, true, false, not, ◌&&◌, ◌>>=◌, arith,
  ℕ_discrete, subst, ap, ◌∙◌, Option-cases, inl, inr,
}
use xweb.Prelude.Map.{find, assign, find-assign, find-assign_ne}

-- The thread-local pointers that are not null.
abbrev pub Loops : Type 0
Loops = List (ℕ × ℕ)

pub get_event_loop_of_current_thread : Loops → ℕ → Option ℕ
get_event_loop_of_current_thread m thread = find ℕ_discrete m thread

-- The constructor of the loop, on the thread.
pub construct : Loops → ℕ → ℕ → Option Loops
construct m thread loop = elim (find ℕ_discrete m thread) [
  | some other ↦ none
  | none ↦ some (assign ℕ_discrete m thread loop)
]

-- The destructor, which only calls `quit`.
pub destruct : Loops → ℕ → Loops
destruct m loop = m

pub data Act : Type 0 where
  constructs : ℕ → ℕ → Act
  destructs : ℕ → Act

pub acts : Loops → List Act → Option Loops
unfolding construct destruct
acts m [] = some m
acts m (constructs thread loop ∷ rest) = construct m thread loop >>= λ m'. acts m' rest
acts m (destructs loop ∷ rest) = acts (destruct m loop) rest

-- The threads that construct a loop.
unfoldable pub constructors : List Act → List ℕ
constructors [] = []
constructors (constructs thread loop ∷ rest) = thread ∷ constructors rest
constructors (destructs loop ∷ rest) = constructors rest

abbrev pub is_some {ℓ} : {A : Type ℓ} → Option A → Bool
is_some none = false
is_some (some a) = true

abbrev pub among : ℕ → List ℕ → Bool
among t [] = false
among t (u ∷ us) = elim (ℕ_discrete t u) [ yes _ ↦ true | no _ ↦ among t us ]

unfoldable pub distinct : List ℕ → Bool
distinct [] = true
distinct (t ∷ ts) = not (among t ts) && distinct ts

-- None of these threads has a loop.
free : Loops → List ℕ → Bool
free m [] = true
free m (t ∷ ts) = not (is_some (find ℕ_discrete m t)) && free m ts

free-assign :
    (m : Loops) (t l : ℕ) (ts : List ℕ)
    → find ℕ_discrete m t ≡ none
    → free (assign ℕ_discrete m t l) ts ≡ (not (among t ts) && free m ts)
unfolding free
free-assign m t l [] h = refl
free-assign m t l (u ∷ us) h = elim (ℕ_discrete t u) [
  | yes e ↦
      let found : find ℕ_discrete (assign ℕ_discrete m t l) u ≡ some l =
        subst (λ k. find ℕ_discrete (assign ℕ_discrete m t l) k ≡ some l) e
          (find-assign ℕ_discrete m t l) in
      rw found (ground (arith, e))
  | no ne ↦ rw (find-assign_ne ℕ_discrete m t u l ne, free-assign m t l us h) (ground arith)
]

acts-distinct :
    (m : Loops) (calls : List Act)
    → is_some (acts m calls) ≡ (free m (constructors calls) && distinct (constructors calls))
unfolding acts construct free distinct constructors
acts-distinct m [] = refl
acts-distinct m (constructs t l ∷ rest) = elim (Option-cases (find ℕ_discrete m t)) [
  | inl none_yet ↦
      let later = acts-distinct (assign ℕ_discrete m t l) rest in
      let same = free-assign m t l (constructors rest) none_yet in
      rw none_yet (ground (arith, later, same))
  | inr (other, there) ↦ ground (arith, there)
]
acts-distinct m (destructs l ∷ rest) = acts-distinct m rest

free-nothing : (ts : List ℕ) → free [] ts ≡ true
unfolding free find
free-nothing [] = refl
free-nothing (t ∷ ts) = free-nothing ts

-- Constructions and destructions of loops, in any order, go through exactly when no thread
-- constructs two loops, also when the first is destroyed before the second is made.
pub acts-threads : (calls : List Act) → is_some (acts [] calls) ≡ distinct (constructors calls)
acts-threads calls =
    acts-distinct [] calls
    ∙ ap (λ b. b && distinct (constructors calls)) (free-nothing (constructors calls))
