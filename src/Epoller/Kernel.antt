-- ===== src/Epoller/Kernel.antt =====
-- net/linux/epoller.cpp: what epoll watches after the calls that were made.
use xweb.Prelude.{ℕ, ◌≡◌, refl, List, [], ◌∷◌, ◌++◌, true, false, if◌then◌else◌, ℕ_discrete}
use xweb.Prelude.Map.{find, erase, assign, find-erase, find-erase_ne, find-assign, find-assign_ne}
use xweb.Epoller.{Epoller, Call, ctl_add, ctl_mod, ctl_del, set_time, is_some}

-- The descriptors that epoll watches behind a call, with their masks.
unfoldable pub after : List (ℕ × ℕ) → Call → List (ℕ × ℕ)
after w (ctl_add fd mask ok) = if ok then assign ℕ_discrete w fd mask else w
after w (ctl_mod fd mask ok) = if ok then assign ℕ_discrete w fd mask else w
after w (ctl_del fd ok) = if ok then erase ℕ_discrete w fd else w
after w (set_time fd spec ok) = w

unfoldable pub replay : List (ℕ × ℕ) → List Call → List (ℕ × ℕ)
replay w [] = w
replay w (c ∷ cs) = replay (after w c) cs

-- epoll refuses to add what it watches, and to change or drop what it does not.
unfoldable pub Legal : List (ℕ × ℕ) → Call → Type 0
Legal w (ctl_add fd mask ok) = is_some (find ℕ_discrete w fd) ≡ false
Legal w (ctl_mod fd mask ok) = is_some (find ℕ_discrete w fd) ≡ true
Legal w (ctl_del fd ok) = is_some (find ℕ_discrete w fd) ≡ true
Legal w (set_time fd spec ok) = Unit {0}

unfoldable pub AllLegal : List (ℕ × ℕ) → List Call → Type 0
AllLegal w [] = Unit {0}
AllLegal w (c ∷ cs) = Legal w c × AllLegal (after w c) cs

unfoldable pub watched : Epoller → List (ℕ × ℕ)
watched p = replay [] p.calls

-- The same keys.
unfoldable pub SameKeys : List (ℕ × ℕ) → List (ℕ × ℕ) → Type 0
SameKeys m w = (fd : ℕ) → is_some (find ℕ_discrete m fd) ≡ is_some (find ℕ_discrete w fd)

pub replay-append :
    (w : List (ℕ × ℕ)) (cs : List Call) (c : Call) → replay w (cs ++ c ∷ []) ≡ after (replay w cs) c
unfolding replay
replay-append w [] c = refl
replay-append w (d ∷ cs) c = replay-append (after w d) cs c

pub AllLegal-append :
    (w : List (ℕ × ℕ)) (cs : List Call) (c : Call)
    → AllLegal w cs
    → Legal (replay w cs) c
    → AllLegal w (cs ++ c ∷ [])
unfolding replay AllLegal
AllLegal-append w [] c h l = (l, tt)
AllLegal-append w (d ∷ cs) c h l = (h.0, AllLegal-append (after w d) cs c h.1 l)

pub SameKeys-assign :
    (m w : List (ℕ × ℕ)) (k v v' : ℕ)
    → SameKeys m w
    → SameKeys (assign ℕ_discrete m k v) (assign ℕ_discrete w k v')
unfolding SameKeys
SameKeys-assign m w k v v' h fd = elim (ℕ_discrete k fd) [
  | yes e ↦ rw (← e, find-assign ℕ_discrete m k v, find-assign ℕ_discrete w k v') refl
  | no n ↦ rw (find-assign_ne ℕ_discrete m k fd v n, find-assign_ne ℕ_discrete w k fd v' n) (h fd)
]

pub SameKeys-erase :
    (m w : List (ℕ × ℕ)) (k : ℕ)
    → SameKeys m w
    → SameKeys (erase ℕ_discrete m k) (erase ℕ_discrete w k)
unfolding SameKeys
SameKeys-erase m w k h fd = elim (ℕ_discrete k fd) [
  | yes e ↦ rw (← e, find-erase ℕ_discrete m k, find-erase ℕ_discrete w k) refl
  | no n ↦ rw (find-erase_ne ℕ_discrete m k fd n, find-erase_ne ℕ_discrete w k fd n) (h fd)
]
