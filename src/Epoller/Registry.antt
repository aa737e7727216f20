-- ===== src/Epoller/Registry.antt =====
-- net/linux/epoller.cpp: the map `channels_` and the descriptors that epoll watches.
use xweb.Prelude.{
  ℕ, ◌≡◌, ◌≢◌, refl, sym, ◌∙◌, List, [], ◌∷◌, ◌++◌, Option, none, some, arith, Bool, true, false,
  if◌then◌else◌, Bool-cases, inl, inr, ℕ_discrete,
}
use xweb.Prelude.Map.{find, erase, assign, find-assign, find-assign_ne, find-erase, find-erase_ne}
use xweb.Channel.{Channel, channel_timer, has_flag}
use xweb.Epoller.{
  Epoller, Call, ctl_del, set_time, is_some, control, update, remove, new_epoller, timer_spec,
  interest, epollin, request,
}
use xweb.Epoller.Kernel.{
  after, replay, Legal, AllLegal, watched, SameKeys, replay-append, AllLegal-append,
  SameKeys-assign, SameKeys-erase,
}

-- The map has the descriptors that epoll watches, and no call was one that epoll refuses for that.
pub record Registered (p : Epoller) : Type 0 where
  pub legal : AllLegal [] p.calls
  pub same : SameKeys p.channels (watched p)

called :
    (p : Epoller) (c : Call) (channels : List (ℕ × ℕ))
    → Registered p
    → Legal (watched p) c
    → SameKeys channels (after (watched p) c)
    → Registered (record p { channels = channels; calls = p.calls ++ c ∷ [] })
unfolding watched
called p c channels i l s = record {
  legal = AllLegal-append [] p.calls c i.legal l;
  same = rw (replay-append [] p.calls c) s;
}

request-Legal :
    (p : Epoller) (fd mask : ℕ) (ok : Bool)
    → Registered p
    → Legal (watched p) (request p fd mask ok)
unfolding request SameKeys Legal
request-Legal p fd mask ok i = elim (Bool-cases (is_some (find ℕ_discrete p.channels fd))) [
  | inl old ↦ rw old (sym (i.same fd) ∙ old)
  | inr new ↦ rw new (sym (i.same fd) ∙ new)
]

after-request :
    (p : Epoller) (w : List (ℕ × ℕ)) (fd mask : ℕ) (ok : Bool)
    → after w (request p fd mask ok) ≡ (if ok then assign ℕ_discrete w fd mask else w)
unfolding request after
after-request p w fd mask ok = elim (Bool-cases (is_some (find ℕ_discrete p.channels fd))) [
  | inl old ↦ rw old refl
  | inr new ↦ rw new refl
]

control-Registered :
    (p : Epoller) (pointer : ℕ) (c : Channel) (mask : ℕ) (ok : Bool)
    → Registered p
    → Registered (control p pointer c mask ok).0
unfolding control
control-Registered p pointer c mask true i =
    called p (request p c.fd mask true) (assign ℕ_discrete p.channels c.fd pointer) i
      (request-Legal p c.fd mask true i)
      (rw (after-request p (watched p) c.fd mask true)
        (SameKeys-assign p.channels (watched p) c.fd pointer mask i.same))
control-Registered p pointer c mask false i =
    called p (request p c.fd mask false) p.channels i (request-Legal p c.fd mask false i)
      (rw (after-request p (watched p) c.fd mask false) i.same)

set_time-Registered :
    (p : Epoller) (c : Channel) (ok : Bool)
    → Registered p
    → Registered (record p { calls = p.calls ++ set_time c.fd (timer_spec c) ok ∷ [] })
unfolding after Legal
set_time-Registered p c ok i = called p (set_time c.fd (timer_spec c) ok) p.channels i tt i.same

pub update-Registered :
    (p : Epoller) (pointer : ℕ) (c : Channel) (garbage : ℕ) (timer_ok ok : Bool)
    → Registered p
    → Registered (update p pointer c garbage timer_ok ok).0
unfolding update
update-Registered p pointer c garbage timer_ok ok i =
    elim (Bool-cases (has_flag c.events channel_timer)) [
      | inl timer ↦ rw timer (timed timer_ok)
      | inr plain ↦ rw plain (control-Registered p pointer c (interest garbage c.events) ok i)
    ]
  where
    timed :
        (timer_ok : Bool)
        → Registered
            (if timer_ok
              then control
                  (record p { calls = p.calls ++ set_time c.fd (timer_spec c) timer_ok ∷ [] })
                  pointer
                  c
                  epollin
                  ok
              else (
                record p { calls = p.calls ++ set_time c.fd (timer_spec c) timer_ok ∷ [] },
                c,
              )).0
    timed true =
        control-Registered (record p { calls = p.calls ++ set_time c.fd (timer_spec c) true ∷ [] })
          pointer c epollin ok (set_time-Registered p c true i)
    timed false = set_time-Registered p c false i

pub remove-Registered :
    (p : Epoller) (c : Channel) (ok : Bool) → Registered p → Registered (remove p c ok)
unfolding remove SameKeys after Legal
remove-Registered p c ok i = elim (Bool-cases (is_some (find ℕ_discrete p.channels c.fd))) [
  | inl old ↦ rw old (called p (ctl_del c.fd ok) _ i (sym (i.same c.fd) ∙ old) (erased ok))
  | inr new ↦ rw new i
]
  where
    erased :
        (ok : Bool)
        → SameKeys
            (if ok then erase ℕ_discrete p.channels c.fd else p.channels)
            (if ok then erase ℕ_discrete (watched p) c.fd else watched p)
    erased true = SameKeys-erase p.channels (watched p) c.fd i.same
    erased false = i.same

-- One use of the poller by its loop.
pub data Use : Type 0 where
  updates : ℕ → Channel → ℕ → Bool → Bool → Use
  removes : Channel → Bool → Use

pub run : Epoller → List Use → Epoller
run p [] = p
run p (updates pointer c garbage timer_ok ok ∷ us) =
    run (update p pointer c garbage timer_ok ok).0 us
run p (removes c ok ∷ us) = run (remove p c ok) us

run_keeps_Registered : (us : List Use) (p : Epoller) → Registered p → Registered (run p us)
unfolding run
run_keeps_Registered [] p i = i
run_keeps_Registered (updates pointer c garbage timer_ok ok ∷ us) p i =
    run_keeps_Registered us (update p pointer c garbage timer_ok ok).0
      (update-Registered p pointer c garbage timer_ok ok i)
run_keeps_Registered (removes c ok ∷ us) p i =
    run_keeps_Registered us (remove p c ok) (remove-Registered p c ok i)

empty-Registered : Registered (record { channels = []; calls = [] })
unfolding watched AllLegal replay SameKeys
empty-Registered = record { legal = tt; same = λ fd. refl }

pub new_epoller-Registered :
    (efd active garbage : ℕ) (ok : Bool) → Registered (new_epoller efd active garbage ok)
unfolding new_epoller
new_epoller-Registered efd active garbage ok =
    update-Registered (record { channels = []; calls = [] }) 0 _ garbage true ok empty-Registered

-- From a new poller, whatever is updated and removed and whichever system calls fail, no
-- `epoll_ctl` adds a descriptor that is watched or changes or drops one that is not, and
-- `channels_` has exactly the descriptors that are watched.
pub run-Registered :
    (us : List Use) (efd active garbage : ℕ) (ok : Bool)
    → Registered (run (new_epoller efd active garbage ok) us)
run-Registered us efd active garbage ok =
    run_keeps_Registered us (new_epoller efd active garbage ok)
      (new_epoller-Registered efd active garbage ok)

-- A channel that is no timer, on memory that is clear, is watched for what its mask says when
-- `update` succeeds, `poll` leads to it by its descriptor, and no other descriptor is touched.
pub update-watched :
    (p : Epoller) (pointer : ℕ) (c : Channel) (timer_ok : Bool)
    → has_flag c.events channel_timer ≡ false
    → let p' = (update p pointer c 0 timer_ok true).0 in
      (find ℕ_discrete (watched p') c.fd ≡ some (interest 0 c.events))
      × (find ℕ_discrete p'.channels c.fd ≡ some pointer)
      × ((fd : ℕ) → c.fd ≢ fd → find ℕ_discrete (watched p') fd ≡ find ℕ_discrete (watched p) fd)
unfolding update control watched
update-watched p pointer c timer_ok plain =
    rw
      (
        plain,
        replay-append [] p.calls (request p c.fd (interest 0 c.events) true),
        after-request p (replay [] p.calls) c.fd (interest 0 c.events) true,
      )
      (
        find-assign ℕ_discrete (watched p) c.fd _,
        find-assign ℕ_discrete p.channels c.fd pointer,
        λ fd h. find-assign_ne ℕ_discrete (watched p) c.fd fd _ h,
      )

-- What `remove` leaves when it succeeds: the descriptor is not watched, and no other one is
-- touched.
pub remove-watched :
    (p : Epoller) (c : Channel)
    → Registered p
    → (find ℕ_discrete (watched (remove p c true)) c.fd ≡ none)
      × ((fd : ℕ)
          → c.fd ≢ fd
          → find ℕ_discrete (watched (remove p c true)) fd ≡ find ℕ_discrete (watched p) fd)
unfolding remove watched SameKeys
remove-watched p c i = elim (Bool-cases (is_some (find ℕ_discrete p.channels c.fd))) [
  | inl old ↦
      rw (old, replay-append [] p.calls (ctl_del c.fd true))
        (unfold after in
          (
            find-erase ℕ_discrete (watched p) c.fd,
            λ fd h. find-erase_ne ℕ_discrete (watched p) c.fd fd h,
          ))
  | inr new ↦ rw new (absent _ (sym (i.same c.fd) ∙ new), λ fd h. refl)
]
  where
    absent : (o : Option ℕ) → is_some o ≡ false → o ≡ none
    absent o h = ground arith
