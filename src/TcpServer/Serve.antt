-- ===== src/TcpServer/Serve.antt =====
-- net/tcp_server.cpp with net/tcp_connection.cpp and net/linux/epoller.cpp: a server over any
-- sequence of what can happen to it and to its connections.
use xweb.Prelude.{
  ◌^◌, ltb, Yields, ℕ, suc, ◌≡◌, refl, List, [], ◌∷◌, Option, none, some, Bool, true, false, ◌>>=◌,
  Bool-cases, inl, inr, All, length,
}
use xweb.Prelude.Int.{ℤ}
use xweb.Prelude.Map.{find, find-erase, All-erase, find-All, assign}
use xweb.Buffer.{content}
use xweb.Epoller.{active_events, epollin}
use xweb.Channel.{has_flag}
use xweb.Buffer.Transfer.{got}
use xweb.TcpConnection.{TcpConnection, WriteResult, is_disconnected}
use xweb.TcpConnection.Send.{Plausible}
use xweb.TcpConnection.Read.{Readable}
use xweb.TcpConnection.Lifecycle.{destroy-late}
use xweb.TcpConnection.Run.{Fits, FitsOldest}
use xweb.TcpConnection.Run.Handlers.{
  handle_channel-end, Sound, handle_channel-Sound, send-Sound, shutdown-Sound, run_oldest-Sound,
  established-Sound,
}
use xweb.TcpServer.{
  TcpServer, Name, name_discrete, add_connection, Action, ready, sends, shuts, runs, act, settle,
  handle, remove_connection, connection_name, new_server,
}
use xweb.TcpServer.Connections.{Inv, IsLive, Entry, handle-Inv, add-Inv}

-- A new socket, with the garbage of its channel, or an action of a connection.
pub data Event : Type 0 where
  accepts : ℕ → ℕ → Event
  acts : Name → Action → Event

unfoldable pub step : TcpServer → Event → Option TcpServer
unfolding add_connection handle
step s (accepts sockfd active) = add_connection s true sockfd active
step s (acts name action) = handle s name action

pub serve : TcpServer → List Event → Option TcpServer
unfolding step
serve s [] = some s
serve s (e ∷ es) = step s e >>= λ s'. serve s' es

-- A message has room, and a result is one that the call can have for it; `active` is what `poll`
-- stores for a report of the kernel.
pub Doable : TcpConnection → Action → Type 0
Doable c (ready active read write) =
    ((reported : ℕ) × (active ≡ active_events c.channel reported))
    × Readable c read
    × Plausible write (length (content c.output_buffer))
Doable c (sends in_loop ds result) = Fits c ds result
Doable c (shuts in_loop) = Unit {0}
Doable c (runs result) = FitsOldest c c.pending result

-- The counter of the names stays below the largest int, and a connection is one that the server
-- has.
pub CanHappen : TcpServer → Event → Type 0
unfolding Doable
CanHappen s (accepts sockfd active) = ltb (suc s.next_conn_id) (2 ^ 31) ≡ true
CanHappen s (acts name action) =
    (c : TcpConnection) × (find name_discrete s.conn_map name ≡ some c) × Doable c action

unfoldable pub AllCanHappen : TcpServer → List Event → Type 0
unfolding CanHappen step
AllCanHappen s [] = Unit {0}
AllCanHappen s (e ∷ es) =
    CanHappen s e × elim (step s e) [ none ↦ Unit {0} | some s' ↦ AllCanHappen s' es ]

pub SoundEntry : Name × TcpConnection → Type 0
SoundEntry e = Sound e.1

pub AllSound : TcpServer → Type 0
AllSound s = (s.has_connection ≡ true) × All SoundEntry s.conn_map

act-Sound :
    (c : TcpConnection) (action : Action)
    → Sound c
    → IsLive c
    → Doable c action
    → Yields (act c action) Sound
unfolding act Doable IsLive
act-Sound c (ready active read write) s live ((reported, e), r, w) =
    rw e (handle_channel-Sound c reported read write s live r w)
act-Sound c (sends in_loop ds result) s live h = send-Sound c s in_loop ds result h
act-Sound c (shuts in_loop) s live h = shutdown-Sound c s in_loop
act-Sound c (runs result) s live h = run_oldest-Sound c s result h

settle-AllSound :
    (s : TcpServer) (name : Name) (c : TcpConnection)
    → AllSound s
    → Sound c
    → Yields (settle s name c) AllSound
unfolding settle AllSound remove_connection assign SoundEntry
settle-AllSound s name c (has, all) sound = elim (Bool-cases (is_disconnected c.state)) [
  | inl over ↦ (
    remove_connection s name,
    rw (over, destroy-late c over) refl,
    (has, All-erase name_discrete SoundEntry s.conn_map name all),
  )
  | inr live ↦ (
    record s { conn_map = assign name_discrete s.conn_map name c },
    rw live refl,
    (has, (sound, All-erase name_discrete SoundEntry s.conn_map name all)),
  )
]

step-AllSound :
    (s : TcpServer) (e : Event) → Inv s → AllSound s → CanHappen s e → Yields (step s e) AllSound
unfolding step CanHappen add_connection handle AllSound assign SoundEntry Inv Entry
step-AllSound s (accepts sockfd active) i (has, all) fits =
    let (c, made, (sound, connected)) =
      established-Sound active sockfd s.has_write_complete false in
    let name = connection_name s.port s.next_conn_id in
    (
      record s {
        next_conn_id = suc s.next_conn_id;
        conn_map = assign name_discrete s.conn_map name c;
      },
      rw (fits, made, has) refl,
      (has, (sound, All-erase name_discrete SoundEntry s.conn_map _ all)),
    )
step-AllSound s (acts name action) i a (c, found, doable) =
    let entry = find-All name_discrete (Entry s.port s.next_conn_id) s.conn_map name c i found in
    let sound = find-All name_discrete SoundEntry s.conn_map name c a.1 found in
    let (c', made, sound') = act-Sound c action sound entry.1 doable in
    let (t, settled, a') = settle-AllSound s name c' a sound' in (t, rw (found, made) settled, a')

step-Inv : (s t : TcpServer) (e : Event) → step s e ≡ some t → Inv s → Inv t
unfolding step
step-Inv s t (accepts sockfd active) h i = add-Inv s t true sockfd active h i
step-Inv s t (acts name action) h i = handle-Inv s t name action h i

pub serve_total :
    (es : List Event) (s : TcpServer)
    → Inv s
    → AllSound s
    → AllCanHappen s es
    → Yields (serve s es) (λ t. Inv t × AllSound t)
unfolding serve AllCanHappen
serve_total [] s i a h = (s, refl, (i, a))
serve_total (e ∷ es) s i a (now, later) =
    let (s1, made, a1) = step-AllSound s e i a now in
    let later1 : AllCanHappen s1 es = rw made at later in
    let (t, served, done) = serve_total es s1 (step-Inv s s1 e made i) a1 later1 in
    (t, rw made served, done)

-- From a new server with its connection callback set, any sequence of accepted sockets, of
-- reports of the poller and of sends, shutdowns and queued functors of the connections that it
-- has, whose messages have room, whose results are ones that the calls can have and whose names
-- stay below the largest int, runs without a failed `assert`; every connection that the server
-- then has is connected or disconnecting, has one of the names that it gave, has the write flag
-- exactly when output waits, and is known to the poller by its mask.
pub serve_complete :
    (port : ℤ) (has_write_complete : Bool) (es : List Event)
    → AllCanHappen (new_server port true has_write_complete) es
    → Yields
        (serve (new_server port true has_write_complete) es)
        (λ s. Inv s × All SoundEntry s.conn_map)
unfolding new_server Inv AllSound
serve_complete port has_write_complete es h =
    let (s, served, (i, a)) =
      serve_total es (new_server port true has_write_complete) tt (refl, tt) h in
    (s, served, (i, a.1))

-- With the invariants of a server and of a connection that it has, a report of a readable socket
-- whose stream is at its end is handled without a failed `assert`, and removes the connection,
-- which is then destroyed, whatever functors wait for it in the loop: the server has no connection
-- of that name, for them or for another event.
pub close-Absent :
    (s : TcpServer) (name : Name) (c : TcpConnection) (reported : ℕ) (write : WriteResult)
    → Inv s
    → Sound c
    → find name_discrete s.conn_map name ≡ some c
    → has_flag reported epollin ≡ true
    → Yields (handle s name (ready (active_events c.channel reported) (got []) write)) (λ t.
      (t ≡ remove_connection s name)
      × (find name_discrete t.conn_map name ≡ none)
      × ((action : Action) → handle t name action ≡ none))
unfolding handle act settle remove_connection Inv Entry IsLive
close-Absent s name c reported write i sound found readable =
    let entry = find-All name_discrete (Entry s.port s.next_conn_id) s.conn_map name c i found in
    let (c', made, over) = handle_channel-end c reported write sound entry.1 readable in
    let gone = find-erase name_discrete s.conn_map name in
    (
      remove_connection s name,
      rw (found, made, over, destroy-late c' over) refl,
      (refl, gone, λ action. rw gone refl),
    )
