-- ===== src/TcpServer/Connections.antt =====
-- net/tcp_server.cpp: the connections that a server keeps.
use xweb.Prelude.{
  ◌^◌, ltb, Yields, ℕ, suc, ◌<◌, ◌≡◌, ◌≢◌, refl, sym, ◌∙◌, List, [], ◌∷◌, none, some, Bool, true,
  false, ◌||◌, if◌then◌else◌, ◌>>◌, assert, arith, Bool-cases, Option-cases, inl, inr, All, subst,
  length, ◌==◌,
}
use xweb.Prelude.Int.{ℤ}
use xweb.Prelude.Map.{find, assign, erase_absent, All-erase, find-All}
use xweb.TcpConnection
use xweb.TcpConnection.{
  TcpConnection, WriteResult, wrote, write_failed, new_connection, connect_established,
  is_disconnected, is_connected, is_connecting, is_disconnecting, send_in_loop, queue_rest,
  queue_remaining, write_directly, handle_channel, handle_read, handle_write, handle_close, drained,
  shutdown_in_loop, Attempt,
}
use xweb.TcpConnection.Lifecycle.{established-Inv, destroy-early}
use xweb.TcpConnection.State.{handle_channel-state, send-state, shutdown-state}
use xweb.TcpConnection.Run.{run_oldest-state}
use xweb.TcpServer
use xweb.TcpServer.{
  TcpServer, Name, name_discrete, connection_name, add_connection, remove_connection, Action, ready,
  sends, shuts, runs, act, settle, handle, destroy, destroy_all, Reach, here, accepted, handled,
}
use xweb.TcpServer.Names.{connection_name_injective}

-- Neither connecting nor disconnected.
unfoldable pub IsLive : TcpConnection → Type 0
IsLive c = (is_connected c.state || is_disconnecting c.state) ≡ true

-- An entry of the map: a name that was given, and a live connection.
unfoldable pub Entry : ℤ → ℕ → Name × TcpConnection → Type 0
Entry port n e = ((i : ℕ) × (i < n) × (e.0 ≡ connection_name port i)) × IsLive e.1

unfoldable pub Inv : TcpServer → Type 0
Inv s = All (Entry s.port s.next_conn_id) s.conn_map

-- The next name is not in use.
find-next :
    (port : ℤ) (n : ℕ) (m : List (Name × TcpConnection))
    → All (Entry port n) m
    → find name_discrete m (connection_name port n) ≡ none
unfolding find Entry
find-next port n [] h = refl
find-next port n (e ∷ m) h = ground (arith, find-next port n m h.1, other)
  where
    other : e.0 ≢ connection_name port n
    other q =
        let (i, below, name) = h.0.0 in
        absurd (omega (arith, below, connection_name_injective port i n (sym name ∙ q)))

Entry-more :
    (port : ℤ) (n : ℕ) (m : List (Name × TcpConnection))
    → All (Entry port n) m
    → All (Entry port (suc n)) m
unfolding Entry
Entry-more port n [] h = tt
Entry-more port n (e ∷ m) h =
    let ((i, below, name), live) = h.0 in (((i, omega arith, name), live), Entry-more port n m h.1)

-- A server whose map satisfies the invariant, on its loop's thread, with the connection callback
-- set and the counter of its names below the largest int, takes every connection: the new one is
-- connected and joins those before, under a name that none of them has.
pub add_connection_refines :
    (s : TcpServer) (sockfd active : ℕ)
    → Inv s
    → s.has_connection ≡ true
    → ltb (suc s.next_conn_id) (2 ^ 31) ≡ true
    → Yields (add_connection s true sockfd active) (λ t.
      Inv t
      × ((c : TcpConnection) × (t.conn_map
            ≡ (connection_name s.port s.next_conn_id, c) ∷ s.conn_map)
          × (is_connected c.state ≡ true)))
unfolding add_connection assign Inv Entry IsLive
add_connection_refines s sockfd active i has fits =
    let (c, made, rest) = established-Inv active sockfd s.has_write_complete false in
    let name = connection_name s.port s.next_conn_id in
    let kept =
      erase_absent name_discrete s.conn_map name (find-next s.port s.next_conn_id s.conn_map i) in
    let connected : is_connected c.state ≡ true = rest.2 in
    (
      record s { next_conn_id = suc s.next_conn_id; conn_map = (name, c) ∷ s.conn_map },
      rw (fits, made, has, kept) refl,
      (
        (
          ((s.next_conn_id, omega arith, refl), ground (arith, connected)),
          Entry-more s.port s.next_conn_id s.conn_map i,
        ),
        (c, refl, connected),
      ),
    )

-- An action leaves a connection live, or disconnects it.
act-IsLive :
    (c c' : TcpConnection) (action : Action)
    → act c action ≡ some c'
    → IsLive c
    → is_disconnected c'.state ≡ false
    → IsLive c'
unfolding act IsLive
act-IsLive c c' (ready active read write) h live open_still =
    ground (arith, handle_channel-state c c' active read write)
act-IsLive c c' (sends in_loop ds result) h live open_still =
    ground (arith, send-state c c' in_loop ds result)
act-IsLive c c' (shuts in_loop) h live open_still = ground (arith, shutdown-state c c' in_loop)
act-IsLive c c' (runs result) h live open_still =
    ground (arith, run_oldest-state c c' c.pending result)

settle-Inv :
    (s t : TcpServer) (name : Name) (c : TcpConnection)
    → settle s name c ≡ some t
    → Inv s
    → ((i : ℕ) × (i < s.next_conn_id) × (name ≡ connection_name s.port i))
    → (is_disconnected c.state ≡ false → IsLive c)
    → Inv t
unfolding settle remove_connection assign Inv Entry
settle-Inv s t name c h i named live = elim (Bool-cases (is_disconnected c.state)) [
  | inl closed ↦
      subst Inv (removed closed)
        (All-erase name_discrete (Entry s.port s.next_conn_id) s.conn_map name i)
  | inr open_still ↦ subst Inv (kept open_still) (
    (named, live open_still),
    All-erase name_discrete (Entry s.port s.next_conn_id) s.conn_map name i,
  )
]
  where
    removed : is_disconnected c.state ≡ true → remove_connection s name ≡ t
    removed closed = elim (Option-cases (TcpConnection.destroy c)) [
      | inl e ↦ ground (arith, e)
      | inr (u, e) ↦ ground (arith, e)
    ]

    kept :
        is_disconnected c.state ≡ false
        → record s { conn_map = assign name_discrete s.conn_map name c } ≡ t
    kept open_still = ground arith

pub handle-Inv :
    (s t : TcpServer) (name : Name) (action : Action)
    → handle s name action ≡ some t
    → Inv s
    → Inv t
unfolding handle Inv Entry
handle-Inv s t name action h i = elim (Option-cases (find name_discrete s.conn_map name)) [
  | inl e ↦ absurd (ground (arith, e))
  | inr (c, e) ↦
      let found = find-All name_discrete (Entry s.port s.next_conn_id) s.conn_map name c i e in
      elim (Option-cases (act c action)) [
        | inl f ↦ absurd (ground (arith, e, f))
        | inr (c', f) ↦
            settle-Inv s t name c' (ground (arith, e, f)) i found.0
              (act-IsLive c c' action f found.1)
      ]
]

pub add-Inv :
    (s t : TcpServer) (in_loop : Bool) (sockfd active : ℕ)
    → add_connection s in_loop sockfd active ≡ some t
    → Inv s
    → Inv t
unfolding add_connection
add-Inv s t in_loop sockfd active h i =
    by_guards in_loop (ltb (suc s.next_conn_id) (2 ^ 31)) s.has_connection refl refl h
  where
    by_guards :
        (b fits has : Bool)
        → ltb (suc s.next_conn_id) (2 ^ 31) ≡ fits
        → s.has_connection ≡ has
        → add_connection s b sockfd active ≡ some t
        → Inv t
    by_guards false fits has f e h = absurd (ground arith)
    by_guards true false has f e h = absurd (ground (arith, f))
    by_guards true true false f e h =
        elim (Option-cases
          (connect_established (new_connection active sockfd s.has_write_complete false))) [
            | inl q ↦ absurd (ground (arith, q, f))
            | inr (c, q) ↦ absurd (ground (arith, q, e, f))
          ]
    by_guards true true true f e h =
        let (t', made, (inv, _)) = add_connection_refines s sockfd active i e f in
        subst Inv (cc (made, h)) inv

-- Whatever connections come, and whatever happens to them, every connection that a new server
-- keeps is connected or disconnecting, and its name is one that the server gave, and not the
-- next one.
pub Reach-Inv :
    (port : ℤ) (has_connection has_write_complete : Bool) (s : TcpServer)
    → Reach (TcpServer.new_server port has_connection has_write_complete) s
    → Inv s × (find name_discrete s.conn_map (connection_name s.port s.next_conn_id) ≡ none)
unfolding Inv TcpServer.new_server
Reach-Inv port a b s r = let i = walk r start in (i, find-next s.port s.next_conn_id s.conn_map i)
  where
    walk : {s t : TcpServer} → Reach s t → Inv s → Inv t
    walk here i = i
    walk (accepted {t = t} {u = u} in_loop sockfd active r h) i =
        add-Inv t u in_loop sockfd active h (walk r i)
    walk (handled {t = t} {u = u} name action r h) i = handle-Inv t u name action h (walk r i)

    start : Inv (TcpServer.new_server port a b)
    start = tt

-- The destructor stops the program unless no connection is left: it shuts each down, which
-- leaves it disconnecting, and then destroys it.
pub destroy-Inv :
    (s : TcpServer) → Inv s → destroy s true ≡ (if length s.conn_map == 0 then some tt else none)
unfolding destroy destroy_all Inv Entry IsLive
destroy-Inv s i = by_map s.conn_map i
  where
    by_map :
        (m : List (Name × TcpConnection))
        → All (Entry s.port s.next_conn_id) m
        → (assert true >> destroy_all m true) ≡ (if length m == 0 then some tt else none)
    by_map [] all = refl
    by_map ((name, c) ∷ m) all = elim (Option-cases (TcpConnection.shutdown c true)) [
      | inl e ↦ ground (arith, e)
      | inr (c', e) ↦ ground (arith, e, all.0.1, shutdown-state c c' true e, destroy-early c')
    ]
