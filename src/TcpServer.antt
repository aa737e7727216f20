-- ===== src/TcpServer.antt =====
-- net/tcp_server.h and net/tcp_server.cpp: the connections of a server, by name. The map holds the
-- connections themselves; a connection that leaves it is destroyed. `none` is a failed `assert`, an
-- exception, or an int that overflows.
pub mod Names
pub mod Connections
pub mod Failure
pub mod Serve
mod Tests
use xweb.Prelude.{
  ℕ, suc, arith, refl, sym, ◌≢◌, List, [], ◌∷◌, ◌++◌, Option, none, some, Bool, true, false,
  if◌then◌else◌, ◌>>=◌, ◌>>◌, assert, ℕ_discrete, ◌≡◌, ◌^◌, ltb,
}
use xweb.Prelude.Int.{ℤ, pos}
use xweb.Prelude.Map.{find, erase, assign}
use xweb.LogStream.{convert}
use xweb.Buffer.Transfer.{ReadResult}
use xweb.TcpConnection
use xweb.TcpConnection.{
  TcpConnection, WriteResult, new_connection, connect_established, handle_channel, is_disconnected,
}
use xweb.TcpConnection.Run.{run_oldest}

abbrev pub Name : Type 0
Name = List ℕ

heads_differ : {x y : ℕ} {xs ys : Name} → x ≢ y → (x ∷ xs) ≢ (y ∷ ys)
heads_differ differs e = differs (ground (arith, e))

tails_differ : {x y : ℕ} {xs ys : Name} → xs ≢ ys → (x ∷ xs) ≢ (y ∷ ys)
tails_differ differs e = differs (ground (arith, e))

nil_differs : {x : ℕ} {xs : Name} → [] ≢ (x ∷ xs)
nil_differs e = absurd (ground (arith, e))

-- The map's order finds a name that is equal.
pub name_discrete : Discrete Name
unfolding ℕ_discrete
name_discrete [] [] = yes refl
name_discrete [] (y ∷ ys) = no nil_differs
name_discrete (x ∷ xs) [] = no (λ e. nil_differs (sym e))
name_discrete (x ∷ xs) (y ∷ ys) = elim (ℕ_discrete x y) [
  | no differs ↦ no (heads_differ differs)
  | yes p ↦ elim (name_discrete xs ys) [
    | no differs ↦ no (tails_differ differs)
    | yes q ↦ yes (rw (p, q) refl)
  ]
]

-- The callbacks are given by whether they are set.
pub record TcpServer : Type 0 where
  pub port : ℤ
  pub next_conn_id : ℕ
  pub started : Bool
  pub has_connection : Bool
  pub has_write_complete : Bool
  pub conn_map : List (Name × TcpConnection)

unfoldable pub new_server : ℤ → Bool → Bool → TcpServer
new_server port has_connection has_write_complete = record {
  port = port;
  next_conn_id = 0;
  started = false;
  has_connection = has_connection;
  has_write_complete = has_write_complete;
  conn_map = [];
}

-- `start`, and whether it calls `listen`.
pub start : TcpServer → TcpServer × Bool
start s = if s.started then (s, false) else (record s { started = true }, true)

-- "%d#%d", which fits its array of 64.
pub connection_name : ℤ → ℕ → Name
connection_name port id = convert port ++ b'#' ∷ convert (pos id)

-- `newConnection`; `connectEstablished` calls the connection callback, which must be set.
pub add_connection : TcpServer → Bool → ℕ → ℕ → Option TcpServer
unfolding connection_name
add_connection s in_loop sockfd active = do
  assert in_loop
  assert (ltb (suc s.next_conn_id) (2 ^ 31))
  let name = connection_name s.port s.next_conn_id
  conn ← connect_established (new_connection active sockfd s.has_write_complete false)
  assert s.has_connection
  some (record s {
    next_conn_id = suc s.next_conn_id;
    conn_map = assign name_discrete s.conn_map name conn;
  })

pub remove_connection : TcpServer → Name → TcpServer
remove_connection s name = record s { conn_map = erase name_discrete s.conn_map name }

-- What happens to a connection: an event of its channel, a call of its user, or the oldest functor
-- that waits for it in the loop.
pub data Action : Type 0 where
  ready : ℕ → ReadResult → WriteResult → Action
  sends : Bool → List ℕ → WriteResult → Action
  shuts : Bool → Action
  runs : WriteResult → Action

pub act : TcpConnection → Action → Option TcpConnection
act c (ready active read write) = handle_channel c active read write
act c (sends in_loop ds result) = TcpConnection.send c in_loop ds result
act c (shuts in_loop) = TcpConnection.shutdown c in_loop
act c (runs result) = run_oldest c c.pending result

-- A connection that closed called `removeConnection`, and is destroyed when its handler returns.
pub settle : TcpServer → Name → TcpConnection → Option TcpServer
unfolding remove_connection
settle s name c =
    if is_disconnected c.state
    then TcpConnection.destroy c >> some (remove_connection s name)
    else some (record s { conn_map = assign name_discrete s.conn_map name c })

pub handle : TcpServer → Name → Action → Option TcpServer
unfolding act settle
handle s name action = do
  c ← find name_discrete s.conn_map name
  c' ← act c action
  settle s name c'

-- The loop of the destructor: the map's is the last pointer to a connection.
pub destroy_all : List (Name × TcpConnection) → Bool → Option (Unit {0})
destroy_all [] in_loop = some tt
destroy_all ((name, c) ∷ rest) in_loop = do
  c' ← TcpConnection.shutdown c in_loop
  TcpConnection.destroy c'
  destroy_all rest in_loop

-- The destructor.
pub destroy : TcpServer → Bool → Option (Unit {0})
unfolding destroy_all
destroy s in_loop = assert in_loop >> destroy_all s.conn_map in_loop

-- The connections that a server comes to have.
pub data Reach : TcpServer → TcpServer → Type 0 where
  here : {s : TcpServer} → Reach s s
  accepted :
      {s t u : TcpServer} (in_loop : Bool) (sockfd active : ℕ)
      → Reach s t
      → add_connection t in_loop sockfd active ≡ some u
      → Reach s u
  handled :
      {s t u : TcpServer} (name : Name) (action : Action)
      → Reach s t
      → handle t name action ≡ some u
      → Reach s u
