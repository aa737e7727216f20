-- ===== src/TcpServer/Failure.antt =====
-- net/acceptor.cpp with net/tcp_server.cpp: what becomes of an `accept` that fails.
use xweb.Prelude.{◌^◌, ltb, Yields, ℕ, suc, ◌≡◌, refl, Option, true, ◌>>=◌, ◌∷◌}
use xweb.Prelude.Int.{negsuc}
use xweb.Socket
use xweb.Acceptor.{Acceptor, handle_conn, int_bits}
use xweb.TcpConnection.{TcpConnection, is_connected}
use xweb.TcpServer.{TcpServer, add_connection, connection_name}
use xweb.TcpServer.Connections.{Inv, add_connection_refines}

-- A failed `accept` reaches a server like any other: with its connection callback set and a name
-- left, it keeps one more connected connection, over the descriptor -1 or whatever `accept`
-- returned.
pub add-accept_failed :
    {A : Type 0} (a : Acceptor) (n : ℕ) (addr unset : A) (s : TcpServer) (active : ℕ)
    → Inv s
    → s.has_connection ≡ true
    → ltb (suc s.next_conn_id) (2 ^ 31) ≡ true
    → (handle_conn a true (negsuc n) addr unset ≡ Option.some (int_bits (negsuc n), unset))
      × Yields
          (handle_conn a true (negsuc n) addr unset >>= λ r. add_connection s true r.0 active)
          (λ t.
            (c : TcpConnection) × (t.conn_map
              ≡ (connection_name s.port s.next_conn_id, c) ∷ s.conn_map)
            × (is_connected c.state ≡ true))
unfolding handle_conn Socket.accept
add-accept_failed a n addr unset s active i has fits =
    let (t, made, (inv, (c, joined, connected))) =
      add_connection_refines s (int_bits (negsuc n)) active i has fits in
    (refl, (t, made, (c, joined, connected)))
