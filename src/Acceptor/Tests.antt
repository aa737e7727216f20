-- ===== src/Acceptor/Tests.antt =====
-- A failed `accept` still reaches the callback.
use xweb.Prelude.{ℕ, ◌≡◌, refl, some, true}
use xweb.Prelude.Int.{negsuc}
use xweb.Socket
use xweb.Acceptor.{handle_conn, members}

accept_failed : handle_conn {A = ℕ} (members 0 3) true (negsuc 0) 1 2 ≡ some (4294967295, 2)
unfolding handle_conn Socket.accept
accept_failed = refl
