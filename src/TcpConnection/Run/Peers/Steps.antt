-- ===== src/TcpConnection/Run/Peers/Steps.antt =====
-- net/tcp_connection.cpp: what a connection does beside reading leaves its input and does not
-- close it.
use xweb.Prelude.{◌≡◌, List, [], ◌∷◌, some, true, arith}
use xweb.TcpConnection.{
  TcpConnection, Task, WriteResult, run_task, send, shutdown, shutdown_in_loop, is_disconnected,
}
use xweb.TcpConnection.Input.{send_in_loop-input, handle_write-input}
use xweb.TcpConnection.State.{send_in_loop-state, handle_write-state}
use xweb.TcpConnection.Run
use xweb.TcpConnection.Run.{Op, run_oldest}
use xweb.TcpConnection.Run.Peers.{Answer}

-- The input is the same, and a connection that is disconnected was so before.
abbrev pub Stays : TcpConnection → TcpConnection → Type 0
Stays c c' =
    (c'.input_buffer ≡ c.input_buffer)
    × (is_disconnected c'.state ≡ true → is_disconnected c.state ≡ true)

run_oldest-Stays :
    (ts : List Task) (c c' : TcpConnection) (result : WriteResult)
    → run_oldest c ts result ≡ some c'
    → Stays c c'
unfolding run_oldest run_task shutdown_in_loop
run_oldest-Stays [] c c' result h = ground arith
run_oldest-Stays (Task.send_task ds ∷ ts) c c' result h =
    let c1 = record c { pending = ts } in
    ground (arith, send_in_loop-input c1 c' true ds result, send_in_loop-state c1 c' true ds result)
run_oldest-Stays (Task.shutdown_task ∷ ts) c c' result h = ground arith

pub step-Stays : (op : Op) (c c' : TcpConnection) → Answer op → Run.step c op ≡ some c' → Stays c c'
unfolding Run.step Answer send shutdown shutdown_in_loop
step-Stays (Op.sends in_loop ds result) c c' a h =
    ground
      (arith, send_in_loop-input c c' in_loop ds result, send_in_loop-state c c' in_loop ds result)
step-Stays (Op.shuts in_loop) c c' a h = ground arith
step-Stays (Op.runs result) c c' a h = run_oldest-Stays c.pending c c' result h
step-Stays (Op.readable read) c c' a h = elim a [ ]
step-Stays (Op.writable result) c c' a h =
    ground (arith, handle_write-input c c' true result, handle_write-state c c' true result)
