-- ===== src/Acceptor.antt =====
-- net/acceptor.h and net/acceptor.cpp: the listening socket of a server, on the loop's thread.
-- What the system calls return is an argument; `none` is the abort of LOG_FATAL.
mod Tests
use xweb.Prelude.{
  ℕ, List, [], ◌∷◌, ◌++◌, Option, none, some, Bool, true, false, ◌>>=◌, ◌%◌, ◌^◌, ◌-◌, suc,
}
use xweb.Prelude.Int.{ℤ, pos, negsuc}
use xweb.Socket
use xweb.Socket.{Socket, SocketCall, bind_address, set_reuse_addr, set_reuse_port}
use xweb.Channel.{Channel, new_channel, set_event, channel_conn}

-- The calls of the loop, and of the socket.
pub data AcceptorCall : Type 0 where
  updates removes : Channel → AcceptorCall
  socket : SocketCall → AcceptorCall

pub record Acceptor : Type 0 where
  pub listenfd : ℕ
  pub listenning : Bool
  pub accept_channel : Channel
  pub accept_sock : Socket
  pub calls : List AcceptorCall

abbrev pub sockets : List SocketCall → List AcceptorCall
sockets [] = []
sockets (c ∷ cs) = AcceptorCall.socket c ∷ sockets cs

-- The members, before the body of the constructor.
pub members : ℕ → ℕ → Acceptor
members active fd = record {
  listenfd = fd;
  listenning = false;
  accept_channel = new_channel active fd true;
  accept_sock = record { sockfd = fd };
  calls = [];
}

-- The constructor, by the results of `socket` and `bind`.
pub new_acceptor : ℕ → ℤ → ℤ → Option Acceptor
unfolding members
new_acceptor active (negsuc n) bound = none
new_acceptor active (pos fd) bound = do
  let a = members active fd
  binding ← bind_address a.accept_sock bound
  let channel = set_event a.accept_channel channel_conn
  some (record a {
    accept_channel = channel;
    calls =
        sockets (set_reuse_addr a.accept_sock true)
        ++ (sockets (set_reuse_port a.accept_sock true)
            ++ (sockets binding ++ AcceptorCall.updates channel ∷ []));
  })

pub listen : Acceptor → ℤ → Option Acceptor
listen a ret = do
  listening ← Socket.listen a.accept_sock ret
  some (record a { listenning = true; calls = a.calls ++ sockets listening })

-- An int as the number of its 32 bits.
abbrev pub int_bits : ℤ → ℕ
int_bits (pos n) = n % 2 ^ 32
int_bits (negsuc n) = 2 ^ 32 - suc (n % 2 ^ 32)

-- `handleConn`: what is handed to the callback, if it is set, whatever `accept` returned.
unfoldable pub handle_conn : {A : Type 0} → Acceptor → Bool → ℤ → A → A → Option (ℕ × A)
handle_conn a has_callback accepted addr unset =
    let (connfd, peer) = Socket.accept a.accept_sock accepted addr unset in
    elim has_callback [ true ↦ some (int_bits connfd, peer) | false ↦ none ]

-- The destructor, whose member `accept_sock_` closes the descriptor again.
pub destroy : Acceptor → List AcceptorCall
destroy a =
    AcceptorCall.removes a.accept_channel
    ∷ AcceptorCall.socket (SocketCall.close_call a.listenfd)
    ∷ sockets (Socket.destroy a.accept_sock)
