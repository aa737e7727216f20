-- ===== src/Socket.antt =====
-- net/socket.h and net/socket.cpp: the wrapper of a descriptor. What the system calls return is an
-- argument; `none` is the abort of LOG_FATAL. An address is of any type.
use xweb.Prelude.{ℕ, List, [], ◌∷◌, Option, none, some, Bool, true, false}
use xweb.Prelude.Int.{ℤ, pos, negsuc}

-- The options that are set.
pub data SockOption : Type 0 where
  tcp_nodelay reuse_addr reuse_port keep_alive : SockOption

-- The calls that change the descriptor.
pub data SocketCall : Type 0 where
  set_option : ℕ → SockOption → Bool → SocketCall
  bind_call listen_call shut_wr close_call : ℕ → SocketCall

pub record Socket : Type 0 where
  pub sockfd : ℕ

-- A result below 0.
abbrev pub is_negative : ℤ → Bool
is_negative (pos n) = false
is_negative (negsuc n) = true

abbrev pub or_die : ℤ → List SocketCall → Option (List SocketCall)
or_die (pos n) calls = some calls
or_die (negsuc n) calls = none

pub bind_address : Socket → ℤ → Option (List SocketCall)
bind_address s ret = or_die ret (SocketCall.bind_call s.sockfd ∷ [])

pub listen : Socket → ℤ → Option (List SocketCall)
listen s ret = or_die ret (SocketCall.listen_call s.sockfd ∷ [])

-- The descriptor, and what `peeraddr` holds then: the address of the peer, or what it held before.
unfoldable pub accept : {A : Type 0} → Socket → ℤ → A → A → ℤ × A
accept s (pos connfd) addr peeraddr = (pos connfd, addr)
accept s (negsuc n) addr peeraddr = (negsuc n, peeraddr)

pub shutdown_write : Socket → List SocketCall
shutdown_write s = SocketCall.shut_wr s.sockfd ∷ []

pub set_tcp_no_delay : Socket → Bool → List SocketCall
set_tcp_no_delay s on = SocketCall.set_option s.sockfd SockOption.tcp_nodelay on ∷ []

pub set_reuse_addr : Socket → Bool → List SocketCall
set_reuse_addr s on = SocketCall.set_option s.sockfd SockOption.reuse_addr on ∷ []

-- With SO_REUSEPORT, as on Linux.
pub set_reuse_port : Socket → Bool → List SocketCall
set_reuse_port s on = SocketCall.set_option s.sockfd SockOption.reuse_port on ∷ []

pub set_keep_alive : Socket → Bool → List SocketCall
set_keep_alive s on = SocketCall.set_option s.sockfd SockOption.keep_alive on ∷ []

-- Both are stubs.
pub get_socket_error : Socket → ℤ
get_socket_error s = pos 0

pub get_tcp_info : Socket → Bool
get_tcp_info s = false

-- The destructor.
pub destroy : Socket → List SocketCall
destroy s = SocketCall.close_call s.sockfd ∷ []
