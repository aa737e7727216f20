-- ===== src/InetAddress.antt =====
-- net/inet_address.h: an address of the Internet. `inet_ntoa` and `ntohs`, which the C library has,
-- are arguments. A number of the structures is as memory holds it, in the order of the network.
pub mod Text
mod Tests
use xweb.Prelude.{ℕ, List, [], ◌∷◌, ◌++◌}
use xweb.Prelude.Int.{pos}
use xweb.LogStream.{convert}

pub record SockaddrIn : Type 0 where
  pub sin_family : ℕ
  pub sin_port : ℕ
  pub sin_addr : ℕ

pub record SockaddrIn6 : Type 0 where
  pub sin6_family : ℕ
  pub sin6_port : ℕ
  pub sin6_flowinfo : ℕ
  pub sin6_addr : List ℕ
  pub sin6_scope_id : ℕ

-- The union, by the constructor that made it.
pub data InetAddress : Type 0 where
  in4 : SockaddrIn → InetAddress
  in6 : SockaddrIn6 → InetAddress

-- `addr_`: the address of an IPv4 structure lies where an IPv6 structure has its flow.
pub addr : InetAddress → SockaddrIn
addr (in4 a) = a
addr (in6 a) = record {
  sin_family = a.sin6_family;
  sin_port = a.sin6_port;
  sin_addr = a.sin6_flowinfo;
}

pub family : InetAddress → ℕ
unfolding addr
family a = (addr a).sin_family

-- `sizeof(addr_)`
pub size_of_addr : InetAddress → ℕ
size_of_addr a = 16

pub set_addr : InetAddress → SockaddrIn → InetAddress
set_addr a b = in4 b

pub to_string : (ℕ → List ℕ) → (ℕ → ℕ) → InetAddress → List ℕ
unfolding addr
to_string inet_ntoa ntohs a =
    inet_ntoa (addr a).sin_addr ++ b':' ∷ convert (pos (ntohs (addr a).sin_port))
