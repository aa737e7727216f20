-- ===== src/InetAddress/Tests.antt =====
-- 127.0.0.1:80 on a machine whose numbers are little-endian.
use xweb.Prelude.{ℕ, ◌≡◌, refl, List, [], ◌∷◌, ◌++◌, ◌*◌, ◌+◌, ◌/◌, ◌%◌}
use xweb.Prelude.Int.{pos}
use xweb.LogStream.{convert}
use xweb.InetAddress.{InetAddress, in4, in6, to_string}

abbrev dotted : ℕ → List ℕ
dotted n =
    convert (pos (n % 256))
    ++ b'.'
      ∷ (convert (pos (n / 256 % 256))
          ++ b'.' ∷ (convert (pos (n / 65536 % 256)) ++ b'.' ∷ convert (pos (n / 16777216))))

abbrev swap : ℕ → ℕ
swap n = n % 256 * 256 + n / 256

abbrev local : InetAddress
local = in4 (record { sin_family = 2; sin_port = 80 * 256; sin_addr = 16777216 + 127 })

text :
    to_string dotted swap local
    ≡ b'1' ∷ b'2' ∷ b'7' ∷ b'.' ∷ b'0' ∷ b'.' ∷ b'0' ∷ b'.' ∷ b'1' ∷ b':' ∷ b'8' ∷ b'0' ∷ []
unfolding to_string convert
text = refl

-- An IPv6 address shows its flow.
abbrev local6 : InetAddress
local6 = in6 (record {
  sin6_family = 10;
  sin6_port = 80 * 256;
  sin6_flowinfo = 0;
  sin6_addr = 0 ∷ 0 ∷ 0 ∷ 0 ∷ 0 ∷ 0 ∷ 0 ∷ 0 ∷ 0 ∷ 0 ∷ 0 ∷ 0 ∷ 0 ∷ 0 ∷ 0 ∷ 1 ∷ [];
  sin6_scope_id = 0;
})

text6 :
    to_string dotted swap local6
    ≡ b'0' ∷ b'.' ∷ b'0' ∷ b'.' ∷ b'0' ∷ b'.' ∷ b'0' ∷ b':' ∷ b'8' ∷ b'0' ∷ []
unfolding to_string convert
text6 = refl
