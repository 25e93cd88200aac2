-- ===== src/Proxy/Write.antt =====
-- `v2` of protocol/proxy.rs.
use opentunnel.Prelude.{
  ℕ, ◌+◌, ◌/◌, ◌%◌, ◌^◌, Option, none, some, [], ◌∷◌, ◌++◌, leb, if◌then◌else◌, Bytes, length,
}

pub data SocketAddr : Type 0 where
  -- The four bytes of the address and the port.
  v4 : ℕ → ℕ → ℕ → ℕ → ℕ → SocketAddr
  -- The sixteen bytes of the address and the port.
  v6 : Bytes → ℕ → SocketAddr

abbrev pub public_port : ℕ
public_port = 443

abbrev pub v2_signature : Bytes
v2_signature = 13 ∷ 10 ∷ 13 ∷ 10 ∷ 0 ∷ 13 ∷ 10 ∷ 81 ∷ 85 ∷ 73 ∷ 84 ∷ 10 ∷ []

-- `u16::to_be_bytes`.
abbrev pub be16 : ℕ → Bytes
be16 n = n / 256 % 256 ∷ n % 256 ∷ []

abbrev pub unspecified6 : Bytes
unspecified6 = 0 ∷ 0 ∷ 0 ∷ 0 ∷ 0 ∷ 0 ∷ 0 ∷ 0 ∷ 0 ∷ 0 ∷ 0 ∷ 0 ∷ 0 ∷ 0 ∷ 0 ∷ 0 ∷ []

unfoldable pub v2_command : Option SocketAddr → ℕ
v2_command none = 32
v2_command (some source) = 33

unfoldable pub v2_family : Option SocketAddr → ℕ
v2_family none = 0
v2_family (some (v4 a b c d port)) = 17
v2_family (some (v6 octets port)) = 33

unfoldable pub v2_addresses : Option SocketAddr → Bytes
v2_addresses none = []
v2_addresses (some (v4 a b c d port)) =
    (a ∷ b ∷ c ∷ d ∷ 0 ∷ 0 ∷ 0 ∷ 0 ∷ []) ++ be16 port ++ be16 public_port
v2_addresses (some (v6 octets port)) = octets ++ unspecified6 ++ be16 port ++ be16 public_port

-- The server name in a `PP2_TYPE_AUTHORITY` field, where it is one.
unfoldable pub authority : Bytes → Bytes
authority [] = []
authority (c ∷ sni) = let n = length sni + 1 in if leb n 255 then 2 ∷ be16 n ++ c ∷ sni else []

unfoldable pub v2_body : Option SocketAddr → Bytes → Bytes
unfolding v2_addresses authority
v2_body source sni = v2_addresses source ++ authority sni

unfoldable pub v2 : Option SocketAddr → Bytes → Bytes
unfolding v2_command v2_family v2_body
v2 source sni =
    let body = v2_body source sni in
    v2_signature
    ++ (v2_command source ∷ v2_family source ∷ [])
    ++ be16 (length body % 2 ^ 16)
    ++ body
