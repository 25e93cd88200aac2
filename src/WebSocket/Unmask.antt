-- ===== src/WebSocket/Unmask.antt =====
-- Unmasking a payload: `unmask` of crates/opentunnel-server/src/websocket.rs, eight bytes at a time.
--
-- `from_ne_bytes` and `to_ne_bytes` are those of a little-endian machine.
pub mod Words
pub mod Bytewise
use opentunnel.Prelude.{ℕ, zero, suc, ◌+◌, ◌*◌, ◌/◌, ◌%◌, List, [], ◌∷◌, ◌++◌, Bytes}
use opentunnel.Proxy.Parse.{at}

-- `^` on numbers of `w` bits.
unfoldable pub xor : ℕ → ℕ → ℕ → ℕ
xor zero a b = 0
xor (suc w) a b = (a % 2 + b % 2) % 2 + 2 * xor w (a / 2) (b / 2)

unfoldable pub from_le : Bytes → ℕ
from_le [] = 0
from_le (byte ∷ bytes) = byte + 256 * from_le bytes

unfoldable pub to_le : ℕ → ℕ → Bytes
to_le zero n = []
to_le (suc k) n = n % 256 ∷ to_le k (n / 256)

unfoldable pub wide : Bytes → ℕ
unfolding from_le
wide mask = from_le (mask ++ mask)

unfoldable pub unmask_chunk : Bytes → Bytes → Bytes
unfolding to_le xor from_le wide
unmask_chunk mask chunk = to_le 8 (xor 64 (from_le chunk) (wide mask))

-- The bytes from an index on, one by one.
unfoldable pub unmask_rest : ℕ → Bytes → Bytes → Bytes
unfolding xor
unmask_rest index mask [] = []
unmask_rest index mask (byte ∷ rest) =
    xor 8 byte (at (index % 4) mask) ∷ unmask_rest (index + 1) mask rest

unfoldable pub unmask : Bytes → Bytes → Bytes
unfolding unmask_chunk unmask_rest
unmask mask (a ∷ b ∷ c ∷ d ∷ e ∷ f ∷ g ∷ h ∷ rest) =
    unmask_chunk mask (a ∷ b ∷ c ∷ d ∷ e ∷ f ∷ g ∷ h ∷ []) ++ unmask mask rest
unmask mask rest = unmask_rest 0 mask rest
