-- ===== src/Frames.antt =====
-- Data on a bridge: frames of a connection's number and a payload. `encode_data_frame` and
-- `decode_data_frame` of crates/opentunnel/src/protocol/bridge.rs.
mod Tests
use opentunnel.Prelude.{
  ℕ, ◌+◌, ◌*◌, ◌/◌, ◌%◌, ◌^◌, ◌<◌, ◌≤◌, ◌≡◌, refl, ap, ap₂, ◌∙◌, Bool, true, false, Option, none,
  some, List, [], ◌∷◌, ◌++◌, arith, Bytes, All,
}

-- `u32::to_be_bytes` and its inverse.
abbrev pub be32 : ℕ → Bytes
be32 n = n / 16777216 % 256 ∷ n / 65536 % 256 ∷ n / 256 % 256 ∷ n % 256 ∷ []

abbrev pub from_be32 : ℕ → ℕ → ℕ → ℕ → ℕ
from_be32 a b c d = ((a * 256 + b) * 256 + c) * 256 + d

unfoldable pub encode_data_frame : ℕ → Bytes → Bytes
encode_data_frame conn payload = be32 conn ++ payload

unfoldable pub decode_data_frame : Bytes → Option (ℕ × Bytes)
decode_data_frame (a ∷ b ∷ c ∷ d ∷ payload) = some (from_be32 a b c d, payload)
decode_data_frame _ = none

be32-from_be32 :
    (n : ℕ)
    → n < 2 ^ 32
    → from_be32 (n / 16777216 % 256) (n / 65536 % 256) (n / 256 % 256) (n % 256) ≡ n
be32-from_be32 n h = omega arith

-- A frame that was encoded is decoded to its connection number and payload, and every frame that is
-- decoded is the encoding of what was found in it.
pub decode_data_frame-encode_data_frame :
    ((conn : ℕ) (payload : Bytes)
      → conn < 2 ^ 32
      → decode_data_frame (encode_data_frame conn payload) ≡ some (conn, payload))
    × ((frame : Bytes) (conn : ℕ) (payload : Bytes)
        → All (λ byte. byte < 256) frame
        → decode_data_frame frame ≡ some (conn, payload)
        → encode_data_frame conn payload ≡ frame)
unfolding decode_data_frame encode_data_frame
decode_data_frame-encode_data_frame =
    (λ conn payload h. ap (λ n. some (n, payload)) (be32-from_be32 conn h), back)
  where
    back :
        (frame : Bytes) (conn : ℕ) (payload : Bytes)
        → All (λ byte. byte < 256) frame
        → decode_data_frame frame ≡ some (conn, payload)
        → encode_data_frame conn payload ≡ frame
    back [] conn payload v e = absurd (cc e)
    back (a ∷ []) conn payload v e = absurd (cc e)
    back (a ∷ b ∷ []) conn payload v e = absurd (cc e)
    back (a ∷ b ∷ c ∷ []) conn payload v e = absurd (cc e)
    back (a ∷ b ∷ c ∷ d ∷ rest) conn payload v e =
        let number : from_be32 a b c d ≡ conn = cc e in
        let same : rest ≡ payload = cc e in
        let (ha, (hb, (hc, (hd, all)))) = v in
        let first : conn / 16777216 % 256 ≡ a = omega (arith, number, ha, hb, hc, hd) in
        let second : conn / 65536 % 256 ≡ b = omega (arith, number, ha, hb, hc, hd) in
        let third : conn / 256 % 256 ≡ c = omega (arith, number, ha, hb, hc, hd) in
        let fourth : conn % 256 ≡ d = omega (arith, number, ha, hb, hc, hd) in
        rw (first, second, third, fourth, same) refl
