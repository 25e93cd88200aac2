-- ===== src/Names/Targets.antt =====
-- Targets of routes: `parse_target` of protocol/names.rs, and `str::parse::<u16>`.
use opentunnel.Prelude.{
  ℕ, ◌+◌, ◌-◌, ◌*◌, ◌^◌, Bool, false, ◌&&◌, ◌||◌, Option, none, some, [], ◌∷◌, leb, ltb, ◌==◌,
  if◌then◌else◌, Bytes, strip_suffix, ◌>>=◌,
}
use opentunnel.Names.{all, is_label, has}

unfoldable pub is_valid_profile : Bytes → Bool
unfolding is_label
is_valid_profile value = is_label value

-- `value.rsplit_once(':')`: the parts around the last separator.
unfoldable pub rsplit_once : ℕ → Bytes → Option (Bytes × Bytes)
unfolding has
rsplit_once c [] = none
rsplit_once c (x ∷ xs) =
    let later = rsplit_once c xs in
    elim later [
      | some (host, port) ↦ some (x ∷ host, port)
      | none ↦ if x == c then some ([], xs) else none
    ]

-- The digits of a number below `bound`, after a value read so far.
unfoldable pub read_digits : ℕ → ℕ → Bytes → Option ℕ
read_digits bound value [] = some value
read_digits bound value (c ∷ text) =
    let next = value * 10 + (c - b'0') in
    let rest = read_digits bound next text in
    if (leb b'0' c && leb c b'9') && ltb next bound then rest else none

-- A number of 16 bits in decimal, with at most one `+` before it.
unfoldable pub parse_u16 : Bytes → Option ℕ
unfolding read_digits
parse_u16 [] = none
parse_u16 (c ∷ []) = read_digits (2 ^ 16) 0 (c ∷ [])
parse_u16 (c ∷ d ∷ text) =
    if c == b'+' then read_digits (2 ^ 16) 0 (d ∷ text) else read_digits (2 ^ 16) 0 (c ∷ d ∷ text)

unfoldable pub host_char : ℕ → Bool
host_char c =
    leb b'a' c && leb c b'z'
    || leb b'A' c && leb c b'Z'
    || leb b'0' c && leb c b'9'
    || c == b'.'
    || c == b'-'
    || c == b':'
    || c == b'_'

-- Without the brackets of an address of version 6.
unfoldable pub bare_host : Bytes → Option Bytes
unfolding strip_suffix
bare_host [] = some []
bare_host (c ∷ inner) = if c == b'[' then strip_suffix inner (b']' ∷ []) else some (c ∷ inner)

unfoldable pub is_host : Bytes → Bool
unfolding all host_char
is_host [] = false
is_host (c ∷ host) = all host_char (c ∷ host)

unfoldable pub parse_target : Bytes → Option (Bytes × ℕ)
unfolding rsplit_once parse_u16 bare_host is_host
parse_target value = do
  parts ← rsplit_once b':' value
  port ← parse_u16 parts.1
  valid_port ← (if port == 0 then none else some port)
  host ← bare_host parts.0
  if is_host host then some (host, valid_port) else none
