-- ===== src/Names.antt =====
-- Host and route names: crates/opentunnel/src/protocol/names.rs, and the SNI helpers of
-- crates/opentunnel-server/src/relay.rs. Texts are lists of bytes.
mod Labels
pub mod Split
pub mod Hosts
pub mod Targets
pub mod Ports
mod Tests
use opentunnel.Prelude.{
  ℕ, ◌+◌, Bool, true, false, not, ◌&&◌, ◌||◌, Option, none, some, List, [], ◌∷◌, ◌++◌, map, length,
  leb, ltb, ◌==◌, if◌then◌else◌, Bytes, codes, beq, strip_suffix, ◌>>=◌,
}

-- The route name for the tunnel hostname itself, "@".
abbrev pub root_route : Bytes
root_route = b'@' ∷ []

abbrev pub dot : Bytes
dot = b'.' ∷ []

-- `bytes.iter().all(p)`.
unfoldable pub all : (ℕ → Bool) → Bytes → Bool
all p [] = true
all p (x ∷ xs) = p x && all p xs

-- `text.contains(c)`, for an ASCII character.
unfoldable pub has : ℕ → Bytes → Bool
has c [] = false
has c (x ∷ xs) = x == c || has c xs

unfoldable pub valid_char : ℕ → Bool
valid_char byte = leb b'a' byte && leb byte b'z' || leb b'0' byte && leb byte b'9'

-- The parts of the slice pattern `[first, middle @ .., last]`, after its first byte.
unfoldable pub last_of : ℕ → Bytes → ℕ
last_of x [] = x
last_of x (y ∷ ys) = last_of y ys

unfoldable pub middle_of : ℕ → Bytes → Bytes
middle_of x [] = []
middle_of x (y ∷ ys) = x ∷ middle_of y ys

unfoldable pub label_char : ℕ → Bool
unfolding valid_char
label_char byte = valid_char byte || byte == b'-'

unfoldable pub is_label : Bytes → Bool
unfolding valid_char last_of middle_of all label_char
is_label [] = false
is_label (only ∷ []) = valid_char only
is_label (first ∷ second ∷ rest) =
    leb (length rest + 2) 63
    && (valid_char first
        && (valid_char (last_of second rest) && all label_char (middle_of second rest)))

unfoldable pub is_valid_route : Bytes → Bool
unfolding is_label
is_valid_route value = beq value root_route || is_label value

pub to_ascii_lowercase : Bytes → Bytes
to_ascii_lowercase = map λ c. if leb b'A' c && leb c b'Z' then c + 32 else c

pub route_for_sni : Bytes → Bytes → Option Bytes
unfolding is_label to_ascii_lowercase strip_suffix
route_for_sni sni hostname =
    let sni = to_ascii_lowercase sni in
    let hostname = to_ascii_lowercase hostname in
    if beq sni hostname then some root_route else (do
      prefix ← strip_suffix sni hostname
      label ← strip_suffix prefix dot
      if is_label label then some label else none)

cons_head : ℕ → List Bytes → List Bytes
cons_head x [] = (x ∷ []) ∷ []
cons_head x (p ∷ ps) = (x ∷ p) ∷ ps

-- `text.split(c)`: one part more than there are separators.
unfoldable pub split : ℕ → Bytes → List Bytes
unfolding cons_head
split c [] = [] ∷ []
split c (x ∷ xs) = let rest = split c xs in if x == c then [] ∷ rest else cons_head x rest

-- The two guards and `labels.last()` of `tunnel_id`, on the labels before the domain.
pub last_label : List Bytes → Option Bytes
last_label [] = none
last_label (id ∷ []) = some id
last_label (route ∷ id ∷ []) = some id
last_label _ = none

not_empty : Bytes → Option Bytes
not_empty [] = none
not_empty (x ∷ xs) = some (x ∷ xs)

pub tunnel_id : Bytes → Bytes → Option Bytes
unfolding split last_label not_empty strip_suffix
tunnel_id hostname domain = do
  prefix ← strip_suffix hostname domain
  labels ← strip_suffix prefix dot
  id ← last_label (split b'.' labels)
  not_empty id

pub route_name : Bytes → Bytes → Bytes → Option Bytes
unfolding has strip_suffix not_empty
route_name hostname id domain = do
  prefix ← strip_suffix hostname domain
  labels ← strip_suffix prefix dot
  if beq labels id then some root_route else (do
    before ← strip_suffix labels id
    route ← strip_suffix before dot
    found ← not_empty route
    if has b'.' found then none else some found)
