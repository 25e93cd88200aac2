-- ===== src/Proxy/Parse.antt =====
-- The parser of proxy_protocol.rs. `parse_ip` and `parse_port` are `parse::<IpAddr>` and `parse::<u16>`,
-- `from_utf8` tells whether bytes are a text. An index reads 0 where Rust's would panic; the lengths
-- are checked before.
use opentunnel.Prelude.{
  ℕ, ◌+◌, ◌*◌, ◌/◌, ◌%◌, Bool, not, ◌&&◌, ◌||◌, Option, none, some, List, [], ◌∷◌, ltb, leb, ◌==◌,
  min, if◌then◌else◌, Bytes, beq, codes, length, take, drop, ◌>>=◌,
}
use opentunnel.Names.{split}
use opentunnel.Proxy.Write.{SocketAddr, v4, v6, v2_signature}

pub data Header : Type 0 where
  incomplete invalid : Header
  complete : ℕ → Option SocketAddr → Header

abbrev pub v1_max : ℕ
v1_max = 107

-- A slice `bytes[from..to]`, in range where the caller checked the length.
abbrev pub slice : ℕ → ℕ → Bytes → Bytes
slice from to bytes = drop from (take to bytes)

abbrev pub at : ℕ → Bytes → ℕ
at i bytes = elim (drop i bytes) [ [] ↦ 0 | x ∷ rest ↦ x ]

-- `u16::from_be_bytes`.
abbrev pub from_be16 : ℕ → ℕ → ℕ
from_be16 high low = high * 256 + low

-- The source by the command (its low half) and the family (its high half); `none` is no valid header.
unfoldable pub source_of : ℕ → ℕ → Bytes → Option (Option SocketAddr)
source_of command family body =
    if command == 0
    then some none
    else if not (command == 1)
    then none
    else if family == 1 && leb 12 (length body)
    then some (
        some
          (v4 (at 0 body) (at 1 body) (at 2 body) (at 3 body) (from_be16 (at 8 body) (at 9 body))))
    else if family == 2 && leb 36 (length body)
    then some (some (v6 (take 16 body) (from_be16 (at 32 body) (at 33 body))))
    else some none

unfoldable pub completed : ℕ → Option (Option SocketAddr) → Header
completed total none = invalid
completed total (some source) = complete total source

unfoldable pub parse_v2 : Bytes → Header
unfolding source_of completed
parse_v2 data_ =
    let prefix = min (length data_) 12 in
    if not (beq (take prefix data_) (take prefix v2_signature))
    then invalid
    else if ltb (length data_) 16
    then incomplete
    else if not (at 12 data_ / 16 == 2)
    then invalid
    else (let total = 16 + from_be16 (at 14 data_) (at 15 data_) in
        if ltb (length data_) total
        then incomplete
        else completed total
            (source_of (at 12 data_ % 16) (at 13 data_ / 16) (slice 16 total data_)))

-- `windows(2).position(|window| window == b"\r\n")`.
unfoldable pub line_end : Bytes → Option ℕ
line_end [] = none
line_end (x ∷ []) = none
line_end (x ∷ y ∷ rest) =
    let later = line_end (y ∷ rest) in
    if x == 13 && y == 10 then some 0 else elim later [ none ↦ none | some n ↦ some (n + 1) ]

module _ (parse_ip : Bytes → Option (ℕ → SocketAddr)) (parse_port : Bytes → Option ℕ)
    (from_utf8 : Bytes → Bool) where
  -- The source and port of a `TCP4` or `TCP6` line.
  unfoldable pub v1_address : List Bytes → Option (Option SocketAddr)
  v1_address (source ∷ destination ∷ port ∷ destination_port ∷ []) = do
    ip ← parse_ip source
    number ← parse_port port
    some (some (ip number))
  v1_address _ = none

  unfoldable pub v1_source : List Bytes → Option (Option SocketAddr)
  unfolding v1_address
  v1_source (proxy ∷ kind ∷ rest) =
      if not (beq proxy (codes "PROXY"))
      then none
      else if beq kind (codes "UNKNOWN")
      then some none
      else if beq kind (codes "TCP4") || beq kind (codes "TCP6")
      then v1_address rest
      else none
  v1_source _ = none

  unfoldable pub parse_line : Bytes → ℕ → Header
  unfolding v1_source completed split
  parse_line data_ end =
      let line = take end data_ in
      if not (from_utf8 line) then invalid else completed (end + 2) (v1_source (split b' ' line))

  unfoldable pub parse_v1 : Bytes → Header
  unfolding parse_line line_end
  parse_v1 data_ =
      let prefix = min (length data_) 6 in
      if not (beq (take prefix data_) (take prefix (codes "PROXY ")))
      then invalid
      else elim (line_end data_) [
        | none ↦ if leb v1_max (length data_) then invalid else incomplete
        | some end ↦ parse_line data_ end
      ]

  unfoldable pub parse : Bytes → Header
  unfolding parse_v2 parse_v1
  parse [] = incomplete
  parse (first ∷ rest) =
      if first == 13
      then parse_v2 (first ∷ rest)
      else if first == b'P'
      then parse_v1 (first ∷ rest)
      else invalid
