-- ===== src/Service/Route.antt =====
-- `Service::route`: picks the bridge for a public connection and puts the connection on it.
use opentunnel.Prelude.{
  ℕ, zero, suc, ◌+◌, ◌%◌, ◌^◌, Bool, true, false, not, ◌&&◌, ◌||◌, Option, none, some, List, [],
  ◌∷◌, ◌++◌, leb, ◌==◌, if◌then◌else◌, Bytes, beq, length, strip_suffix,
}
use opentunnel.Names.{has, root_route, dot}
use opentunnel.Record.{StoredTunnel, certificate_ready}
use opentunnel.Service.Bridge.{Bridge, new_finish, claims, conn_limit, add_visitor, has_channel}
use opentunnel.Service.Entry.{Machine, Entry, tunnel_record, retire_stale, update_bridge}

pub data Rejection : Type 0 where
  no_bridge certificate_not_ready unknown_route too_many_connections : Rejection

pub data Route : Type 0 where
  -- The bridge, the connection's number on it, and its `Finish` cell.
  bridge : ℕ → ℕ → ℕ → Route
  -- Whether the tunnel exists, and why nothing serves the connection here.
  rejected : Bool → Rejection → Route
  -- The search for a number has not ended within its fuel.
  searching : Route

-- The route that a server name asks for, of the tunnel with this hostname.
unfoldable pub wanted_route : Bytes → Bytes → Option Bytes
wanted_route sni hostname =
    if beq sni hostname then some root_route else strip_suffix sni (dot ++ hostname)

-- What to report when nothing serves the route.
unfoldable pub rejection : StoredTunnel → Option Bytes → Rejection
rejection t route = if not (certificate_ready t) then certificate_not_ready else elim route [
  | none ↦ unknown_route
  | some r ↦ if has b'.' r then unknown_route else no_bridge
]

unfoldable pub find_claiming : Bytes → List Bridge → Option Bridge
find_claiming route [] = none
find_claiming route (b ∷ rest) = if claims b route then some b else find_claiming route rest

unfoldable pub total_visitors : List Bridge → ℕ
total_visitors [] = 0
total_visitors (b ∷ rest) = b.visitors + total_visitors rest

unfoldable pub in_use : ℕ → List Bridge → Bool
in_use conn [] = false
in_use conn (b ∷ rest) = has_channel conn b.channels || in_use conn rest

unfoldable pub total_channels : List Bridge → ℕ
total_channels [] = 0
total_channels (b ∷ rest) = length b.channels + total_channels rest

-- The loop that numbers a connection: the next candidate that is not 0 and on no bridge. The result
-- holds the number and the sequence after it.
unfoldable pub number_conn : ℕ → ℕ → List Bridge → Option (ℕ × ℕ)
unfolding in_use
number_conn zero sequence bridges = none
number_conn (suc fuel) sequence bridges =
    let next = (sequence + 1) % 2 ^ 32 in
    let rest = number_conn fuel next bridges in
    if not (sequence == 0) && not (in_use sequence bridges) then some (sequence, next) else rest

unfoldable pub admit_bridge : ℕ → ℕ → Bridge → Bridge
unfolding add_visitor
admit_bridge conn cell b =
    add_visitor (record b { channels = (conn, record { cell = cell; bytes_out = 0 }) ∷ b.channels })

-- Puts a connection on the chosen bridge.
unfoldable pub admit : ℕ → Option (ℕ × ℕ) → Entry → Entry × Route
unfolding admit_bridge
admit id none s = (s, searching)
admit id (some (conn, sequence)) s = (
  record s {
    sequence = sequence;
    bridges = update_bridge id (admit_bridge conn (length s.cells)) s.bridges;
    cells = s.cells ++ new_finish ∷ [];
  },
  bridge id conn (length s.cells),
)

-- The limits, once a bridge claims the route.
unfoldable pub carry : Machine → Bridge → Entry → Entry × Route
unfolding admit number_conn total_channels total_visitors
carry m b s =
    if leb (conn_limit m.conns_per_bridge b) b.visitors
      || leb m.conns_per_tunnel (total_visitors s.bridges)
    then (s, rejected true too_many_connections)
    else admit b.id (number_conn (total_channels s.bridges + 2) s.sequence s.bridges) s

-- The choice between serving and rejecting.
unfoldable pub serve : Machine → Rejection → Option Bridge → Entry → Entry × Route
unfolding carry
serve m no_bridge (some b) s = carry m b s
serve m reason _ s = (s, rejected true reason)

unfoldable pub claiming : Option Bytes → List Bridge → Option Bridge
claiming none bridges = none
claiming (some route) bridges = find_claiming route bridges

unfoldable pub route : Machine → ℕ → Bytes → Entry → Entry × Route
unfolding serve wanted_route rejection claiming find_claiming retire_stale tunnel_record
route m now sni s = elim (tunnel_record s) [
  | none ↦ (s, rejected false no_bridge)
  | some t ↦
      let wanted = wanted_route sni t.hostname in
      let s' = retire_stale m now s in serve m (rejection t wanted) (claiming wanted s'.bridges) s'
]
