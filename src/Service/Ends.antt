-- ===== src/Service/Ends.antt =====
-- How bridges and connections end: `bridge_closed`, `close_deleted` and `held_routes` of the service,
-- the `end` and `reset` messages of crates/opentunnel-server/src/bridge.rs, and the end of
-- `route_tunnel` in crates/opentunnel-server/src/relay.rs.
use opentunnel.Prelude.{
  ℕ, Bool, true, false, not, ◌&&◌, Option, none, some, List, [], ◌∷◌, ◌++◌, ◌==◌, if◌then◌else◌,
  Bytes, codes,
}
use opentunnel.Service.Bridge.{
  Outcome, closed, reset, bridge_disconnected, deleted, Finish, finish, Channel, Bridge,
  is_attached, is_closing, close, finish_channels, get_channel, remove_channel, drop_visitor,
}
use opentunnel.Service.Entry.{
  Machine, Entry, detached, announce, retire_stale, update_bridge, find_bridge,
}

unfoldable pub remove_bridge : ℕ → List Bridge → List Bridge
remove_bridge id [] = []
remove_bridge id (b ∷ rest) =
    let others = remove_bridge id rest in if b.id == id then others else b ∷ others

-- What `bridge_closed` does for a bridge that attached and was not retired.
unfoldable pub clean_up : Machine → Bridge → Entry → Entry
unfolding announce finish_channels is_attached
clean_up m b s =
    if is_attached b
    then record s {
      cells = (finish_channels bridge_disconnected b s.cells).1;
      mesh = announce m (detached s.id b.id) s.mesh;
    }
    else s

unfoldable pub bridge_closed : Machine → ℕ → Entry → Entry
unfolding clean_up
bridge_closed m id s =
    let s' = record s { bridges = remove_bridge id s.bridges } in
    elim (find_bridge id s.bridges) [ none ↦ s' | some b ↦ clean_up m b s' ]

unfoldable pub close_all : List Bridge → List Finish → List Bridge × List Finish
unfolding finish_channels close
close_all [] cells = ([], cells)
close_all (b ∷ rest) cells =
    let (drained, cells') = finish_channels deleted b cells in
    let (others, cells'') = close_all rest cells' in
    (close 1000 (codes "deleted") drained ∷ others, cells'')

-- `close_deleted`, and whether the tunnel had any bridge here.
unfoldable pub close_deleted : Entry → Entry × Bool
unfolding close_all
close_deleted s =
    let (closing, cells) = close_all s.bridges s.cells in
    (
      record s { bridges = closing; cells = cells; loaded = false; record_of = none; revision = 0 },
      elim s.bridges [ [] ↦ false | b ∷ rest ↦ true ],
    )

live_routes : List Bridge → List Bytes
live_routes [] = []
live_routes (b ∷ rest) =
    (if is_attached b && not (is_closing b) then b.routes else []) ++ live_routes rest

-- `held_routes`, the answer to another machine's attach.
unfoldable pub held_routes : Machine → ℕ → Entry → Entry × List Bytes
unfolding live_routes retire_stale
held_routes m now s = elim s.bridges [
  | [] ↦ (s, [])
  | b ∷ rest ↦ let s' = retire_stale m now s in (s', live_routes s'.bridges)
]

-- Takes a connection off its bridge's table.
unfoldable pub leave : ℕ → Bridge → Bridge
unfolding remove_channel
leave conn b = record b { channels = remove_channel conn b.channels }

pub channel_of : ℕ → ℕ → Entry → Option Channel
channel_of id conn s = elim (find_bridge id s.bridges) [
  | none ↦ none
  | some b ↦ get_channel conn b.channels
]

unfoldable pub client_finish : Outcome → Bool → ℕ → ℕ → Entry → Entry
unfolding channel_of leave update_bridge
client_finish outcome abort id conn s = elim (channel_of id conn s) [
  | none ↦ s
  | some channel ↦ record s {
    bridges = update_bridge id (leave conn) s.bridges;
    cells = finish channel.cell outcome abort s.cells;
  }
]

-- The client's `end` and `reset` (`handle_control`), and a visitor that is too slow (`reset`).
abbrev pub client_end : ℕ → ℕ → Entry → Entry
client_end = client_finish closed false

abbrev pub client_reset : ℕ → ℕ → Entry → Entry
client_reset = client_finish reset true

unfoldable pub depart : ℕ → Bridge → Bridge
unfolding leave drop_visitor
depart conn b = drop_visitor (leave conn b)

-- The end of `route_tunnel`: the connection leaves the table, its `Finish` is set, and its
-- `VisitorSlot` is dropped.
unfoldable pub visitor_ends : ℕ → ℕ → ℕ → Outcome → Bool → Entry → Entry
unfolding depart update_bridge
visitor_ends id conn cell outcome abort s = record s {
  bridges = update_bridge id (depart conn) s.bridges;
  cells = finish cell outcome abort s.cells;
}
