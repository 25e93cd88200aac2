-- ===== src/Service/Entry.antt =====
-- The state of one tunnel (`EntryState`) and what happens to its bridges: `register_bridge`,
-- `attach`, `retire_stale`, `route`, `bridge_closed`, `close_deleted`, and the ends of a connection.
--
-- The handlers run under the entry's lock, after `lock_routable` or `lock_for_attach` has read the
-- record, so `record_of` is what those left, and the fields that only they use are left out.
-- Analytics and metrics are not modelled. `mesh` lists what the machine announced to the others, oldest
-- first, and `cells` is the heap of `Finish` cells.
use opentunnel.Prelude.{
  ℕ, ◌+◌, ◌-◌, Bool, true, false, ◌&&◌, Option, none, some, List, [], ◌∷◌, ◌++◌, ltb, ◌==◌,
  if◌then◌else◌, Bytes, codes,
}
use opentunnel.Record.{StoredTunnel, is_deleted}
use opentunnel.Service.Bridge.{
  bridge_disconnected, Finish, Bridge, is_attached, close, finish_channels, send_drain,
  drain_reason,
}

-- What a machine is configured with: whether it is one of many, and `BridgeLimits`.
pub record Machine : Type 0 where
  pub clustered : Bool
  pub conns_per_bridge : ℕ
  pub conns_per_tunnel : ℕ

-- `mesh.attached(id, bridge, routes, at)` and `mesh.detached(id, bridge)`.
pub data Notice : Type 0 where
  attached_at : Bytes → ℕ → List Bytes → ℕ → Notice
  detached : Bytes → ℕ → Notice

pub record Entry : Type 0 where
  pub id : Bytes
  pub loaded : Bool
  pub record_of : Option StoredTunnel
  pub revision : ℕ
  pub bridges : List Bridge
  pub sequence : ℕ
  pub cells : List Finish
  pub mesh : List Notice

abbrev pub max_tunnel_routes : ℕ
max_tunnel_routes = 256

-- `IDLE_TIMEOUT_MS + HEARTBEAT_MS`.
abbrev pub stale_bridge_ms : ℕ
stale_bridge_ms = 45000 + 15000

live_record : Option StoredTunnel → Option StoredTunnel
live_record none = none
live_record (some t) = if is_deleted t then none else some t

-- `EntryState::record`.
unfoldable pub tunnel_record : Entry → Option StoredTunnel
unfolding live_record
tunnel_record s = live_record s.record_of

unfoldable pub announce : Machine → Notice → List Notice → List Notice
announce m notice mesh = if m.clustered then mesh ++ notice ∷ [] else mesh

-- One round of the loop of `retire_stale`, on the bridge and on what it shares.
unfoldable pub is_stale : ℕ → Bridge → Bool
is_stale now b = is_attached b && ltb stale_bridge_ms (now - b.seen_at)

unfoldable pub retire_bridge : ℕ → Bridge → Bridge
unfolding is_stale
retire_bridge now b =
    if is_stale now b
    then close 1001 (codes "idle timeout") (record b { detached = true; channels = [] })
    else b

pub retire_cells : ℕ → Bridge → List Finish → List Finish
unfolding is_stale finish_channels
retire_cells now b cells =
    if is_stale now b then (finish_channels bridge_disconnected b cells).1 else cells

pub retire_mesh : Machine → Option StoredTunnel → ℕ → Bridge → List Notice → List Notice
unfolding is_stale announce
retire_mesh m none now b mesh = mesh
retire_mesh m (some t) now b mesh =
    if is_stale now b then announce m (detached t.id b.id) mesh else mesh

unfoldable pub retire_loop : Machine → ℕ → List Bridge → Entry → Entry
unfolding retire_bridge retire_cells retire_mesh
retire_loop m now [] s = s
retire_loop m now (b ∷ rest) s = retire_loop m now rest (record s {
  bridges = s.bridges ++ retire_bridge now b ∷ [];
  cells = retire_cells now b s.cells;
  mesh = retire_mesh m s.record_of now b s.mesh;
})

-- The bridges are visited in order, and each is put back where it stood.
unfoldable pub retire_stale : Machine → ℕ → Entry → Entry
unfolding retire_loop
retire_stale m now s = retire_loop m now s.bridges (record s { bridges = [] })

unfoldable pub new_bridge : ℕ → ℕ → Bridge
new_bridge id now = record {
  id = id;
  seen_at = now;
  attached = false;
  detached = false;
  session = none;
  routes = [];
  max_conns = none;
  attached_at = 0;
  active_at = 0;
  server_close = none;
  channels = [];
  visitors = 0;
  queue = [];
}

-- `register_bridge`, for the next bridge number; the result says whether the bridge was added.
unfoldable pub register_bridge : ℕ → ℕ → Bool → Entry → Entry × Bool
unfolding new_bridge send_drain
register_bridge id now draining s = elim (tunnel_record s) [
  | none ↦ (s, false)
  | some t ↦
      let b = new_bridge id now in
      (
        record s {
          bridges = s.bridges ++ (if draining then send_drain drain_reason b else b) ∷ [];
        },
        true,
      )
]

unfoldable pub update_bridge : ℕ → (Bridge → Bridge) → List Bridge → List Bridge
update_bridge id f [] = []
update_bridge id f (b ∷ rest) = (if b.id == id then f b else b) ∷ update_bridge id f rest

unfoldable pub find_bridge : ℕ → List Bridge → Option Bridge
find_bridge id [] = none
find_bridge id (b ∷ rest) = if b.id == id then some b else find_bridge id rest
