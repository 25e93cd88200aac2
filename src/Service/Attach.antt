-- ===== src/Service/Attach.antt =====
-- `Service::attach`: the first control message of a bridge.
--
-- `matches` is `token_matches` (a hash comparison), `elsewhere` the answer of the other machines
-- (`Cluster::held_elsewhere`), `session` the session name made for the bridge.
use opentunnel.Prelude.{
  ℕ, ◌+◌, Bool, true, false, not, ◌&&◌, ◌||◌, Option, none, some, List, [], ◌∷◌, ltb, ◌==◌,
  if◌then◌else◌, Bytes, length,
}
use opentunnel.Names.{is_valid_route}
use opentunnel.Record.{StoredTunnel, certificate_ready}
use opentunnel.Service.Bridge.{Bridge, is_attached, claims, touch}
use opentunnel.Service.Entry.{
  Machine, Entry, tunnel_record, attached_at, announce, retire_stale, update_bridge,
  max_tunnel_routes,
}

-- The error codes that an attach is answered with.
pub data AttachError : Type 0 where
  bad_token cert_not_ready invalid_route too_many_routes route_conflict : AttachError

pub data Attach : Type 0 where
  attached : Bytes → List Bytes → Attach
  error : AttachError → Attach

pub record Request : Type 0 where
  pub bridge : ℕ
  pub token : Bytes
  pub routes : List Bytes
  pub max_conns : Option ℕ
  pub session : Bytes

unfoldable pub any_invalid : List Bytes → Bool
any_invalid [] = false
any_invalid (route ∷ rest) = not (is_valid_route route) || any_invalid rest

-- `routes.is_empty() || routes.iter().any(…)`.
unfoldable pub invalid_routes : List Bytes → Bool
unfolding any_invalid
invalid_routes [] = true
invalid_routes (route ∷ rest) = any_invalid (route ∷ rest)

-- The routes that the tunnel's other attached bridges hold.
unfoldable pub held_routes : ℕ → List Bridge → ℕ
held_routes id [] = 0
held_routes id (b ∷ rest) =
    (if is_attached b && not (b.id == id) then length b.routes else 0) + held_routes id rest

unfoldable pub claims_any : Bridge → List Bytes → Bool
claims_any b [] = false
claims_any b (route ∷ rest) = claims b route || claims_any b rest

unfoldable pub conflict : ℕ → List Bytes → List Bridge → Bool
unfolding claims_any
conflict id routes [] = false
conflict id routes (b ∷ rest) = not (b.id == id) && claims_any b routes || conflict id routes rest

unfoldable pub attach_bridge : ℕ → Request → Bridge → Bridge
unfolding touch
attach_bridge now q b = touch now (record b {
  attached = true;
  session = some q.session;
  routes = q.routes;
  max_conns = q.max_conns;
  attached_at = now;
  active_at = now;
})

-- The checks after the stale bridges were retired.
unfoldable pub claim_routes : Machine → Bool → ℕ → Request → Entry → Entry × Attach
unfolding held_routes conflict attach_bridge announce
claim_routes m elsewhere now q s =
    if ltb max_tunnel_routes (held_routes q.bridge s.bridges + length q.routes)
    then (s, error too_many_routes)
    else if conflict q.bridge q.routes s.bridges
    then (s, error route_conflict)
    else if m.clustered && elsewhere
    then (s, error route_conflict)
    else (
      record s {
        bridges = update_bridge q.bridge (attach_bridge now q) s.bridges;
        mesh = announce m (attached_at s.id q.bridge q.routes now) s.mesh;
      },
      attached q.session q.routes,
    )

-- The checks of the request against the live record.
unfoldable pub check_request :
    (Bytes → Bytes → Bool) → Machine → Bool → ℕ → Request → StoredTunnel → Entry → Entry × Attach
unfolding claim_routes invalid_routes retire_stale
check_request matches m elsewhere now q t s =
    if not (matches q.token t.token_hash)
    then (s, error bad_token)
    else if not (certificate_ready t)
    then (s, error cert_not_ready)
    else if invalid_routes q.routes
    then (s, error invalid_route)
    else claim_routes m elsewhere now q (retire_stale m now s)

unfoldable pub attach :
    (Bytes → Bytes → Bool) → Machine → Bool → ℕ → Request → Entry → Entry × Attach
unfolding check_request tunnel_record
attach matches m elsewhere now q s = elim (tunnel_record s) [
  | none ↦ (s, error bad_token)
  | some t ↦ check_request matches m elsewhere now q t s
]
