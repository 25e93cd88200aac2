-- ===== src/Service/Attached.antt =====
-- What `attach` leaves where it succeeds.
use opentunnel.Service.Entry.{
  Machine, Entry, attached_at, announce, update_bridge, max_tunnel_routes,
}
use opentunnel.Service.Attach.{Request, Attach, attached, held_routes, conflict, attach_bridge}
use opentunnel.Prelude.{◌≤◌, ℕ, ◌+◌, ◌≡◌, Bool, false, ◌&&◌, length}

record IsClaimed (m : Machine) (elsewhere : Bool) (now : ℕ) (q : Request) (s u : Entry) (a : Attach)
    : Type 0 where
  few : held_routes q.bridge s.bridges + length q.routes ≤ max_tunnel_routes
  here : conflict q.bridge q.routes s.bridges ≡ false
  there : (m.clustered && elsewhere) ≡ false
  answer : a ≡ attached q.session q.routes
  bridges : u.bridges ≡ update_bridge q.bridge (attach_bridge now q) s.bridges
  told : u.mesh ≡ announce m (attached_at s.id q.bridge q.routes now) s.mesh
