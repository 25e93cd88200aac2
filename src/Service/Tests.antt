-- ===== src/Service/Tests.antt =====
-- One tunnel, one client and one visitor, at concrete inputs.
use opentunnel.Service.Entry.{
  Machine, Entry, register_bridge, retire_stale, update_bridge, new_bridge,
}
use opentunnel.Prelude.{
  List, ◌≢◌, get_elem?, ℕ, ◌+◌, ◌^◌, ◌<◌, ◌≤◌, ◌≡◌, refl, Bool, true, false, none, some, [], ◌∷◌,
  Bytes, codes, arith, All,
}
use opentunnel.Service.Views.{Numbered}
use opentunnel.Names.{root_route, is_valid_route, has}
use opentunnel.Record.{is_deleted, certificate_ready, StoredTunnel, online, ready}
use opentunnel.Service.Bridge.{
  claims, any_route, conn_limit, has_channel, Bridge, closed, reset, deleted, new_finish, finish,
  finish_channels,
}
use opentunnel.Service.Attach.{Attach, Request, attach}
use opentunnel.Service.Route.{bridge, searching, route, total_channels}
use opentunnel.Service.Invariant.{Inv}
use opentunnel.Service.Run.{
  empty_entry, with_record, here, next, registers, attaches, routes, refreshes, Reach-Inv,
}
use opentunnel.Service.Served.{IsServed, route-IsServed, route_answers}
use opentunnel.Service.Finished.{
  ClosedAt, IsFresh, finish_once, finish_channels-ClosedAt, retire_stale-IsFresh,
}

abbrev machine : Machine
machine = record { clustered = true; conns_per_bridge = 256; conns_per_tunnel = 1024 }

abbrev tunnel : Bytes
tunnel = codes "abcdefghijkl"

abbrev host : Bytes
host = codes "abcdefghijkl.opentunnel.xyz"

abbrev stored : StoredTunnel
stored = record {
  version = 1;
  id = tunnel;
  hostname = host;
  state = online;
  certificate_id = some (codes "cert_1");
  token_hash = codes "00ff";
  created_at = codes "2026-10-01T00:00:00.000Z";
  deleted_at = none;
  certificate = some (record {
    id = codes "cert_1";
    state = ready (codes "C") (codes "CH") (codes "2026-12-30T00:00:00.000Z");
  });
  certificate_csr = some (codes "CSR");
  certificate_identifiers = none;
  certificate_started_at = none;
  last_connected_at = none;
  renewal = none;
}

abbrev accept : Bytes → Bytes → Bool
accept token hash = true

abbrev request : Request
request = record {
  bridge = 0;
  token = codes "rly_1";
  routes = root_route ∷ codes "api" ∷ [];
  max_conns = some 2;
  session = codes "sess_1";
}

abbrev seen : Entry
seen = with_record true (some stored) 1 (empty_entry tunnel)

abbrev registered : Entry
registered = (register_bridge 0 1000 false seen).0

abbrev attached : Entry
attached = (attach accept machine false 2000 request registered).0

abbrev carried : Entry
carried = (route machine 3000 host attached).0

-- The root route goes to the bridge, under the number 1 and with the first `Finish` cell.
carries : (route machine 3000 host attached).1 ≡ bridge 0 1 0
unfolding route attach register_bridge claims is_deleted certificate_ready is_valid_route has
    update_bridge any_route conn_limit has_channel
carries = refl

attached-Numbered : Numbered attached.bridges
unfolding attach register_bridge claims is_deleted certificate_ready is_valid_route update_bridge
attached-Numbered = (tt, tt)

Reach-Inv_example : Inv machine 1 carried
Reach-Inv_example = Reach-Inv machine (omega arith) tunnel (
    next
      (next (next (next here (refreshes true (some stored) 1)) (registers 1000 false))
        (attaches accept false 2000 request))
      (routes 3000 host))

small : attached.sequence < 2 ^ 32
unfolding attach register_bridge claims is_deleted certificate_ready is_valid_route
small = omega arith

route-IsServed_example :
    (t : StoredTunnel) × (r : Bytes) × (b : Bridge) × (b.id ≡ 0)
    × ((before : List Bridge) × (after : List Bridge) × IsServed machine 3000 host attached
          (route machine 3000 host attached).0
          1
          0
          t
          r
          before
          b
          after)
route-IsServed_example =
    route-IsServed machine 3000 host attached 0 1 0 attached-Numbered (omega arith) small carries

-- Beyond the machine's bridges nothing is searched for long.
few : total_channels attached.bridges + 2 ≤ 2 ^ 32
unfolding attach register_bridge claims is_deleted certificate_ready is_valid_route total_channels
    update_bridge
few = omega arith

route_answers_example : (route machine 3000 host attached).1 ≢ searching
route_answers_example = route_answers machine 3000 host attached small few

finish_once_example :
    finish 0 deleted true (finish 0 closed false (new_finish ∷ []))
    ≡ finish 0 closed false (new_finish ∷ [])
finish_once_example = finish_once 0 closed deleted false true (new_finish ∷ [])

abbrev busy : Bridge
busy = record (unfold new_bridge in new_bridge 7 0) {
  channels = (5, record { cell = 0; bytes_out = 10 }) ∷ [];
  visitors = 1;
}

finish_channels-ClosedAt_example :
    ((finish_channels reset busy (new_finish ∷ [])).0.channels ≡ [])
    × All
        (λ c.
          ClosedAt reset
            (new_finish ∷ [])
            (finish_channels reset busy (new_finish ∷ [])).1
            c.1.cell)
        busy.channels
    × ((h : ℕ)
        → All (λ c. c.1.cell ≢ h) busy.channels
        → get_elem? (finish_channels reset busy (new_finish ∷ [])).1 h
          ≡ get_elem? (new_finish ∷ []) h)
finish_channels-ClosedAt_example = finish_channels-ClosedAt reset busy (new_finish ∷ [])

retire_stale-IsFresh_example :
    All (IsFresh 90000) (retire_stale machine 90000 attached).bridges
    × (All (IsFresh 90000) attached.bridges
        → (retire_stale machine 90000 attached).bridges ≡ attached.bridges)
retire_stale-IsFresh_example = retire_stale-IsFresh machine 90000 attached
