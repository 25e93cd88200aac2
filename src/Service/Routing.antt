-- ===== src/Service/Routing.antt =====
-- The invariant of a tunnel's bridges and `route`.
use opentunnel.Prelude.{
  ℕ, ◌+◌, ◌≤◌, ◌≡◌, refl, inl, inr, false, ◌||◌, Option, none, some, arith, Bytes, leb, Bool-cases,
  Option-cases,
}
use opentunnel.Service.Bridge.{Bridge, conn_limit}
use opentunnel.Service.Entry.{Machine, Entry, tunnel_record, retire_stale}
use opentunnel.Service.Route.{
  Rejection, no_bridge, certificate_not_ready, unknown_route, too_many_connections, find_claiming,
  claiming, total_visitors, total_channels, number_conn, admit, carry, serve, rejection,
  wanted_route, route,
}
use opentunnel.Service.Numbers.{number_conn_sound}
use opentunnel.Service.Invariant.{Inv, retire_stale-Inv}
use opentunnel.Service.Admission.{admit-Inv, find_claiming-IsOnly, in_use-Unused}

conn_limit_le : (limit : ℕ) (b : Bridge) → conn_limit limit b ≤ limit
unfolding conn_limit
conn_limit_le limit b = ground arith

pub carry-Inv :
    (m : Machine) (next : ℕ) (r : Bytes) (b : Bridge) (s : Entry)
    → find_claiming r s.bridges ≡ some b
    → Inv m next s
    → Inv m next (carry m b s).0
unfolding carry
carry-Inv m next r b s found v =
    elim (Bool-cases (
      leb (conn_limit m.conns_per_bridge b) b.visitors
      || leb m.conns_per_tunnel (total_visitors s.bridges))) [
        | inl full ↦ rw full v
        | inr free ↦
            rw free
              (numbered (number_conn (total_channels s.bridges + 2) s.sequence s.bridges) refl free)
      ]
  where
    numbered :
        (o : Option (ℕ × ℕ))
        → number_conn (total_channels s.bridges + 2) s.sequence s.bridges ≡ o
        → (leb (conn_limit m.conns_per_bridge b) b.visitors
            || leb m.conns_per_tunnel (total_visitors s.bridges))
          ≡ false
        → Inv m next (admit b.id o s).0
    numbered none e free = unfold admit in v
    numbered (some (conn, sequence)) e free =
        let (nonzero, unused, _, small) =
          number_conn_sound (total_channels s.bridges + 2) s.sequence s.bridges conn sequence
            v.sequence e in
        admit-Inv m next conn sequence b s
          (record {
            only = find_claiming-IsOnly r s.bridges b v.apart found;
            room = ground (arith, conn_limit_le m.conns_per_bridge b);
            tunnel_room = ground arith;
            nonzero = nonzero;
            unused = in_use-Unused conn s.bridges unused;
          })
          small v

pub serve-Inv :
    (m : Machine) (next : ℕ) (reason : Rejection) (wanted : Option Bytes) (s : Entry)
    → Inv m next s
    → Inv m next (serve m reason (claiming wanted s.bridges) s).0
unfolding claiming find_claiming
serve-Inv m next reason none s v = unfold serve claiming in kept reason
  where
    kept : (reason : Rejection) → Inv m next (serve m reason none s).0
    kept no_bridge = unfold serve in v
    kept _ = unfold serve in v
serve-Inv m next reason (some r) s v = by_claim reason (find_claiming r s.bridges) refl
  where
    by_claim :
        (reason : Rejection) (o : Option Bridge)
        → find_claiming r s.bridges ≡ o
        → Inv m next (serve m reason o s).0
    by_claim no_bridge none e = unfold serve in v
    by_claim no_bridge (some b) e = unfold serve in carry-Inv m next r b s e v
    by_claim certificate_not_ready o e = unfold serve in v
    by_claim unknown_route o e = unfold serve in v
    by_claim too_many_connections o e = unfold serve in v

pub route-Inv :
    (m : Machine) (next now : ℕ) (sni : Bytes) (s : Entry)
    → Inv m next s
    → Inv m next (route m now sni s).0
unfolding route
route-Inv m next now sni s v = elim (Option-cases (tunnel_record s)) [
  | inl e ↦ rw (e, route) v
  | inr (t, e) ↦
      rw (e, route)
        (serve-Inv m next (rejection t (wanted_route sni t.hostname)) (wanted_route sni t.hostname)
          (retire_stale m now s) (retire_stale-Inv m next now s v))
]
