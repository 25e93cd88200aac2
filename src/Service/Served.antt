-- ===== src/Service/Served.antt =====
-- What `route` answers: the bridge it picks and the number of the connection.
use opentunnel.Names.{has}
use opentunnel.Service.Views.{
  Holds, Numbered, Lacks, find_claiming-first, in_use-Lacks, Numbered-split, update_bridge_one,
  Numbered-map, tunnel_record_live,
}
use opentunnel.Prelude.{
  ◌++◌, ◌∙◌, ap, max, All, length, ◌<◌, ℕ, ◌+◌, ◌^◌, ◌≤◌, ◌≡◌, ◌≢◌, subst, inl, inr, true, false,
  Option, none, some, List, [], ◌∷◌, arith, Bytes, map, Option-cases,
}
use opentunnel.Record.{StoredTunnel, certificate_ready, is_deleted}
use opentunnel.Service.Bridge.{Bridge, new_finish, close}
use opentunnel.Service.Entry.{
  Machine, Entry, tunnel_record, retire_stale, retire_bridge, update_bridge,
}
use opentunnel.Service.Route.{
  Rejection, no_bridge, certificate_not_ready, unknown_route, too_many_connections, bridge,
  searching, find_claiming, claiming, total_visitors, total_channels, admit, admit_bridge, carry,
  serve, rejection, wanted_route, route,
}
use opentunnel.Service.Numbers.{number_conn_total}
use opentunnel.Service.Invariant.{retire_stale-bridges, retire_loop-rest}
use opentunnel.Service.Carried.{
  AsksFor, IsCarried, serve-IsCarried, rejection-ready, wanted_route-AsksFor, conn_limit-room,
  admit_bridge-placed,
}

-- A connection that is carried, and what is there after it: with `before` and `after` around the bridge that
-- carries it, of those left when the silent ones were retired.
pub record IsServed (m : Machine) (now : ℕ) (sni : Bytes) (s u : Entry) (conn cell : ℕ)
    (t : StoredTunnel) (r : Bytes) (before : List Bridge) (b : Bridge) (after : List Bridge)
    : Type 0 where
  pub stored : s.record_of ≡ some t
  pub live : is_deleted t ≡ false
  pub ready : certificate_ready t ≡ true
  pub asked : AsksFor sni t.hostname r
  pub label : has b'.' r ≡ false
  pub bridges : (retire_stale m now s).bridges ≡ before ++ b ∷ after
  pub passed : All (λ c. ¬ Holds r c) before
  pub holds : Holds r b
  pub room : b.visitors < m.conns_per_bridge
  pub own_room : (n : ℕ) → b.max_conns ≡ some n → b.visitors < max n 1
  pub tunnel_room : total_visitors (before ++ b ∷ after) < m.conns_per_tunnel
  pub nonzero : conn ≢ 0
  pub small : conn < 2 ^ 32
  pub unused : All (Lacks conn) (before ++ b ∷ after)
  pub placed :
      u.bridges
      ≡ before
        ++ record b {
          channels = (conn, record { cell = cell; bytes_out = 0 }) ∷ b.channels;
          visitors = b.visitors + 1;
        }
          ∷ after
  pub new_cell : cell ≡ length (retire_stale m now s).cells
  pub cells : u.cells ≡ (retire_stale m now s).cells ++ new_finish ∷ []

module _ (m : Machine) (now : ℕ) (sni : Bytes) (s u : Entry) (id conn cell : ℕ)
    (numbered : Numbered s.bridges) (limit : m.conns_per_bridge < 2 ^ 64) where
  -- What the parts say of the whole.
  served :
      (t : StoredTunnel) (r : Bytes) (b : Bridge)
      → tunnel_record s ≡ some t
      → wanted_route sni t.hostname ≡ some r
      → rejection t (some r) ≡ no_bridge
      → find_claiming r (retire_stale m now s).bridges ≡ some b
      → IsCarried m b (retire_stale m now s) u id conn cell
      → (before : List Bridge) × (after : List Bridge) × IsServed m now sni s u conn cell t r before
          b after
  served t r b e asked reason first c =
      let (before, after, whole, passed, holds) =
        find_claiming-first r (retire_stale m now s).bridges b first in
      let (stored, live) = tunnel_record_live s t e in
      let (ready, label) = rejection-ready t r reason in
      let (room, own_room) = conn_limit-room m.conns_per_bridge b c.room in
      let retired : Numbered (retire_stale m now s).bridges =
        rw (retire_stale-bridges m now s) (Numbered-map now s.bridges numbered) in
      let (lower, upper) = Numbered-split before b after (subst Numbered whole retired) in
      (
        before,
        after,
        record {
          stored = stored;
          live = live;
          ready = ready;
          asked = wanted_route-AsksFor sni t.hostname r asked;
          label = label;
          bridges = whole;
          passed = passed;
          holds = holds;
          room = room;
          own_room = own_room;
          tunnel_room = subst (λ bs. total_visitors bs < m.conns_per_tunnel) whole c.tunnel_room;
          nonzero = c.nonzero;
          small = c.small;
          unused =
              subst (λ bs. All (Lacks conn) bs) whole
                (in_use-Lacks conn (retire_stale m now s).bridges c.unused);
          placed =
              c.placed
              ∙ ap (λ bs. update_bridge b.id (admit_bridge conn cell) bs) whole
              ∙ update_bridge_one (admit_bridge conn cell) before b after lower upper
              ∙ ap (λ b'. before ++ b' ∷ after)
                  (admit_bridge-placed conn cell b (omega (arith, room, limit)));
          new_cell = c.new_cell;
          cells = c.cells;
        },
      )

  decided-IsServed :
      s.sequence < 2 ^ 32
      → route m now sni s ≡ (u, bridge id conn cell)
      → (t : StoredTunnel) × (r : Bytes) × (b : Bridge) × (b.id ≡ id)
        × ((before : List Bridge) × (after : List Bridge) × IsServed m now sni s u conn cell t r
              before b after)
  unfolding route
  decided-IsServed small h = elim (Option-cases (tunnel_record s)) [
    | inl e ↦ absurd (cc (ap (λ p. p.1) (rw (e, route) at h)))
    | inr (t, e) ↦
        let sequence = (retire_loop-rest m now s.bridges (record s { bridges = [] })).0 in
        let (reason, (r, b, asked, first, c)) =
          serve-IsCarried m (rejection t (wanted_route sni t.hostname))
            (wanted_route sni t.hostname) (retire_stale m now s) u id conn cell
            (unfold retire_stale in rw sequence small) (rw (e, route) at h) in
        (t, r, b, c.same, served t r b e asked (rw asked at reason) first c)
  ]

-- Whenever `route` carries a connection, where no two bridges have one number and the limit of a bridge is below
-- 2 ^ 64: the tunnel is live and its certificate ready; the server name is the hostname or has a single label
-- before it; the bridge, once the silent ones are retired, is the first one attached that has this route;
-- the bridge and the tunnel have room; the number is not 0, below 2 ^ 32 and on no bridge. Then the bridge has the
-- connection with a new cell and one visitor more, and no other bridge and no other cell changes.
pub route-IsServed :
    (m : Machine) (now : ℕ) (sni : Bytes) (s : Entry) (id conn cell : ℕ)
    → Numbered s.bridges
    → m.conns_per_bridge < 2 ^ 64
    → s.sequence < 2 ^ 32
    → (route m now sni s).1 ≡ bridge id conn cell
    → (t : StoredTunnel) × (r : Bytes) × (b : Bridge) × (b.id ≡ id)
      × ((before : List Bridge) × (after : List Bridge) × IsServed m now sni s
            (route m now sni s).0
            conn
            cell
            t
            r
            before
            b
            after)
route-IsServed m now sni s id conn cell numbered limit small h =
    decided-IsServed m now sni s (route m now sni s).0 id conn cell numbered limit small
      (ap (λ answer. ((route m now sni s).0, answer)) h)

retired_channels :
    (now : ℕ) (bs : List Bridge) → total_channels (map (retire_bridge now) bs) ≤ total_channels bs
unfolding total_channels retire_bridge close
retired_channels now [] = omega arith
retired_channels now (b ∷ bs) = ground (arith, retired_channels now bs)

carry_answers :
    (m : Machine) (b : Bridge) (s : Entry)
    → s.sequence < 2 ^ 32
    → total_channels s.bridges + 2 ≤ 2 ^ 32
    → (carry m b s).1 ≢ searching
unfolding carry admit
carry_answers m b s small open_ h =
    let (r, e) = number_conn_total s.sequence s.bridges small open_ in ground (arith, e)

serve_answers :
    (m : Machine) (reason : Rejection) (o : Option Bridge) (s : Entry)
    → s.sequence < 2 ^ 32
    → total_channels s.bridges + 2 ≤ 2 ^ 32
    → (serve m reason o s).1 ≢ searching
unfolding serve
serve_answers m no_bridge none s small open_ h = cc
serve_answers m no_bridge (some b) s small open_ h = carry_answers m b s small open_ h
serve_answers m certificate_not_ready o s small open_ h = cc
serve_answers m unknown_route o s small open_ h = cc
serve_answers m too_many_connections o s small open_ h = cc

-- With at most 2 ^ 32 - 2 connections open on the tunnel, the search for a number ends: `route`
-- carries or rejects every connection.
pub route_answers :
    (m : Machine) (now : ℕ) (sni : Bytes) (s : Entry)
    → s.sequence < 2 ^ 32
    → total_channels s.bridges + 2 ≤ 2 ^ 32
    → (route m now sni s).1 ≢ searching
unfolding route
route_answers m now sni s small open_ h = elim (Option-cases (tunnel_record s)) [
  | inl e ↦ absurd (cc (rw (e, route) at h))
  | inr (t, e) ↦
      let sequence = (retire_loop-rest m now s.bridges (record s { bridges = [] })).0 in
      serve_answers m (rejection t (wanted_route sni t.hostname))
        (claiming (wanted_route sni t.hostname) (retire_stale m now s).bridges)
        (retire_stale m now s) (unfold retire_stale in rw sequence small)
        (rw (retire_stale-bridges m now s) (omega (arith, retired_channels now s.bridges)))
        (rw (e, route) at h)
]
