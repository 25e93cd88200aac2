-- ===== src/Service/Carried.antt =====
-- What each part of `route` decides on the way to a connection.
use opentunnel.Names.{has, root_route, dot}
use opentunnel.Prelude.{
  ◌++◌, ◌⊎◌, ◌∙◌, sym, ap, ap₂, max, beq, beq→eq, strip_suffix_sound, length, ◌<◌, ℕ, ◌+◌, ◌^◌, ◌≡◌,
  ◌≢◌, refl, subst, inl, inr, true, false, ◌||◌, Option, none, some, [], ◌∷◌, arith, Bytes, leb,
  Bool-cases, Option-cases,
}
use opentunnel.Record.{StoredTunnel, certificate_ready}
use opentunnel.Service.Bridge.{Bridge, new_finish, add_visitor, conn_limit}
use opentunnel.Service.Entry.{Machine, Entry, update_bridge}
use opentunnel.Service.Route.{
  Rejection, no_bridge, certificate_not_ready, unknown_route, too_many_connections, bridge,
  find_claiming, claiming, total_visitors, total_channels, in_use, number_conn, admit, admit_bridge,
  carry, serve, rejection, wanted_route,
}
use opentunnel.Service.Numbers.{number_conn_sound}

-- The route that a server name asks for: the root, or a single label before the hostname.
abbrev pub AsksFor : Bytes → Bytes → Bytes → Type 0
AsksFor sni hostname r = ((sni ≡ hostname) × (r ≡ root_route)) ⊎ (sni ≡ r ++ (dot ++ hostname))

-- The parts of a served connection that `carry` decides.
pub record IsCarried (m : Machine) (b : Bridge) (s u : Entry) (id conn cell : ℕ) : Type 0 where
  pub same : b.id ≡ id
  pub room : b.visitors < conn_limit m.conns_per_bridge b
  pub tunnel_room : total_visitors s.bridges < m.conns_per_tunnel
  pub nonzero : conn ≢ 0
  pub unused : in_use conn s.bridges ≡ false
  pub small : conn < 2 ^ 32
  pub new_cell : cell ≡ length s.cells
  pub placed : u.bridges ≡ update_bridge b.id (admit_bridge conn cell) s.bridges
  pub cells : u.cells ≡ s.cells ++ new_finish ∷ []

pub carry-IsCarried :
    (m : Machine) (b : Bridge) (s u : Entry) (id conn cell : ℕ)
    → s.sequence < 2 ^ 32
    → carry m b s ≡ (u, bridge id conn cell)
    → IsCarried m b s u id conn cell
unfolding carry
carry-IsCarried m b s u id conn cell small h =
    elim (Bool-cases (
      leb (conn_limit m.conns_per_bridge b) b.visitors
      || leb m.conns_per_tunnel (total_visitors s.bridges))) [
        | inl full ↦ absurd (cc (ap (λ p. p.1) (rw full at h)))
        | inr free ↦
            numbered (number_conn (total_channels s.bridges + 2) s.sequence s.bridges) refl
              (rw free at h) free
      ]
  where
    numbered :
        (o : Option (ℕ × ℕ))
        → number_conn (total_channels s.bridges + 2) s.sequence s.bridges ≡ o
        → admit b.id o s ≡ (u, bridge id conn cell)
        → (leb (conn_limit m.conns_per_bridge b) b.visitors
            || leb m.conns_per_tunnel (total_visitors s.bridges))
          ≡ false
        → IsCarried m b s u id conn cell
    numbered none e h' free = unfold admit in absurd (cc (ap (λ p. p.1) h'))
    numbered (some (n, sequence)) e h' free =
        let fits =
          number_conn_sound (total_channels s.bridges + 2) s.sequence s.bridges n sequence small
            e in
        let answer : bridge b.id n (length s.cells) ≡ bridge id conn cell =
          unfold admit in ap (λ p. p.1) h' in
        let same : n ≡ conn = cc answer in
        let place : length s.cells ≡ cell = cc answer in
        record {
          same = cc answer;
          room = ground arith;
          tunnel_room = ground arith;
          nonzero = subst (λ k. k ≢ 0) same fits.0;
          unused = subst (λ k. in_use k s.bridges ≡ false) same fits.1;
          small = subst (λ k. k < 2 ^ 32) same fits.2;
          new_cell = sym place;
          placed =
              unfold admit in
              sym (ap (λ p. p.0.bridges) h')
              ∙ ap₂ (λ k c. update_bridge b.id (admit_bridge k c) s.bridges) same place;
          cells = unfold admit in sym (ap (λ p. p.0.cells) h');
        }

-- A served connection has no reason to be rejected, and is carried by the claiming bridge.
pub serve-IsCarried :
    (m : Machine) (reason : Rejection) (wanted : Option Bytes) (s u : Entry) (id conn cell : ℕ)
    → s.sequence < 2 ^ 32
    → serve m reason (claiming wanted s.bridges) s ≡ (u, bridge id conn cell)
    → (reason ≡ no_bridge)
      × ((r : Bytes) × (b : Bridge) × (wanted ≡ some r)
          × (find_claiming r s.bridges ≡ some b)
          × IsCarried m b s u id conn cell)
unfolding serve claiming find_claiming
serve-IsCarried m no_bridge none s u id conn cell small h = absurd (cc (ap (λ p. p.1) h))
serve-IsCarried m no_bridge (some r) s u id conn cell small h =
    elim (Option-cases (find_claiming r s.bridges)) [
      | inl e ↦ absurd (cc (ap (λ p. p.1) (rw (e, serve) at h)))
      | inr (b, e) ↦
          (refl, (r, b, refl, e, carry-IsCarried m b s u id conn cell small (rw (e, serve) at h)))
    ]
serve-IsCarried m certificate_not_ready wanted s u id conn cell small h =
    absurd (cc (ap (λ p. p.1) h))
serve-IsCarried m unknown_route wanted s u id conn cell small h = absurd (cc (ap (λ p. p.1) h))
serve-IsCarried m too_many_connections wanted s u id conn cell small h =
    absurd (cc (ap (λ p. p.1) h))

pub rejection-ready :
    (t : StoredTunnel) (r : Bytes)
    → rejection t (some r) ≡ no_bridge
    → (certificate_ready t ≡ true) × (has b'.' r ≡ false)
unfolding rejection
rejection-ready t r h = (ground arith, ground arith)

pub wanted_route-AsksFor :
    (sni hostname r : Bytes) → wanted_route sni hostname ≡ some r → AsksFor sni hostname r
unfolding wanted_route
wanted_route-AsksFor sni hostname r h = elim (Bool-cases (beq sni hostname)) [
  | inl e ↦ inl (beq→eq sni hostname e, sym (cc (rw e at h)))
  | inr e ↦ inr (strip_suffix_sound sni (dot ++ hostname) r (rw e at h))
]

pub conn_limit-room :
    (limit : ℕ) (b : Bridge)
    → b.visitors < conn_limit limit b
    → (b.visitors < limit) × ((n : ℕ) → b.max_conns ≡ some n → b.visitors < max n 1)
unfolding conn_limit
conn_limit-room limit b h = (ground arith, λ n e. ground arith)

pub admit_bridge-placed :
    (conn cell : ℕ) (b : Bridge)
    → b.visitors + 1 < 2 ^ 64
    → admit_bridge conn cell b ≡ record b {
      channels = (conn, record { cell = cell; bytes_out = 0 }) ∷ b.channels;
      visitors = b.visitors + 1;
    }
unfolding admit_bridge add_visitor
admit_bridge-placed conn cell b h =
    ap
      (λ n. record b {
        channels = (conn, record { cell = cell; bytes_out = 0 }) ∷ b.channels;
        visitors = n;
      })
      (omega arith)
