-- ===== src/Names/Tests.antt =====
-- Host and route names on the inputs of the tests of relay.rs.
use opentunnel.Prelude.{[], ◌∷◌, ◌≡◌, refl, ◌↔◌, some, none, true, codes, Bytes}
use opentunnel.Names.Targets.{parse_target}
use opentunnel.Names.Ports.{IsTarget, parse_target_iff}
use opentunnel.Names.{has, root_route, is_valid_route, route_for_sni, tunnel_id, route_name}
use opentunnel.Names.Hosts.{IsId, IsHostOf, hostname_of, tunnel_id_iff, route_for_sni-route_name}

abbrev domain : Bytes
domain = codes "opentunnel.xyz"

abbrev tunnel : Bytes
tunnel = codes "abcdefghijkl"

abbrev api_host : Bytes
api_host = codes "api.abcdefghijkl.opentunnel.xyz"

names_routes :
    (tunnel_id api_host domain ≡ some tunnel)
    × (route_name (hostname_of tunnel domain) tunnel domain ≡ some root_route)
    × (route_name api_host tunnel domain ≡ some (codes "api"))
    × (route_name (codes "a.b.abcdefghijkl.opentunnel.xyz") tunnel domain ≡ none)
    × (route_name (codes "xabcdefghijkl.opentunnel.xyz") tunnel domain ≡ none)
unfolding tunnel_id route_name
names_routes = (refl, refl, refl, refl, refl)

labels : (is_valid_route (codes "a-b") ≡ true) × (is_valid_route root_route ≡ true)
unfolding is_valid_route
labels = (refl, refl)

tunnel-IsId : IsId tunnel
unfolding has
tunnel-IsId = record { no_dot = refl; filled = λ e. cc }

tunnel_id_iff_example :
    (tunnel_id api_host domain ≡ some tunnel) ↔ (IsId tunnel × IsHostOf api_host tunnel domain)
tunnel_id_iff_example = tunnel_id_iff api_host domain tunnel

route_for_sni-route_name_example :
    (tunnel_id api_host domain ≡ some tunnel)
    × (route_name api_host tunnel domain ≡ some (codes "api"))
unfolding route_for_sni
route_for_sni-route_name_example =
    route_for_sni-route_name api_host tunnel domain (codes "api") tunnel-IsId refl refl refl

parses_targets :
    (parse_target (b'a' ∷ b':' ∷ b'8' ∷ b'0' ∷ []) ≡ some (b'a' ∷ [], 80))
    × (parse_target (b'[' ∷ b':' ∷ b':' ∷ b'1' ∷ b']' ∷ b':' ∷ b'8' ∷ [])
        ≡ some (b':' ∷ b':' ∷ b'1' ∷ [], 8))
    × (parse_target (b'a' ∷ b':' ∷ b'0' ∷ []) ≡ none)
    × (parse_target (b'a' ∷ b':' ∷ b'6' ∷ b'5' ∷ b'5' ∷ b'3' ∷ b'6' ∷ []) ≡ none)
unfolding parse_target
parses_targets = (refl, refl, refl, refl)

parse_target_iff_example :
    (parse_target (codes "localhost:3000") ≡ some (codes "localhost", 3000))
    ↔ IsTarget (codes "localhost:3000") (codes "localhost") 3000
parse_target_iff_example = parse_target_iff (codes "localhost:3000") (codes "localhost") 3000
