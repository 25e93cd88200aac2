-- ===== src/Proxy/Tests.antt =====
-- The tests of the parser, and the theorem applied to a header.
use opentunnel.Prelude.{
  ℕ, ◌≡◌, refl, Bool, true, Option, none, some, [], ◌∷◌, ◌++◌, arith, Bytes, codes, length, take,
}
use opentunnel.Proxy.Write.{SocketAddr, v4, v2, v2_signature}
use opentunnel.Proxy.Parse.{incomplete, invalid, complete, parse, parse_v2}
use opentunnel.Proxy.Pieces.{parse-append}
use opentunnel.Proxy.Version2.{parse_v2-v2, IsAddress}

abbrev data_ : Bytes
data_ =
    v2_signature
    ++ (33 ∷ 17 ∷ 0 ∷ 12 ∷ 203 ∷ 0 ∷ 113 ∷ 7 ∷ 10 ∷ 0 ∷ 0 ∷ 1 ∷ 17 ∷ 81 ∷ 1 ∷ 187 ∷ 22 ∷ 3 ∷ 1 ∷ [])

abbrev address : Bytes → Option (ℕ → SocketAddr)
address text = some (v4 192 0 2 1)

abbrev port : Bytes → Option ℕ
port text = some 51234

abbrev is_text : Bytes → Bool
is_text bytes = true

parses_v1 :
    (parse address port is_text
        (codes "PROXY TCP4 192.0.2.1 198.51.100.2 51234 443" ++ 13 ∷ 10 ∷ 22 ∷ 3 ∷ [])
      ≡ complete 45 (some (v4 192 0 2 1 51234)))
    × (parse address port is_text (codes "PROXY TCP4 192.0") ≡ incomplete)
    × (parse address port is_text (22 ∷ 3 ∷ 1 ∷ []) ≡ invalid)
unfolding parse
parses_v1 = (refl, refl, refl)

parses_v2 :
    (parse address port is_text data_ ≡ complete 28 (some (v4 203 0 113 7 4433)))
    × (parse address port is_text (take 20 data_) ≡ incomplete)
    × (parse address port is_text (v2_signature ++ (32 ∷ 0 ∷ 0 ∷ 0 ∷ [])) ≡ complete 16 none)
unfolding parse
parses_v2 = (refl, refl, refl)

visitor-IsAddress : IsAddress (some (v4 203 0 113 7 4433))
unfolding IsAddress
visitor-IsAddress = omega arith

parse_v2-v2_example :
    parse_v2 (v2 (some (v4 203 0 113 7 4433)) (codes "api.example") ++ (22 ∷ 3 ∷ []))
    ≡ complete
        (length (v2 (some (v4 203 0 113 7 4433)) (codes "api.example")))
        (some (v4 203 0 113 7 4433))
parse_v2-v2_example =
    parse_v2-v2 (some (v4 203 0 113 7 4433)) (codes "api.example") (22 ∷ 3 ∷ []) visitor-IsAddress

parse-append_example :
    parse address port is_text (data_ ++ (9 ∷ 9 ∷ [])) ≡ complete 28 (some (v4 203 0 113 7 4433))
unfolding parse
parse-append_example =
    parse-append address port is_text data_ (9 ∷ 9 ∷ []) 28 (some (v4 203 0 113 7 4433)) refl
