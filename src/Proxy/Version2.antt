-- ===== src/Proxy/Version2.antt =====
-- `v2` of protocol/proxy.rs against `parse_v2` of proxy_protocol.rs.
use opentunnel.Prelude.{
  le→leb, ℕ, zero, suc, ◌+◌, ◌/◌, ◌%◌, ◌^◌, ◌≤◌, ◌<◌, ◌≡◌, refl, ap, ◌∙◌, subst, inl, inr, true,
  false, not, Option, none, some, [], ◌∷◌, ◌++◌, append_assoc, ltb, leb, ◌==◌, min, arith,
  if◌then◌else◌, Bytes, length, take, drop, length-append, take-append_length, Bool-cases,
}
use opentunnel.Proxy.Write.{
  SocketAddr, v4, v6, v2_signature, be16, public_port, unspecified6, v2_command, v2_family,
  v2_addresses, authority, v2_body, v2,
}
use opentunnel.Proxy.Parse.{
  incomplete, invalid, complete, slice, at, from_be16, source_of, completed, parse_v2,
}

-- The part of a header after its signature and its four bytes of head.
abbrev pub headed : ℕ → ℕ → ℕ → ℕ → Bytes → Bytes
headed command family high low tail = v2_signature ++ command ∷ family ∷ high ∷ low ∷ tail

take_nil : (n : ℕ) → take {A = ℕ} n [] ≡ []
take_nil zero = refl
take_nil (suc n) = refl

slice-take : (i n : ℕ) (xs : Bytes) → slice i (i + n) xs ≡ take n (drop i xs)
slice-take zero n xs = ap (λ k. take k xs) (omega arith)
slice-take (suc i) n [] = rw (take_nil (suc i + n), take_nil n) refl
slice-take (suc i) n (x ∷ xs) =
    let step : suc (i + n) ≡ suc i + n = omega arith in
    subst (λ k. slice (suc i) k (x ∷ xs) ≡ take n (drop i xs)) step (slice-take i n xs)

slice-headed :
    (command family high low n : ℕ) (tail : Bytes)
    → slice 16 (16 + n) (headed command family high low tail) ≡ take n tail
slice-headed command family high low n tail = slice-take 16 n (headed command family high low tail)

pub parse_v2-headed :
    (command family high low : ℕ) (tail : Bytes)
    → parse_v2 (headed command family high low tail) ≡ (
        if not (command / 16 == 2)
        then invalid
        else if ltb (length tail) (from_be16 high low)
        then incomplete
        else completed
            (16 + from_be16 high low)
            (source_of (command % 16) (family / 16) (take (from_be16 high low) tail)))
unfolding parse_v2
parse_v2-headed command family high low tail =
    rw (prefix, enough, same, slice-headed command family high low (from_be16 high low) tail) refl
  where
    data_ : Bytes
    data_ = headed command family high low tail

    prefix : min (length data_) 12 ≡ 12
    prefix = omega arith

    enough : ltb (length data_) 16 ≡ false
    enough = ground arith

    same : ltb (length data_) (16 + from_be16 high low) ≡ ltb (length tail) (from_be16 high low)
    same = elim (Bool-cases (ltb (length tail) (from_be16 high low))) [
      | inl e ↦ rw e (ground arith)
      | inr e ↦ rw e (ground arith)
    ]

at-append : (n k : ℕ) (xs ys : Bytes) → length xs ≡ n → at (n + k) (xs ++ ys) ≡ at k ys
at-append n k [] ys h = ap (λ i. at i ys) (omega (arith, h))
at-append n k (x ∷ xs) ys h =
    let step : suc (length xs + k) ≡ n + k = omega (arith, h) in
    subst (λ i. at i (x ∷ xs ++ ys) ≡ at k ys) step (at-append (length xs) k xs ys refl)

be16-value : (n : ℕ) → n < 2 ^ 16 → from_be16 (n / 256 % 256) (n % 256) ≡ n
be16-value n h = omega arith

-- An address as the program has it: a port in 16 bits, and sixteen bytes for version 6.
unfoldable pub IsAddress : Option SocketAddr → Type 0
IsAddress none = Unit
IsAddress (some (v4 a b c d port)) = port < 2 ^ 16
IsAddress (some (v6 octets port)) = (length octets ≡ 16) × (port < 2 ^ 16)

authority_short : (sni : Bytes) → length (authority sni) ≤ 258
unfolding authority
authority_short [] = omega arith
authority_short (c ∷ sni) = elim (Bool-cases (leb (length sni + 1) 255)) [
  | inl e ↦ rw e (ground arith)
  | inr e ↦ rw e (omega arith)
]

v2_addresses_short :
    (source : Option SocketAddr) → IsAddress source → length (v2_addresses source) ≤ 36
unfolding v2_addresses IsAddress
v2_addresses_short none v = omega arith
v2_addresses_short (some (v4 a b c d port)) v = omega arith
v2_addresses_short (some (v6 octets port)) v = omega (
  arith,
  length-append (octets ++ unspecified6 ++ be16 port) (be16 public_port),
  length-append (octets ++ unspecified6) (be16 port),
  length-append octets unspecified6,
  v.0,
)

v2_body_short :
    (source : Option SocketAddr) (sni : Bytes)
    → IsAddress source
    → length (v2_body source sni) < 2 ^ 16
unfolding v2_body
v2_body_short source sni v = omega (
  arith,
  length-append (v2_addresses source) (authority sni),
  authority_short sni,
  v2_addresses_short source v,
)

-- What follows the source in the addresses of version 6.
abbrev after_octets : ℕ → Bytes → Bytes
after_octets port sni = unspecified6 ++ be16 port ++ be16 public_port ++ authority sni

v2_body-v6 :
    (octets : Bytes) (port : ℕ) (sni : Bytes)
    → v2_body (some (v6 octets port)) sni ≡ octets ++ after_octets port sni
unfolding v2_body v2_addresses
v2_body-v6 octets port sni =
    ap (λ xs. xs ++ be16 public_port ++ authority sni)
      (append_assoc octets unspecified6 (be16 port))
    ∙ ap (λ xs. xs ++ authority sni)
        (append_assoc octets (unspecified6 ++ be16 port) (be16 public_port))
    ∙ append_assoc octets (unspecified6 ++ be16 port ++ be16 public_port) (authority sni)

source_of-v2 :
    (source : Option SocketAddr) (sni : Bytes)
    → IsAddress source
    → source_of (v2_command source % 16) (v2_family source / 16) (v2_body source sni) ≡ some source
unfolding source_of v2_command v2_family v2_body v2_addresses IsAddress
source_of-v2 none sni v = refl
source_of-v2 (some (v4 a b c d port)) sni v =
    let fits : leb 12 (length (v2_body (some (v4 a b c d port)) sni)) ≡ true =
      le→leb _ _ (omega arith) in
    rw (fits, be16-value port v) refl
source_of-v2 (some (v6 octets port)) sni v =
    let shape = v2_body-v6 octets port sni in
    let long : leb 36 (length (octets ++ after_octets port sni)) ≡ true =
      le→leb _ _ (omega (arith, length-append octets (after_octets port sni), v.0)) in
    let whole : take 16 (octets ++ after_octets port sni) ≡ octets =
      subst (λ n. take n (octets ++ after_octets port sni) ≡ octets) v.0
        (take-append_length octets _) in
    let high : at 32 (octets ++ after_octets port sni) ≡ port / 256 % 256 =
      at-append 16 16 octets _ v.0 in
    let low : at 33 (octets ++ after_octets port sni) ≡ port % 256 = at-append 16 17 octets _ v.0 in
    rw (shape, long, whole, high, low, be16-value port v.1) refl

v2_command-version : (source : Option SocketAddr) → (v2_command source / 16 == 2) ≡ true
unfolding v2_command
v2_command-version none = refl
v2_command-version (some source) = refl

-- What the client writes in front of a connection, the server's parser reads: a header of version 2
-- with whatever follows it is complete, of the written length, with the source that was written.
pub parse_v2-v2 :
    (source : Option SocketAddr) (sni rest : Bytes)
    → IsAddress source
    → parse_v2 (v2 source sni ++ rest) ≡ complete (length (v2 source sni)) source
unfolding v2 completed
parse_v2-v2 source sni rest v =
    parse_v2-headed (v2_command source) (v2_family source) (n / 256 % 256) (n % 256) (body ++ rest)
    ∙ rw
        (
          v2_command-version source,
          value,
          present,
          take-append_length body rest,
          source_of-v2 source sni v,
        )
        (ap (λ k. complete k (source)) total)
  where
    body : Bytes
    body = v2_body source sni

    n : ℕ
    n = length body % 2 ^ 16

    value : from_be16 (n / 256 % 256) (n % 256) ≡ length body
    value =
        let short = v2_body_short source sni v in be16-value n (omega arith) ∙ omega (arith, short)

    present : ltb (length (body ++ rest)) (length body) ≡ false
    present = let all = length-append body rest in ground arith

    total : 16 + length body ≡ length (v2 source sni)
    total = omega arith
