-- ===== src/Names/Hosts.antt =====
-- Which tunnel and which route a server name means: `tunnel_id`, `route_name` and `route_for_sni`.
use opentunnel.Prelude.{
  ◌≡◌, ◌≢◌, ◌↔◌, refl, ap, sym, ◌∙◌, ◌⊎◌, inl, inr, true, false, Option, none, some, [], ◌∷◌, ◌++◌,
  append_assoc, arith, Bytes, Bool-cases, if◌then◌else◌, beq, beq_refl, beq→eq, if_some, length,
  length-append, strip_suffix, strip_suffix-append, strip_suffix_sound, ◌>>=◌, >>=-eq-some,
}
use opentunnel.Names.{
  has, root_route, dot, is_label, to_ascii_lowercase, route_for_sni, split, last_label, not_empty,
  tunnel_id, route_name,
}
use opentunnel.Names.Labels.{has-is_label}
use opentunnel.Names.Split.{last_label_none, last_label_one, last_label_sound}

-- The hostname of a tunnel, `<id>.<domain>`.
abbrev pub hostname_of : Bytes → Bytes → Bytes
hostname_of id domain = id ++ dot ++ domain

-- A tunnel ID as the server makes and accepts it.
pub record IsId (id : Bytes) : Type 0 where
  pub no_dot : has b'.' id ≡ false
  pub filled : id ≢ []

not_empty_lem : (s : Bytes) → s ≢ [] → not_empty s ≡ some s
unfolding not_empty
not_empty_lem [] h = absurd (h refl)
not_empty_lem (x ∷ s) h = refl

not_empty_sound : (s t : Bytes) → not_empty s ≡ some t → (s ≡ t) × (t ≢ [])
unfolding not_empty
not_empty_sound [] t h = cc
not_empty_sound (x ∷ s) t h = (cc, λ e. cc)

-- The two suffixes that `tunnel_id` and `route_name` take off.
strip_domain :
    (labels domain : Bytes)
    → (do prefix ← strip_suffix (labels ++ dot ++ domain) domain; strip_suffix prefix dot)
      ≡ some labels
strip_domain labels domain =
    rw (strip_suffix-append (labels ++ dot) domain) (strip_suffix-append labels dot)

tunnel_id_of_labels :
    (labels domain id : Bytes)
    → last_label (split b'.' labels) ≡ some id
    → id ≢ []
    → tunnel_id (labels ++ dot ++ domain) domain ≡ some id
unfolding tunnel_id
tunnel_id_of_labels labels domain id h n =
    rw (strip_suffix-append (labels ++ dot) domain, strip_suffix-append labels dot, h)
      (not_empty_lem id n)

tunnel_id_host : (id domain : Bytes) → IsId id → tunnel_id (hostname_of id domain) domain ≡ some id
tunnel_id_host id domain v =
    tunnel_id_of_labels id domain id (last_label_none b'.' id v.no_dot) v.filled

-- `<route>.<id>.<domain>`, bracketed by its labels.
route_host :
    (r id domain : Bytes) → r ++ dot ++ hostname_of id domain ≡ r ++ b'.' ∷ id ++ dot ++ domain
route_host r id domain =
    sym (append_assoc (r ++ dot) (id ++ dot) domain)
    ∙ ap (λ t. t ++ domain)
        (sym (append_assoc (r ++ dot) id dot) ∙ ap (λ t. t ++ dot) (append_assoc r dot id))

tunnel_id_route :
    (r id domain : Bytes)
    → IsId id
    → has b'.' r ≡ false
    → tunnel_id (r ++ dot ++ hostname_of id domain) domain ≡ some id
tunnel_id_route r id domain v h =
    rw (route_host r id domain) (
      tunnel_id_of_labels (r ++ b'.' ∷ id) domain id (last_label_one b'.' r id h v.no_dot) v.filled)

abbrev pub IsHostOf : Bytes → Bytes → Bytes → Type 0
IsHostOf host id domain =
    (host ≡ hostname_of id domain)
    ⊎ ((r : Bytes) × (has b'.' r ≡ false) × (host ≡ r ++ dot ++ hostname_of id domain))

tunnel_id_sound :
    (host domain id : Bytes) → tunnel_id host domain ≡ some id → IsId id × IsHostOf host id domain
unfolding tunnel_id
tunnel_id_sound host domain id h =
    let (p, hp, h1) = >>=-eq-some (strip_suffix host domain) _ h in
    let (l, hl, h2) = >>=-eq-some (strip_suffix p dot) _ h1 in
    let (i, hi, h3) = >>=-eq-some (last_label (split b'.' l)) _ h2 in
    let at : host ≡ l ++ dot ++ domain =
      strip_suffix_sound host domain p hp ∙ ap (λ t. t ++ domain) (strip_suffix_sound p dot l hl) in
    let (same, filled) = not_empty_sound i id h3 in
    let (no_dot, shape) = last_label_sound b'.' l id (rw hi (ap some same)) in
    (
      record { no_dot = no_dot; filled = filled },
      elim shape [
        | inl e ↦ inl (at ∙ ap (λ t. t ++ dot ++ domain) e)
        | inr (r, hr, e) ↦
            inr (r, hr, at ∙ ap (λ t. t ++ dot ++ domain) e ∙ sym (route_host r id domain))
      ],
    )

-- A tunnel ID is found in exactly the hostnames `<id>.<domain>` and `<route>.<id>.<domain>` whose
-- route has no dot, and an ID that is found is not empty and has no dot.
pub tunnel_id_iff :
    (host domain id : Bytes)
    → (tunnel_id host domain ≡ some id) ↔ (IsId id × IsHostOf host id domain)
tunnel_id_iff host domain id = (tunnel_id_sound host domain id, back)
  where
    back : IsId id × IsHostOf host id domain → tunnel_id host domain ≡ some id
    back (v, inl e) = rw e (tunnel_id_host id domain v)
    back (v, inr (r, hr, e)) = rw e (tunnel_id_route r id domain v hr)

longer : (r id : Bytes) → beq (r ++ b'.' ∷ id) id ≡ false
longer r id = elim (Bool-cases (beq (r ++ b'.' ∷ id) id)) [
  | inl e ↦
      absurd (omega (arith, ap length (beq→eq (r ++ b'.' ∷ id) id e), length-append r (b'.' ∷ id)))
  | inr e ↦ e
]

route_name_root :
    (id domain : Bytes) → route_name (hostname_of id domain) id domain ≡ some root_route
unfolding route_name
route_name_root id domain =
    rw (strip_suffix-append (id ++ dot) domain, strip_suffix-append id dot, beq_refl id)

route_name_route :
    (r id domain : Bytes)
    → r ≢ []
    → has b'.' r ≡ false
    → route_name (r ++ dot ++ hostname_of id domain) id domain ≡ some r
unfolding route_name
route_name_route r id domain n h =
    rw
      (
        route_host r id domain,
        strip_suffix-append (r ++ b'.' ∷ id ++ dot) domain,
        strip_suffix-append (r ++ b'.' ∷ id) dot,
        longer r id,
        ← append_assoc r dot id,
        strip_suffix-append (r ++ dot) id,
        strip_suffix-append r dot,
        not_empty_lem r n,
        h,
      )
      refl

label_filled : (r : Bytes) → is_label r ≡ true → r ≢ []
unfolding is_label
label_filled [] h = cc
label_filled (x ∷ r) h = λ e. cc

-- The client and the server agree: where the client finds a route for a lower-case server name of
-- its hostname `<id>.<domain>`, the server finds the tunnel `<id>` in it, and the same route.
pub route_for_sni-route_name :
    (sni id domain r : Bytes)
    → IsId id
    → to_ascii_lowercase sni ≡ sni
    → to_ascii_lowercase (hostname_of id domain) ≡ hostname_of id domain
    → route_for_sni sni (hostname_of id domain) ≡ some r
    → (tunnel_id sni domain ≡ some id) × (route_name sni id domain ≡ some r)
unfolding route_for_sni
route_for_sni-route_name sni id domain r v low low' h = agree (rw (low, low') at h)
  where
    host : Bytes
    host = hostname_of id domain

    found : Option Bytes
    found = do
      prefix ← strip_suffix sni host
      label ← strip_suffix prefix dot
      if is_label label then some label else none

    agree :
        (if beq sni host then some root_route else found) ≡ some r
        → (tunnel_id sni domain ≡ some id) × (route_name sni id domain ≡ some r)
    agree h' = elim (Bool-cases (beq sni host)) [
      | inl e ↦
          let root : some root_route ≡ some r = rw e at h' in
          rw (beq→eq sni host e) (tunnel_id_host id domain v, route_name_root id domain ∙ root)
      | inr e ↦
          let (p, hp, h1) = >>=-eq-some (strip_suffix sni host) _ (rw e at h') in
          let (l, hl, h2) = >>=-eq-some (strip_suffix p dot) _ h1 in
          let (lab, same) = if_some (is_label l) l r h2 in
          let at : sni ≡ l ++ dot ++ host =
            strip_suffix_sound sni host p hp
            ∙ ap (λ t. t ++ host) (strip_suffix_sound p dot l hl) in
          rw (at, ← same)
            (
              tunnel_id_route l id domain v (has-is_label l lab),
              route_name_route l id domain (label_filled l lab) (has-is_label l lab),
            )
    ]
