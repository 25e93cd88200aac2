-- ===== src/Service/Granted.antt =====
-- What `attach` grants, described without its tests, and lemmas on each test.
use opentunnel.Record.{is_deleted, StoredTunnel, certificate_ready}
use opentunnel.Service.Views.{Holds, Numbered, routes_held, Holds-claims}
use opentunnel.Service.Bridge.{Bridge, is_attached, touch}
use opentunnel.Service.Entry.{Machine, Entry, attached_at, announce, retire_stale, update_bridge}
use opentunnel.Service.Attach.{
  Request, Attach, attached, held_routes, invalid_routes, conflict, claims_any, any_invalid,
  attach_bridge,
}
use opentunnel.Prelude.{
  ◌≤◌, some, ◌⊎◌, refl, ap, subst, ◌==◌, ==_iff, ℕ, ◌+◌, ◌≡◌, ◌≢◌, inl, inr, Bool, true, false, not,
  ◌&&◌, List, [], ◌∷◌, arith, All, Bytes, length, Bool-cases,
}
use opentunnel.Names.{is_valid_route}

-- Two lists of bridges, one by one.
abbrev pub Each : (Bridge → Bridge → Type 0) → List Bridge → List Bridge → Type 0
Each R [] [] = Unit
Each R (b ∷ bs) (c ∷ cs) = R b c × Each R bs cs
Each R _ _ = ⊥

-- The bridge of the request has the request's routes from now on, and any other is as it was.
abbrev pub Attaches : ℕ → Request → Bridge → Bridge → Type 0
Attaches now q b c =
    ((b.id ≢ q.bridge) × (c ≡ b))
    ⊎ ((b.id ≡ q.bridge)
        × (c ≡ record b {
          attached = true;
          session = some q.session;
          routes = q.routes;
          max_conns = q.max_conns;
          attached_at = now;
          active_at = now;
          seen_at = now;
        }))

-- No other bridge holds one of these routes.
abbrev pub Free : Request → Bridge → Type 0
Free q b = b.id ≢ q.bridge → All (λ r. ¬ Holds r b) q.routes

-- What is so where an attach succeeds, and the bridges after it; `bs` are the bridges left when the silent ones
-- were retired.
pub record IsGranted (matches : Bytes → Bytes → Bool) (m : Machine) (elsewhere : Bool) (now : ℕ)
    (q : Request) (s : Entry) (t : StoredTunnel) (bs : List Bridge) (u : Entry) (a : Attach)
    : Type 0 where
  pub stored : s.record_of ≡ some t
  pub live : is_deleted t ≡ false
  pub token : matches q.token t.token_hash ≡ true
  pub ready : certificate_ready t ≡ true
  pub some_route : q.routes ≢ []
  pub valid : All (λ r. is_valid_route r ≡ true) q.routes
  pub few : routes_held u.bridges ≤ 256
  pub here : All (Free q) bs
  pub there : m.clustered ≡ true → elsewhere ≡ false
  pub answer : a ≡ attached q.session q.routes
  pub bridges : Each (Attaches now q) bs u.bridges
  pub told :
      u.mesh
      ≡ announce m
          (attached_at (retire_stale m now s).id q.bridge q.routes now)
          (retire_stale m now s).mesh

pub any_invalid-All :
    (routes : List Bytes) → any_invalid routes ≡ false → All (λ r. is_valid_route r ≡ true) routes
unfolding any_invalid
any_invalid-All [] h = tt
any_invalid-All (r ∷ rest) h = (ground arith, any_invalid-All rest (ground arith))

pub valid_routes :
    (routes : List Bytes)
    → invalid_routes routes ≡ false
    → (routes ≢ []) × All (λ r. is_valid_route r ≡ true) routes
unfolding invalid_routes
valid_routes [] h = absurd (cc h)
valid_routes (r ∷ rest) h = ((λ e. cc), any_invalid-All (r ∷ rest) h)

pub claims_any-Holds :
    (b : Bridge) (rs : List Bytes) → claims_any b rs ≡ false → All (λ r. ¬ Holds r b) rs
unfolding claims_any
claims_any-Holds b [] h = tt
claims_any-Holds b (r ∷ rs) h =
    (Holds-claims r b (ground arith), claims_any-Holds b rs (ground arith))

pub conflict-Free :
    (q : Request) (bs : List Bridge) → conflict q.bridge q.routes bs ≡ false → All (Free q) bs
unfolding conflict
conflict-Free q [] h = tt
conflict-Free q (b ∷ bs) h =
    ((λ n. claims_any-Holds b q.routes (ground arith)), conflict-Free q bs (ground arith))

pub attach_bridge-Attaches :
    (now : ℕ) (q : Request) (bs : List Bridge)
    → Each (Attaches now q) bs (update_bridge q.bridge (attach_bridge now q) bs)
unfolding update_bridge attach_bridge touch
attach_bridge-Attaches now q [] = tt
attach_bridge-Attaches now q (b ∷ bs) = elim (Bool-cases (b.id == q.bridge)) [
  | inl e ↦
      rw (e, update_bridge)
        (inr ((==_iff b.id q.bridge).0 e, refl), attach_bridge-Attaches now q bs)
  | inr e ↦ rw (e, update_bridge) (inl ((λ s. ground arith), refl), attach_bridge-Attaches now q bs)
]

-- What the other bridges hold, where none has the number.
pub routes_held_others :
    (id : ℕ) (bs : List Bridge) → All (λ b. id ≢ b.id) bs → routes_held bs ≡ held_routes id bs
unfolding held_routes is_attached
routes_held_others id [] n = refl
routes_held_others id (b ∷ bs) (n, ns) =
    let other : (b.id == id) ≡ false = ground arith in
    let rest = routes_held_others id bs ns in
    elim (Bool-cases (b.attached && not b.detached)) [
      | inl e ↦ rw (other, e, rest) refl
      | inr e ↦ rw (other, e, rest) refl
    ]

pub update_bridge_others :
    (id : ℕ) (f : Bridge → Bridge) (bs : List Bridge)
    → All (λ b. id ≢ b.id) bs
    → update_bridge id f bs ≡ bs
unfolding update_bridge
update_bridge_others id f [] n = refl
update_bridge_others id f (b ∷ bs) (n, ns) =
    let other : (b.id == id) ≡ false = ground arith in
    rw (other, update_bridge) (ap (λ xs. b ∷ xs) (update_bridge_others id f bs ns))

-- The bridge adds its routes to those of the others, at most.
pub routes_held-update_bridge :
    (now : ℕ) (q : Request) (bs : List Bridge)
    → Numbered bs
    → routes_held (update_bridge q.bridge (attach_bridge now q) bs)
      ≤ held_routes q.bridge bs + length q.routes
unfolding update_bridge held_routes attach_bridge touch is_attached
routes_held-update_bridge now q [] h = omega arith
routes_held-update_bridge now q (b ∷ bs) (n, ns) = elim (Bool-cases (b.id == q.bridge)) [
  | inl e ↦
      let same : b.id ≡ q.bridge = (==_iff b.id q.bridge).0 e in
      let others : All (λ c. q.bridge ≢ c.id) bs = subst (λ id. All (λ c. id ≢ c.id) bs) same n in
      let alone = update_bridge_others q.bridge (attach_bridge now q) bs others in
      let held = routes_held_others q.bridge bs others in
      elim (Bool-cases b.detached) [
        | inl d ↦ rw (e, d, alone, held) (omega arith)
        | inr d ↦ rw (e, d, alone, held) (omega arith)
      ]
  | inr e ↦
      let rest = routes_held-update_bridge now q bs ns in
      elim (Bool-cases (b.attached && not b.detached)) [
        | inl a ↦ rw (e, a) (omega (arith, rest))
        | inr a ↦ rw (e, a) (omega (arith, rest))
      ]
]
