-- ===== src/Service/Claims.antt =====
-- The invariant of a tunnel's bridges and `attach`.
use opentunnel.Prelude.{
  ℕ, ◌+◌, ◌≡◌, ◌≢◌, refl, sym, ◌∙◌, inl, inr, Bool, true, false, not, ◌&&◌, List, [], ◌∷◌, arith,
  All, Bytes, beq, beq→eq, ◌==◌, ==_iff, if◌then◌else◌, ltb, length, Bool-cases, Option-cases,
}
use opentunnel.Record.{StoredTunnel, certificate_ready}
use opentunnel.Service.Bridge.{Bridge, claims, is_attached, any_route, touch}
use opentunnel.Service.Entry.{
  Machine, Entry, tunnel_record, retire_stale, update_bridge, max_tunnel_routes,
}
use opentunnel.Service.Attach.{
  Request, held_routes, claims_any, conflict, attach_bridge, claim_routes, invalid_routes,
  check_request, attach,
}
use opentunnel.Service.Route.{total_visitors}
use opentunnel.Service.Apart.{Separate, Separate-sym, AllPairs}
use opentunnel.Service.Invariant.{IsBridge, Inv, retire_stale-Inv}

-- Updating one bridge keeps all apart, if the updated one stays apart from the others.
module _ (id : ℕ) (f : Bridge → Bridge) (Ok : Bridge → Type 0)
    (kept : (b c : Bridge) → b.id ≡ id → c.id ≢ id → Ok c → Separate b c → Separate (f b) c) where
  upd : Bridge → Bridge
  upd b = if b.id == id then f b else b

  different : (b : Bridge) → (b.id == id) ≡ false → b.id ≢ id
  different b h = ground arith

  upd-Separate : (b c : Bridge) → Ok b → Ok c → Separate b c → Separate (upd b) (upd c)
  unfolding upd
  upd-Separate b c ob oc s = elim (Bool-cases (b.id == id)) [
    | inl e ↦ elim (Bool-cases (c.id == id)) [
      | inl e' ↦ absurd (s.ids ((==_iff b.id id).0 e ∙ sym ((==_iff c.id id).0 e')))
      | inr e' ↦ rw (e, e') (kept b c ((==_iff b.id id).0 e) (different c e') oc s)
    ]
    | inr e ↦ elim (Bool-cases (c.id == id)) [
      | inl e' ↦
          rw (e, e')
            (Separate-sym (kept c b ((==_iff c.id id).0 e') (different b e) ob (Separate-sym s)))
      | inr e' ↦ rw (e, e') s
    ]
  ]

  All-upd :
      (b : Bridge) (bs : List Bridge)
      → Ok b
      → All Ok bs
      → All (Separate b) bs
      → All (Separate (upd b)) (update_bridge id f bs)
  unfolding update_bridge upd
  All-upd b [] ob oks a = tt
  All-upd b (c ∷ bs) ob oks a = (upd-Separate b c ob oks.0 a.0, All-upd b bs ob oks.1 a.1)

  pub AllPairs-update :
      (bs : List Bridge)
      → All Ok bs
      → AllPairs Separate bs
      → AllPairs Separate (update_bridge id f bs)
  unfolding update_bridge upd
  AllPairs-update [] oks a = tt
  AllPairs-update (b ∷ bs) oks a = (All-upd b bs oks.0 oks.1 a.0, AllPairs-update bs oks.1 a.1)

claims_any-claims :
    (c : Bridge) (r : Bytes) (routes : List Bytes)
    → claims_any c routes ≡ false
    → any_route r routes ≡ true
    → claims c r ≡ true
    → ⊥
unfolding claims_any any_route
claims_any-claims c r [] h m t = cc
claims_any-claims c r (claimed ∷ rest) h m t = elim (Bool-cases (beq claimed r)) [
  | inl e ↦ ground (arith, beq→eq claimed r e)
  | inr e ↦ claims_any-claims c r rest (ground arith) (rw e at m) t
]

-- What the conflict check leaves of the other bridges.
abbrev Yields : ℕ → List Bytes → Bridge → Type 0
Yields id routes c = c.id ≢ id → claims_any c routes ≡ false

conflict-Yields :
    (id : ℕ) (routes : List Bytes) (bs : List Bridge)
    → conflict id routes bs ≡ false
    → All (Yields id routes) bs
unfolding conflict
conflict-Yields id routes [] h = tt
conflict-Yields id routes (b ∷ bs) h =
    ((λ d. ground arith), conflict-Yields id routes bs (ground arith))

attach_bridge-claims :
    (now : ℕ) (q : Request) (b : Bridge) (r : Bytes)
    → claims (attach_bridge now q b) r ≡ true
    → any_route r q.routes ≡ true
unfolding attach_bridge touch claims is_attached
attach_bridge-claims now q b r h = ground arith

attach_bridge-Separate :
    (now : ℕ) (q : Request) (b c : Bridge)
    → b.id ≡ q.bridge
    → c.id ≢ q.bridge
    → Yields q.bridge q.routes c
    → Separate b c
    → Separate (attach_bridge now q b) c
unfolding attach_bridge touch
attach_bridge-Separate now q b c same other yields s = record {
  ids = s.ids;
  routes =
      λ r x y. claims_any-claims c r q.routes (yields other) (attach_bridge-claims now q b r x) y;
  conns = s.conns;
}

each_attached :
    (m : Machine) (next now : ℕ) (q : Request) (bs : List Bridge)
    → All (IsBridge m next) bs
    → All (IsBridge m next) (update_bridge q.bridge (attach_bridge now q) bs)
unfolding update_bridge attach_bridge touch
each_attached m next now q [] each = tt
each_attached m next now q (b ∷ bs) each = (
  elim (Bool-cases (b.id == q.bridge)) [
    | inl e ↦
        rw e (record { number = each.0.number; nonzero = each.0.nonzero; within = each.0.within })
    | inr e ↦ rw e each.0
  ],
  each_attached m next now q bs each.1,
)

total_attached :
    (now : ℕ) (q : Request) (bs : List Bridge)
    → total_visitors (update_bridge q.bridge (attach_bridge now q) bs) ≡ total_visitors bs
unfolding update_bridge attach_bridge touch total_visitors
total_attached now q [] = refl
total_attached now q (b ∷ bs) = ground (arith, total_attached now q bs)

attached-Inv :
    (m : Machine) (next now : ℕ) (q : Request) (s t : Entry)
    → conflict q.bridge q.routes s.bridges ≡ false
    → t.bridges ≡ update_bridge q.bridge (attach_bridge now q) s.bridges
    → t.sequence ≡ s.sequence
    → Inv m next s
    → Inv m next t
attached-Inv m next now q s t free bs seq v = record {
  apart = rw bs (
      AllPairs-update q.bridge (attach_bridge now q) (Yields q.bridge q.routes)
        (attach_bridge-Separate now q) s.bridges (conflict-Yields q.bridge q.routes s.bridges free)
        v.apart);
  each = rw bs (each_attached m next now q s.bridges v.each);
  total = rw (bs, total_attached now q s.bridges) v.total;
  sequence = rw seq v.sequence;
}

claim_routes-Inv :
    (m : Machine) (elsewhere : Bool) (next now : ℕ) (q : Request) (s : Entry)
    → Inv m next s
    → Inv m next (claim_routes m elsewhere now q s).0
unfolding claim_routes
claim_routes-Inv m elsewhere next now q s v =
    elim (Bool-cases (ltb max_tunnel_routes (held_routes q.bridge s.bridges + length q.routes))) [
      | inl e ↦ rw e v
      | inr e ↦ elim (Bool-cases (conflict q.bridge q.routes s.bridges)) [
        | inl e' ↦ rw (e, e') v
        | inr e' ↦ elim (Bool-cases (m.clustered && elsewhere)) [
          | inl e'' ↦ rw (e, e', e'') v
          | inr e'' ↦ rw (e, e', e'') (attached-Inv m next now q s _ e' refl refl v)
        ]
      ]
    ]

check_request-Inv :
    (matches : Bytes → Bytes → Bool) (m : Machine) (elsewhere : Bool) (next now : ℕ) (q : Request)
    (t : StoredTunnel) (s : Entry)
    → Inv m next s
    → Inv m next (check_request matches m elsewhere now q t s).0
unfolding check_request
check_request-Inv matches m elsewhere next now q t s v =
    elim (Bool-cases (not (matches q.token t.token_hash))) [
      | inl e ↦ rw e v
      | inr e ↦ elim (Bool-cases (not (certificate_ready t))) [
        | inl e' ↦ rw (e, e') v
        | inr e' ↦ elim (Bool-cases (invalid_routes q.routes)) [
          | inl e'' ↦ rw (e, e', e'') v
          | inr e'' ↦
              rw (e, e', e'')
                (claim_routes-Inv m elsewhere next now q (retire_stale m now s)
                  (retire_stale-Inv m next now s v))
        ]
      ]
    ]

pub attach-Inv :
    (matches : Bytes → Bytes → Bool) (m : Machine) (elsewhere : Bool) (next now : ℕ) (q : Request)
    (s : Entry)
    → Inv m next s
    → Inv m next (attach matches m elsewhere now q s).0
unfolding attach
attach-Inv matches m elsewhere next now q s v = elim (Option-cases (tunnel_record s)) [
  | inl e ↦ rw (e, attach) v
  | inr (t, e) ↦ rw (e, attach) (check_request-Inv matches m elsewhere next now q t s v)
]
