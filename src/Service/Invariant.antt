-- ===== src/Service/Invariant.antt =====
-- The invariant of a tunnel's bridges, and operations which only shrink bridges.
use opentunnel.Prelude.{
  ℕ, ◌^◌, ◌≤◌, ◌<◌, ◌≡◌, refl, sym, ◌∙◌, inl, inr, false, List, [], ◌∷◌, ◌++◌, append_assoc,
  append-nil, map, arith, All, Bool-cases,
}
use opentunnel.Service.Bridge.{Bridge, claims, is_attached, has_channel, close}
use opentunnel.Service.Entry.{Machine, Entry, retire_stale, retire_loop, retire_bridge, is_stale}
use opentunnel.Service.Route.{total_visitors}
use opentunnel.Service.Apart.{
  Separate, AllPairs, AllPairs-Shrunk, Smaller, Smaller-refl, Shrunk, total_visitors-Shrunk,
  All-inherit, Shrunk-map,
}

-- One bridge of the tunnel: `next` is the machine's next bridge number.
pub record IsBridge (m : Machine) (next : ℕ) (b : Bridge) : Type 0 where
  pub number : b.id < next
  pub nonzero : has_channel 0 b.channels ≡ false
  pub within : b.visitors ≤ m.conns_per_bridge

-- The bridges have different numbers and share no route and no connection number, no connection is
-- numbered 0, and the visitors carried stay within the limits of the bridge and of the tunnel.
pub record Inv (m : Machine) (next : ℕ) (s : Entry) : Type 0 where
  pub apart : AllPairs Separate s.bridges
  pub each : All (IsBridge m next) s.bridges
  pub total : total_visitors s.bridges ≤ m.conns_per_tunnel
  pub sequence : s.sequence < 2 ^ 32

pub IsBridge-Smaller :
    (m : Machine) (next : ℕ) (c b : Bridge) → Smaller c b → IsBridge m next b → IsBridge m next c
IsBridge-Smaller m next c b x v = record {
  number = rw x.id v.number;
  nonzero = elim (Bool-cases (has_channel 0 c.channels)) [
    | inl e ↦ cc (x.conns 0 e, v.nonzero)
    | inr e ↦ e
  ];
  within = omega (arith, x.visitors, v.within);
}

pub Inv-Shrunk :
    (m : Machine) (next : ℕ) (s t : Entry)
    → Shrunk t.bridges s.bridges
    → t.sequence ≡ s.sequence
    → Inv m next s
    → Inv m next t
Inv-Shrunk m next s t sh same v = record {
  apart = AllPairs-Shrunk sh v.apart;
  each = All-inherit (IsBridge m next) (IsBridge-Smaller m next) sh v.each;
  total = omega (arith, total_visitors-Shrunk sh, v.total);
  sequence = rw same v.sequence;
}

retire_bridge-Smaller : (now : ℕ) (b : Bridge) → Smaller (retire_bridge now b) b
unfolding retire_bridge close claims is_attached has_channel
retire_bridge-Smaller now b = elim (Bool-cases (is_stale now b)) [
  | inl e ↦ rw e (record {
    id = refl;
    routes = λ r h. ground arith;
    conns = λ n h. cc;
    visitors = omega arith;
  })
  | inr e ↦ rw e (Smaller-refl b)
]

retire_loop-bridges :
    (m : Machine) (now : ℕ) (bs : List Bridge) (s : Entry)
    → (retire_loop m now bs s).bridges ≡ s.bridges ++ map (retire_bridge now) bs
unfolding retire_loop
retire_loop-bridges m now [] s = sym (append-nil s.bridges)
retire_loop-bridges m now (b ∷ bs) s =
    retire_loop-bridges m now bs _
    ∙ append_assoc s.bridges (retire_bridge now b ∷ []) (map (retire_bridge now) bs)

pub retire_loop-rest :
    (m : Machine) (now : ℕ) (bs : List Bridge) (s : Entry)
    → ((retire_loop m now bs s).sequence ≡ s.sequence)
      × ((retire_loop m now bs s).record_of ≡ s.record_of)
      × ((retire_loop m now bs s).id ≡ s.id)
unfolding retire_loop
retire_loop-rest m now [] s = (refl, refl, refl)
retire_loop-rest m now (b ∷ bs) s = retire_loop-rest m now bs _

-- Retiring looks at each bridge for itself.
pub retire_stale-bridges :
    (m : Machine) (now : ℕ) (s : Entry)
    → (retire_stale m now s).bridges ≡ map (retire_bridge now) s.bridges
unfolding retire_stale
retire_stale-bridges m now s = retire_loop-bridges m now s.bridges (record s { bridges = [] })

pub retire_stale-Inv :
    (m : Machine) (next now : ℕ) (s : Entry) → Inv m next s → Inv m next (retire_stale m now s)
unfolding retire_stale
retire_stale-Inv m next now s v =
    Inv-Shrunk m next s (retire_stale m now s)
      (rw (retire_stale-bridges m now s)
        (Shrunk-map (retire_bridge now) (retire_bridge-Smaller now) s.bridges))
      (retire_loop-rest m now s.bridges (record s { bridges = [] })).0 v
