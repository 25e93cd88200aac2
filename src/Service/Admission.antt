-- ===== src/Service/Admission.antt =====
-- The invariant of a tunnel's bridges and putting a connection on one: `admit`.
use opentunnel.Prelude.{
  subst, ◌⊎◌, ℕ, ◌+◌, ◌^◌, ◌≤◌, ◌<◌, ◌≡◌, ◌≢◌, refl, sym, ap, ◌∙◌, inl, inr, true, false, some,
  List, [], ◌∷◌, arith, All, Bytes, ◌==◌, ==_iff, length, Bool-cases,
}
use opentunnel.Service.Bridge.{Bridge, claims, is_attached, has_channel, add_visitor}
use opentunnel.Service.Entry.{Machine, Entry, update_bridge}
use opentunnel.Service.Route.{find_claiming, total_visitors, in_use, admit_bridge, admit}
use opentunnel.Service.Apart.{Separate, AllPairs}
use opentunnel.Service.Claims.{AllPairs-update}
use opentunnel.Service.Invariant.{IsBridge, Inv}

some_same : (c b : Bridge) → some c ≡ some b → c ≡ b
some_same c b h = cc

-- The bridge that is found is one of the tunnel's.
find_claiming-All :
    (P : Bridge → Type 0) (r : Bytes) (bs : List Bridge) (b : Bridge)
    → All P bs
    → find_claiming r bs ≡ some b
    → P b
unfolding find_claiming
find_claiming-All P r [] b a h = absurd (cc h)
find_claiming-All P r (c ∷ bs) b a h = elim (Bool-cases (claims c r)) [
  | inl e ↦ subst P (some_same c b (rw e at h)) a.0
  | inr e ↦ find_claiming-All P r bs b a.1 (rw e at h)
]

-- Its number is its own.
abbrev pub IsOnly : Bridge → Bridge → Type 0
IsOnly b c = c.id ≡ b.id → c ≡ b

others : (b : Bridge) (bs : List Bridge) → All (Separate b) bs → All (IsOnly b) bs
others b [] a = tt
others b (c ∷ bs) a = ((λ e. absurd (a.0.ids (sym e))), others b bs a.1)

pub find_claiming-IsOnly :
    (r : Bytes) (bs : List Bridge) (b : Bridge)
    → AllPairs Separate bs
    → find_claiming r bs ≡ some b
    → All (IsOnly b) bs
unfolding find_claiming
find_claiming-IsOnly r [] b p h = tt
find_claiming-IsOnly r (c ∷ bs) b p h = elim (Bool-cases (claims c r)) [
  | inl e ↦
      let same = some_same c b (rw e at h) in
      ((λ _. same), subst (λ x. All (IsOnly x) bs) same (others c bs p.0))
  | inr e ↦
      let found : find_claiming r bs ≡ some b = rw e at h in
      (
        (λ e'. absurd ((find_claiming-All (Separate c) r bs b p.0 found).ids e')),
        find_claiming-IsOnly r bs b p.1 found,
      )
]

-- Bridges that do not use the connection's number.
abbrev pub Unused : ℕ → Bridge → Type 0
Unused conn c = has_channel conn c.channels ≡ false

pub in_use-Unused : (conn : ℕ) (bs : List Bridge) → in_use conn bs ≡ false → All (Unused conn) bs
unfolding in_use
in_use-Unused conn [] h = tt
in_use-Unused conn (b ∷ bs) h = (ground arith, in_use-Unused conn bs (ground arith))

admit_bridge-has :
    (conn cell n : ℕ) (b : Bridge)
    → has_channel n (admit_bridge conn cell b).channels ≡ true
    → (conn ≡ n) ⊎ (has_channel n b.channels ≡ true)
unfolding admit_bridge add_visitor has_channel
admit_bridge-has conn cell n b h = ground arith

admit_bridge-Separate :
    (conn cell id : ℕ) (b c : Bridge)
    → b.id ≡ id
    → c.id ≢ id
    → Unused conn c
    → Separate b c
    → Separate (admit_bridge conn cell b) c
admit_bridge-Separate conn cell id b c same other unused s = record {
  ids = unfold admit_bridge add_visitor in s.ids;
  routes = unfold admit_bridge add_visitor claims is_attached in s.routes;
  conns = λ n x y. elim (admit_bridge-has conn cell n b x) [
    | inl e ↦ cc (e, unused, y)
    | inr e ↦ s.conns n e y
  ];
}

-- What the guards and the loop of `route` establish of the chosen bridge and number.
pub record IsFit (m : Machine) (conn : ℕ) (b : Bridge) (s : Entry) : Type 0 where
  pub only : All (IsOnly b) s.bridges
  pub room : b.visitors < m.conns_per_bridge
  pub tunnel_room : total_visitors s.bridges < m.conns_per_tunnel
  pub nonzero : conn ≢ 0
  pub unused : All (Unused conn) s.bridges

admit_bridge-IsBridge :
    (m : Machine) (next conn cell : ℕ) (b : Bridge)
    → conn ≢ 0
    → b.visitors < m.conns_per_bridge
    → IsBridge m next b
    → IsBridge m next (admit_bridge conn cell b)
unfolding admit_bridge add_visitor has_channel
admit_bridge-IsBridge m next conn cell b nz room v = record {
  number = v.number;
  nonzero = ground (arith, v.nonzero);
  within = omega arith;
}

each_admitted :
    (m : Machine) (next conn cell : ℕ) (b : Bridge) (bs : List Bridge)
    → conn ≢ 0
    → b.visitors < m.conns_per_bridge
    → All (IsOnly b) bs
    → All (IsBridge m next) bs
    → All (IsBridge m next) (update_bridge b.id (admit_bridge conn cell) bs)
unfolding update_bridge
each_admitted m next conn cell b [] nz room only each = tt
each_admitted m next conn cell b (c ∷ bs) nz room only each = (
  elim (Bool-cases (c.id == b.id)) [
    | inl e ↦
        let same = only.0 ((==_iff c.id b.id).0 e) in
        rw e (
          admit_bridge-IsBridge m next conn cell c nz
            (subst (λ x. x.visitors < m.conns_per_bridge) (sym same) room) each.0)
    | inr e ↦ rw e each.0
  ],
  each_admitted m next conn cell b bs nz room only.1 each.1,
)

other_bridges :
    (id : ℕ) (f : Bridge → Bridge) (bs : List Bridge)
    → All (λ c. c.id ≢ id) bs
    → update_bridge id f bs ≡ bs
unfolding update_bridge
other_bridges id f [] d = refl
other_bridges id f (c ∷ bs) d = elim (Bool-cases (c.id == id)) [
  | inl e ↦ absurd (d.0 ((==_iff c.id id).0 e))
  | inr e ↦ rw e (ap (λ t. c ∷ t) (other_bridges id f bs d.1))
]

apart_ids :
    (id : ℕ) (b : Bridge) (bs : List Bridge)
    → b.id ≡ id
    → All (Separate b) bs
    → All (λ c. c.id ≢ id) bs
apart_ids id b [] e a = tt
apart_ids id b (c ∷ bs) e a = ((λ e'. a.0.ids (e ∙ sym e')), apart_ids id b bs e a.1)

total_admitted :
    (conn cell id : ℕ) (bs : List Bridge)
    → AllPairs Separate bs
    → total_visitors (update_bridge id (admit_bridge conn cell) bs) ≤ total_visitors bs + 1
unfolding update_bridge total_visitors admit_bridge add_visitor
total_admitted conn cell id [] p = omega arith
total_admitted conn cell id (b ∷ bs) p = elim (Bool-cases (b.id == id)) [
  | inl e ↦
      rw
        (
          e,
          other_bridges id (admit_bridge conn cell) bs
              (apart_ids id b bs ((==_iff b.id id).0 e) p.0),
        )
        (omega arith)
  | inr e ↦ rw e (omega (arith, total_admitted conn cell id bs p.1))
]

pub admit-Inv :
    (m : Machine) (next conn sequence : ℕ) (b : Bridge) (s : Entry)
    → IsFit m conn b s
    → sequence < 2 ^ 32
    → Inv m next s
    → Inv m next (admit b.id (some (conn, sequence)) s).0
unfolding admit
admit-Inv m next conn sequence b s fit seq v = record {
  apart =
      AllPairs-update b.id (admit_bridge conn (length s.cells)) (Unused conn)
        (admit_bridge-Separate conn (length s.cells) b.id) s.bridges fit.unused v.apart;
  each =
      each_admitted m next conn (length s.cells) b s.bridges fit.nonzero fit.room fit.only v.each;
  total =
      omega (arith, fit.tunnel_room, total_admitted conn (length s.cells) b.id s.bridges v.apart);
  sequence = seq;
}
