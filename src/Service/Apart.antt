-- ===== src/Service/Apart.antt =====
-- Bridges of one tunnel that share nothing: no number, no route, no connection.
use opentunnel.Prelude.{
  ℕ, ◌≤◌, ◌≡◌, ◌≢◌, refl, true, List, [], ◌∷◌, arith, All, Bytes, ◌==◌, Bool-cases, ==_iff, inl,
  inr, map, sym, ◌∙◌,
}
use opentunnel.Service.Bridge.{Bridge, claims, has_channel}
use opentunnel.Service.Entry.{update_bridge}
use opentunnel.Service.Ends.{remove_bridge}
use opentunnel.Service.Route.{total_visitors}

pub record Separate (b c : Bridge) : Type 0 where
  pub ids : b.id ≢ c.id
  pub routes : (r : Bytes) → claims b r ≡ true → claims c r ≡ true → ⊥
  pub conns : (n : ℕ) → has_channel n b.channels ≡ true → has_channel n c.channels ≡ true → ⊥

pub Separate-sym : {b c : Bridge} → Separate b c → Separate c b
Separate-sym s = record {
  ids = λ e. s.ids (sym e);
  routes = λ r x y. s.routes r y x;
  conns = λ n x y. s.conns n y x;
}

abbrev pub AllPairs : (Bridge → Bridge → Type 0) → List Bridge → Type 0
AllPairs R [] = Unit
AllPairs R (b ∷ rest) = All (R b) rest × AllPairs R rest

-- `c` is what an operation left of `b`.
pub record Smaller (c b : Bridge) : Type 0 where
  pub id : c.id ≡ b.id
  pub routes : (r : Bytes) → claims c r ≡ true → claims b r ≡ true
  pub conns : (n : ℕ) → has_channel n c.channels ≡ true → has_channel n b.channels ≡ true
  pub visitors : c.visitors ≤ b.visitors

pub Smaller-refl : (b : Bridge) → Smaller b b
Smaller-refl b = record { id = refl; routes = λ r h. h; conns = λ n h. h; visitors = omega arith }

pub data Shrunk : List Bridge → List Bridge → Type 0 where
  none_left : Shrunk [] []
  kept :
      {c b : Bridge} {cs bs : List Bridge} → Smaller c b → Shrunk cs bs → Shrunk (c ∷ cs) (b ∷ bs)
  dropped : {b : Bridge} {cs bs : List Bridge} → Shrunk cs bs → Shrunk cs (b ∷ bs)

Separate-Smaller : {c b d e : Bridge} → Smaller c b → Smaller d e → Separate b e → Separate c d
Separate-Smaller x y s = record {
  ids = λ e. s.ids (sym x.id ∙ e ∙ y.id);
  routes = λ r p q. s.routes r (x.routes r p) (y.routes r q);
  conns = λ n p q. s.conns n (x.conns n p) (y.conns n q);
}

All-Shrunk :
    {c b : Bridge} {cs bs : List Bridge}
    → Smaller c b
    → Shrunk cs bs
    → All (Separate b) bs
    → All (Separate c) cs
All-Shrunk x none_left a = tt
All-Shrunk x (kept y sh) a = (Separate-Smaller x y a.0, All-Shrunk x sh a.1)
All-Shrunk x (dropped sh) a = All-Shrunk x sh a.1

pub AllPairs-Shrunk :
    {cs bs : List Bridge} → Shrunk cs bs → AllPairs Separate bs → AllPairs Separate cs
AllPairs-Shrunk none_left a = tt
AllPairs-Shrunk (kept x sh) a = (All-Shrunk x sh a.0, AllPairs-Shrunk sh a.1)
AllPairs-Shrunk (dropped sh) a = AllPairs-Shrunk sh a.1

pub total_visitors-Shrunk :
    {cs bs : List Bridge} → Shrunk cs bs → total_visitors cs ≤ total_visitors bs
unfolding total_visitors
total_visitors-Shrunk none_left = omega arith
total_visitors-Shrunk (kept x sh) = omega (arith, x.visitors, total_visitors-Shrunk sh)
total_visitors-Shrunk (dropped sh) = omega (arith, total_visitors-Shrunk sh)

-- A property that smaller bridges inherit.
pub All-inherit :
    (P : Bridge → Type 0)
    → ((c b : Bridge) → Smaller c b → P b → P c)
    → {cs bs : List Bridge} → Shrunk cs bs
    → All P bs
    → All P cs
All-inherit P down none_left a = tt
All-inherit P down (kept {c = c} {b = b} x sh) a = (down c b x a.0, All-inherit P down sh a.1)
All-inherit P down (dropped sh) a = All-inherit P down sh a.1

pub Shrunk-map :
    (f : Bridge → Bridge)
    → ((b : Bridge) → Smaller (f b) b)
    → (bs : List Bridge) → Shrunk (map f bs) bs
Shrunk-map f small [] = none_left
Shrunk-map f small (b ∷ bs) = kept (small b) (Shrunk-map f small bs)

pub Shrunk-remove : (id : ℕ) (bs : List Bridge) → Shrunk (remove_bridge id bs) bs
unfolding remove_bridge
Shrunk-remove id [] = none_left
Shrunk-remove id (b ∷ bs) = elim (Bool-cases (b.id == id)) [
  | inl e ↦ rw e (dropped (Shrunk-remove id bs))
  | inr e ↦ rw e (kept (Smaller-refl b) (Shrunk-remove id bs))
]

-- Only the bridge of that number has to get smaller.
pub Shrunk-update :
    (id : ℕ) (f : Bridge → Bridge) (bs : List Bridge)
    → All (λ b. b.id ≡ id → Smaller (f b) b) bs
    → Shrunk (update_bridge id f bs) bs
unfolding update_bridge
Shrunk-update id f [] small = none_left
Shrunk-update id f (b ∷ bs) small = elim (Bool-cases (b.id == id)) [
  | inl e ↦ rw e (kept (small.0 ((==_iff b.id id).0 e)) (Shrunk-update id f bs small.1))
  | inr e ↦ rw e (kept (Smaller-refl b) (Shrunk-update id f bs small.1))
]

pub All-always : {P : Bridge → Type 0} → ((b : Bridge) → P b) → (bs : List Bridge) → All P bs
All-always p [] = tt
All-always p (b ∷ bs) = (p b, All-always p bs)
