-- ===== src/Service/Views.antt =====
-- The bridges of a tunnel described without the program's searches: who holds a route, which number is which.
use opentunnel.Record.{StoredTunnel, is_deleted}
use opentunnel.Prelude.{
  Option-cases, subst, ℕ, ◌+◌, ◌≡◌, ◌≢◌, ◌⊎◌, refl, ap, sym, ◌∙◌, inl, inr, true, false, not, ◌&&◌,
  some, List, [], ◌∷◌, ◌++◌, Bytes, beq, beq_refl, beq→eq, All, length, map, arith, if◌then◌else◌,
  Bool-cases, ◌==◌,
}
use opentunnel.Service.Bridge.{Bridge, Channel, claims, is_attached, any_route, has_channel, close}
use opentunnel.Service.Entry.{Entry, tunnel_record, update_bridge, retire_bridge}
use opentunnel.Service.Route.{find_claiming, in_use}
use opentunnel.Service.Apart.{AllPairs}

abbrev pub Among : Bytes → List Bytes → Type 0
Among r [] = ⊥
Among r (r' ∷ rs) = (r' ≡ r) ⊎ Among r rs

-- The bridge is attached and not detached, and the route is one of its own.
abbrev pub Holds : Bytes → Bridge → Type 0
Holds r b = (b.attached ≡ true) × (b.detached ≡ false) × Among r b.routes

-- No bridge has the number of another.
abbrev pub Numbered : List Bridge → Type 0
Numbered bs = AllPairs (λ b c. b.id ≢ c.id) bs

-- No channel of the bridge has this number.
abbrev pub Lacks : ℕ → Bridge → Type 0
Lacks conn b = All (λ c. c.0 ≢ conn) b.channels

-- The routes that attached bridges hold.
abbrev pub routes_held : List Bridge → ℕ
routes_held [] = 0
routes_held (b ∷ bs) =
    (if b.attached && not b.detached then length b.routes else 0) + routes_held bs

any_route-Among : (r : Bytes) (rs : List Bytes) → any_route r rs ≡ true → Among r rs
unfolding any_route
any_route-Among r [] h = absurd (cc h)
any_route-Among r (r' ∷ rs) h = elim (Bool-cases (beq r' r)) [
  | inl e ↦ inl (beq→eq r' r e)
  | inr e ↦ inr (any_route-Among r rs (rw e at h))
]

Among-any_route : (r : Bytes) (rs : List Bytes) → Among r rs → any_route r rs ≡ true
unfolding any_route
Among-any_route r [] h = absurd h
Among-any_route r (r' ∷ rs) (inl e) = rw (e, beq_refl r) refl
Among-any_route r (r' ∷ rs) (inr h) = ground (arith, Among-any_route r rs h)

pub claims-Holds : (r : Bytes) (b : Bridge) → claims b r ≡ true → Holds r b
unfolding claims is_attached
claims-Holds r b h = (ground arith, ground arith, any_route-Among r b.routes (ground arith))

pub Holds-claims : (r : Bytes) (b : Bridge) → claims b r ≡ false → ¬ Holds r b
unfolding claims is_attached
Holds-claims r b h (a, d, among) = let e = Among-any_route r b.routes among in ground arith

-- The first bridge that holds a route.
pub find_claiming-first :
    (r : Bytes) (bs : List Bridge) (b : Bridge)
    → find_claiming r bs ≡ some b
    → (before : List Bridge) × (after : List Bridge) × (bs ≡ before ++ b ∷ after)
      × All (λ c. ¬ Holds r c) before
      × Holds r b
unfolding find_claiming
find_claiming-first r [] b h = absurd (cc h)
find_claiming-first r (c ∷ bs) b h = elim (Bool-cases (claims c r)) [
  | inl e ↦
      let same : c ≡ b = cc (rw e at h) in
      ([], bs, ap (λ x. x ∷ bs) same, tt, subst (λ x. Holds r x) same (claims-Holds r c e))
  | inr e ↦
      let (before, after, whole, passed, holds) = find_claiming-first r bs b (rw e at h) in
      (c ∷ before, after, ap (λ xs. c ∷ xs) whole, (Holds-claims r c e, passed), holds)
]

has_channel-Lacks :
    (n : ℕ) (cs : List (ℕ × Channel)) → has_channel n cs ≡ false → All (λ c. c.0 ≢ n) cs
unfolding has_channel
has_channel-Lacks n [] h = tt
has_channel-Lacks n ((c, channel) ∷ cs) h =
    ((λ e. ground arith), has_channel-Lacks n cs (ground arith))

pub in_use-Lacks : (n : ℕ) (bs : List Bridge) → in_use n bs ≡ false → All (Lacks n) bs
unfolding in_use
in_use-Lacks n [] h = tt
in_use-Lacks n (b ∷ bs) h =
    (has_channel-Lacks n b.channels (ground arith), in_use-Lacks n bs (ground arith))

pub Numbered-split :
    (before : List Bridge) (b : Bridge) (after : List Bridge)
    → Numbered (before ++ b ∷ after)
    → All (λ c. c.id ≢ b.id) before × All (λ c. c.id ≢ b.id) after
Numbered-split [] b after (h, hs) = (tt, All-sym b after h)
  where
    All-sym :
        (b : Bridge) (cs : List Bridge) → All (λ c. b.id ≢ c.id) cs → All (λ c. c.id ≢ b.id) cs
    All-sym b [] h = tt
    All-sym b (c ∷ cs) (h, hs) = ((λ e. h (sym e)), All-sym b cs hs)
Numbered-split (c ∷ before) b after (h, hs) =
    let (first, rest) = Numbered-split before b after hs in ((All-last before h, first), rest)
  where
    All-last : (bs : List Bridge) → All (λ d. c.id ≢ d.id) (bs ++ b ∷ after) → c.id ≢ b.id
    All-last [] (h, hs) = h
    All-last (d ∷ bs) (h, hs) = All-last bs hs

update_bridge_none :
    (id : ℕ) (f : Bridge → Bridge) (bs : List Bridge)
    → All (λ c. c.id ≢ id) bs
    → update_bridge id f bs ≡ bs
unfolding update_bridge
update_bridge_none id f [] n = refl
update_bridge_none id f (b ∷ bs) (n, ns) =
    let other : (b.id == id) ≡ false = ground arith in
    rw other (ap (λ xs. b ∷ xs) (update_bridge_none id f bs ns))

-- A bridge of a number that no other has changes alone.
pub update_bridge_one :
    (f : Bridge → Bridge) (before : List Bridge) (b : Bridge) (after : List Bridge)
    → All (λ c. c.id ≢ b.id) before
    → All (λ c. c.id ≢ b.id) after
    → update_bridge b.id f (before ++ b ∷ after) ≡ before ++ f b ∷ after
unfolding update_bridge
update_bridge_one f [] b after ns ms =
    let same : (b.id == b.id) ≡ true = ground arith in
    rw same (ap (λ xs. f b ∷ xs) (update_bridge_none b.id f after ms))
update_bridge_one f (c ∷ before) b after (n, ns) ms =
    let other : (c.id == b.id) ≡ false = ground arith in
    rw other (ap (λ xs. c ∷ xs) (update_bridge_one f before b after ns ms))

retire_bridge-id : (now : ℕ) (b : Bridge) → (retire_bridge now b).id ≡ b.id
unfolding retire_bridge close
retire_bridge-id now b = ground arith

-- Retiring keeps the numbers.
pub Numbered-map :
    (now : ℕ) (bs : List Bridge) → Numbered bs → Numbered (map (retire_bridge now) bs)
Numbered-map now [] h = tt
Numbered-map now (b ∷ bs) (h, hs) = (All-retired bs h, Numbered-map now bs hs)
  where
    All-retired :
        (cs : List Bridge)
        → All (λ c. b.id ≢ c.id) cs
        → All (λ c. (retire_bridge now b).id ≢ c.id) (map (retire_bridge now) cs)
    All-retired [] h = tt
    All-retired (c ∷ cs) (h, hs) =
        ((λ e. h (sym (retire_bridge-id now b) ∙ e ∙ retire_bridge-id now c)), All-retired cs hs)

-- The record is there and not deleted.
pub tunnel_record_live :
    (s : Entry) (t : StoredTunnel)
    → tunnel_record s ≡ some t
    → (s.record_of ≡ some t) × (is_deleted t ≡ false)
unfolding tunnel_record
tunnel_record_live s t h = elim (Option-cases s.record_of) [
  | inl e ↦ absurd (cc (rw (e, tunnel_record) at h))
  | inr (u, e) ↦ elim (Bool-cases (is_deleted u)) [
    | inl d ↦ absurd (cc (rw (e, d, tunnel_record) at h))
    | inr d ↦
        let same : u ≡ t = cc (rw (e, d, tunnel_record) at h) in
        (e ∙ ap (λ v. some v) same, subst (λ v. is_deleted v ≡ false) same d)
  ]
]
