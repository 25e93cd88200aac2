-- ===== src/Service/Endings.antt =====
-- The invariant of a tunnel's bridges, the ends of bridges and connections, and new bridges.
use opentunnel.Prelude.{
  ℕ, suc, ◌+◌, ◌^◌, ◌<◌, ◌≡◌, refl, inl, inr, Bool, true, false, List, [], ◌∷◌, ◌++◌, arith, All,
  All-append, Bytes, codes, if◌then◌else◌, Option-cases,
}
use opentunnel.Service.Bridge.{
  Bridge, Channel, Outcome, deleted, Finish, claims, is_attached, has_channel, remove_channel,
  close, finish_channels, drop_visitor, send_drain, drain_reason,
}
use opentunnel.Service.Entry.{
  Machine, Entry, find_bridge, new_bridge, register_bridge, tunnel_record,
}
use opentunnel.Service.Ends.{
  remove_bridge, bridge_closed, close_all, close_deleted, client_finish, channel_of, leave, depart,
  visitor_ends,
}
use opentunnel.Service.Route.{total_visitors}
use opentunnel.Service.Apart.{
  Separate, AllPairs, Smaller, Shrunk, none_left, kept, All-always, Shrunk-remove, Shrunk-update,
}
use opentunnel.Service.Invariant.{IsBridge, Inv, Inv-Shrunk}

pub bridge_closed-rest :
    (m : Machine) (id : ℕ) (s : Entry)
    → ((bridge_closed m id s).bridges ≡ remove_bridge id s.bridges)
      × ((bridge_closed m id s).sequence ≡ s.sequence)
unfolding bridge_closed
bridge_closed-rest m id s = elim (Option-cases (find_bridge id s.bridges)) [
  | inl e ↦ rw (e, bridge_closed) (refl, refl)
  | inr (b, e) ↦ rw (e, bridge_closed) (ground arith)
]

pub bridge_closed-Inv :
    (m : Machine) (next id : ℕ) (s : Entry) → Inv m next s → Inv m next (bridge_closed m id s)
bridge_closed-Inv m next id s v =
    let (bs, seq) = bridge_closed-rest m id s in
    Inv-Shrunk m next s (bridge_closed m id s) (rw bs (Shrunk-remove id s.bridges)) seq v

deleted-Smaller :
    (b : Bridge) (cells : List Finish)
    → Smaller (close 1000 (codes "deleted") (finish_channels deleted b cells).0) b
unfolding close finish_channels claims is_attached has_channel
deleted-Smaller b cells = record {
  id = refl;
  routes = λ r h. h;
  conns = λ n h. cc;
  visitors = omega arith;
}

close_all-Shrunk : (bs : List Bridge) (cells : List Finish) → Shrunk (close_all bs cells).0 bs
unfolding close_all
close_all-Shrunk [] cells = none_left
close_all-Shrunk (b ∷ bs) cells =
    kept (deleted-Smaller b cells) (close_all-Shrunk bs (finish_channels deleted b cells).1)

pub close_deleted-Inv :
    (m : Machine) (next : ℕ) (s : Entry) → Inv m next s → Inv m next (close_deleted s).0
unfolding close_deleted
close_deleted-Inv m next s v =
    Inv-Shrunk m next s (close_deleted s).0 (close_all-Shrunk s.bridges s.cells) refl v

has-remove :
    (n conn : ℕ) (cs : List (ℕ × Channel))
    → has_channel n (remove_channel conn cs) ≡ true
    → has_channel n cs ≡ true
unfolding has_channel remove_channel
has-remove n conn [] h = h
has-remove n conn ((c, channel) ∷ rest) h = ground (arith, has-remove n conn rest)

pub leave-Smaller : (conn : ℕ) (b : Bridge) → Smaller (leave conn b) b
unfolding leave claims is_attached
leave-Smaller conn b = record {
  id = refl;
  routes = λ r h. h;
  conns = λ n h. has-remove n conn b.channels h;
  visitors = omega arith;
}

-- The slot that is dropped was taken.
depart-Smaller :
    (conn : ℕ) (b : Bridge) → 0 < b.visitors → b.visitors < 2 ^ 64 → Smaller (depart conn b) b
unfolding depart drop_visitor leave claims is_attached
depart-Smaller conn b taken fits = record {
  id = refl;
  routes = λ r h. h;
  conns = λ n h. has-remove n conn b.channels h;
  visitors = omega arith;
}

pub client_finish-Inv :
    (m : Machine) (next : ℕ) (outcome : Outcome) (abort : Bool) (id conn : ℕ) (s : Entry)
    → Inv m next s
    → Inv m next (client_finish outcome abort id conn s)
unfolding client_finish
client_finish-Inv m next outcome abort id conn s v = elim (Option-cases (channel_of id conn s)) [
  | inl e ↦ rw (e, client_finish) v
  | inr (channel, e) ↦
      rw (e, client_finish)
        (Inv-Shrunk m next s _
          (Shrunk-update id (leave conn) s.bridges
            (All-always (λ b _. leave-Smaller conn b) s.bridges))
          refl v)
]

-- The bridge of that number carries a visitor.
abbrev pub Carries : ℕ → List Bridge → Type 0
Carries id = All λ b. b.id ≡ id → 0 < b.visitors

departs :
    (m : Machine) (next id conn : ℕ) (bs : List Bridge)
    → m.conns_per_bridge < 2 ^ 64
    → Carries id bs
    → All (IsBridge m next) bs
    → All (λ b. b.id ≡ id → Smaller (depart conn b) b) bs
departs m next id conn [] fits held each = tt
departs m next id conn (b ∷ bs) fits held each = (
  (λ e. depart-Smaller conn b (held.0 e) (omega (arith, each.0.within))),
  departs m next id conn bs fits held.1 each.1,
)

pub visitor_ends-Inv :
    (m : Machine) (next id conn cell : ℕ) (outcome : Outcome) (abort : Bool) (s : Entry)
    → m.conns_per_bridge < 2 ^ 64
    → Carries id s.bridges
    → Inv m next s
    → Inv m next (visitor_ends id conn cell outcome abort s)
unfolding visitor_ends
visitor_ends-Inv m next id conn cell outcome abort s fits held v =
    Inv-Shrunk m next s (visitor_ends id conn cell outcome abort s)
      (Shrunk-update id (depart conn) s.bridges (departs m next id conn s.bridges fits held v.each))
      refl v

AllPairs-append :
    (bs : List Bridge) (b : Bridge)
    → AllPairs Separate bs
    → All (λ c. Separate c b) bs
    → AllPairs Separate (bs ++ b ∷ [])
AllPairs-append [] b p a = (tt, tt)
AllPairs-append (c ∷ bs) b p a =
    (All-append (Separate c) bs (b ∷ []) p.0 (a.0, tt), AllPairs-append bs b p.1 a.1)

total_visitors-append :
    (bs : List Bridge) (b : Bridge) → total_visitors (bs ++ b ∷ []) ≡ total_visitors bs + b.visitors
unfolding total_visitors
total_visitors-append [] b = omega arith
total_visitors-append (c ∷ bs) b = omega (arith, total_visitors-append bs b)

-- A bridge that holds nothing yet.
record IsNew (id : ℕ) (b : Bridge) : Type 0 where
  same : b.id ≡ id
  routes : (r : Bytes) → claims b r ≡ true → ⊥
  channels : b.channels ≡ []
  visitors : b.visitors ≡ 0

registered-IsNew :
    (id now : ℕ) (draining : Bool)
    → IsNew id (if draining then send_drain drain_reason (new_bridge id now) else new_bridge id now)
unfolding send_drain new_bridge claims is_attached
registered-IsNew id now true = record {
  same = refl;
  routes = λ r h. cc;
  channels = refl;
  visitors = refl;
}
registered-IsNew id now false = record {
  same = refl;
  routes = λ r h. cc;
  channels = refl;
  visitors = refl;
}

new-Separate :
    (m : Machine) (next : ℕ) (b : Bridge) (bs : List Bridge)
    → IsNew next b
    → All (IsBridge m next) bs
    → All (λ c. Separate c b) bs
unfolding has_channel
new-Separate m next b [] new each = tt
new-Separate m next b (c ∷ bs) new each = (
  record {
    ids = λ e. omega (arith, each.0.number, e, new.same);
    routes = λ r x y. new.routes r y;
    conns = λ n x y. cc (rw new.channels at y);
  },
  new-Separate m next b bs new each.1,
)

later :
    (m : Machine) (next : ℕ) (bs : List Bridge)
    → All (IsBridge m next) bs
    → All (IsBridge m (suc next)) bs
later m next [] each = tt
later m next (b ∷ bs) each = (
  record {
    number = omega (arith, each.0.number);
    nonzero = each.0.nonzero;
    within = each.0.within;
  },
  later m next bs each.1,
)

pub Inv-later : (m : Machine) (next : ℕ) (s : Entry) → Inv m next s → Inv m (suc next) s
Inv-later m next s v = record {
  apart = v.apart;
  each = later m next s.bridges v.each;
  total = v.total;
  sequence = v.sequence;
}

with_new :
    (m : Machine) (next : ℕ) (b : Bridge) (s : Entry)
    → IsNew next b
    → Inv m next s
    → Inv m (suc next) (record s { bridges = s.bridges ++ b ∷ [] })
unfolding has_channel
with_new m next b s new v = record {
  apart = AllPairs-append s.bridges b v.apart (new-Separate m next b s.bridges new v.each);
  each = All-append (IsBridge m (suc next)) s.bridges (b ∷ []) (later m next s.bridges v.each) (
    record {
      number = omega (arith, new.same);
      nonzero = rw new.channels refl;
      within = omega (arith, new.visitors);
    },
    tt,
  );
  total = omega (arith, total_visitors-append s.bridges b, new.visitors, v.total);
  sequence = v.sequence;
}

pub register_bridge-Inv :
    (m : Machine) (next now : ℕ) (draining : Bool) (s : Entry)
    → Inv m next s
    → Inv m (suc next) (register_bridge next now draining s).0
unfolding register_bridge
register_bridge-Inv m next now draining s v = elim (Option-cases (tunnel_record s)) [
  | inl e ↦ rw (e, register_bridge) (Inv-later m next s v)
  | inr (t, e) ↦
      rw (e, register_bridge) (with_new m next _ s (registered-IsNew next now draining) v)
]
