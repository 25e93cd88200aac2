-- ===== src/Service/Run.antt =====
-- All that happens to a tunnel's bridges on one machine, as a step relation: the handlers above in any
-- order, with the environment's choices (times, names, messages, what the database holds).
use opentunnel.Prelude.{
  ℕ, suc, ◌^◌, ◌<◌, refl, inl, inr, Bool, Bool-cases, if◌then◌else◌, false, Option, none, [], arith,
  Bytes,
}
use opentunnel.Record.{StoredTunnel}
use opentunnel.Service.Bridge.{Bridge, Outcome, claims, is_attached, is_closing, touch}
use opentunnel.Service.Entry.{Machine, Entry, register_bridge, retire_stale, update_bridge}
use opentunnel.Service.Attach.{Request, attach}
use opentunnel.Service.Route.{route, total_visitors}
use opentunnel.Service.Ends.{bridge_closed, close_deleted, client_finish, visitor_ends}
use opentunnel.Service.Apart.{Smaller, Smaller-refl, Shrunk-update, All-always}
use opentunnel.Service.Invariant.{Inv, Inv-Shrunk, retire_stale-Inv}
use opentunnel.Service.Endings.{
  bridge_closed-Inv, close_deleted-Inv, client_finish-Inv, visitor_ends-Inv, Carries,
  register_bridge-Inv, Inv-later,
}
use opentunnel.Service.Claims.{attach-Inv}
use opentunnel.Service.Routing.{route-Inv}

-- The entry of a tunnel that this machine has not seen.
abbrev pub empty_entry : Bytes → Entry
empty_entry id = record {
  id = id;
  loaded = false;
  record_of = none;
  revision = 0;
  bridges = [];
  sequence = 0;
  cells = [];
  mesh = [];
}

-- What a refresh of the record leaves (`lock_routable`, `lock_fresh`, `save`).
abbrev pub with_record : Bool → Option StoredTunnel → ℕ → Entry → Entry
with_record loaded found revision s = record s {
  loaded = loaded;
  record_of = found;
  revision = revision;
}

-- A message from the client: once the server has closed the session, only its close matters.
unfoldable pub hear_bridge : ℕ → Bridge → Bridge
hear_bridge now b = if is_closing b then b else touch now b

abbrev pub hear : ℕ → ℕ → Entry → Entry
hear id now s = record s { bridges = update_bridge id (hear_bridge now) s.bridges }

-- One step; `n` is the machine's next bridge number, which other tunnels take from too.
pub data Step (m : Machine) (n : ℕ) (s : Entry) : ℕ → Entry → Type 0 where
  registers : (now : ℕ) (draining : Bool) → Step m n s (suc n) (register_bridge n now draining s).0
  elsewhere : Step m n s (suc n) s
  attaches :
      (matches : Bytes → Bytes → Bool) (held : Bool) (now : ℕ) (q : Request)
      → Step m n s n (attach matches m held now q s).0
  routes : (now : ℕ) (sni : Bytes) → Step m n s n (route m now sni s).0
  sweeps : (now : ℕ) → Step m n s n (retire_stale m now s)
  hears : (id now : ℕ) → Step m n s n (hear id now s)
  closes : (id : ℕ) → Step m n s n (bridge_closed m id s)
  deletes : Step m n s n (close_deleted s).0
  client_ends :
      (outcome : Outcome) (abort : Bool) (id conn : ℕ)
      → Step m n s n (client_finish outcome abort id conn s)
  visitor_leaves :
      (id conn cell : ℕ) (outcome : Outcome) (abort : Bool)
      → Carries id s.bridges
      → Step m n s n (visitor_ends id conn cell outcome abort s)
  refreshes :
      (loaded : Bool) (found : Option StoredTunnel) (revision : ℕ)
      → Step m n s n (with_record loaded found revision s)

pub data Reach (m : Machine) (n : ℕ) (s : Entry) : ℕ → Entry → Type 0 where
  here : Reach m n s n s
  next : {n' n'' : ℕ} {t u : Entry} → Reach m n s n' t → Step m n' t n'' u → Reach m n s n'' u

hear_bridge-Smaller : (now : ℕ) (b : Bridge) → Smaller (hear_bridge now b) b
unfolding hear_bridge touch claims is_attached
hear_bridge-Smaller now b = elim (Bool-cases (is_closing b)) [
  | inl e ↦ rw e (Smaller-refl b)
  | inr e ↦ rw e (record { id = refl; routes = λ r h. h; conns = λ n h. h; visitors = omega arith })
]

module _ (m : Machine) (fits : m.conns_per_bridge < 2 ^ 64) where
  pub Step-Inv : {n n' : ℕ} {s t : Entry} → Step m n s n' t → Inv m n s → Inv m n' t
  Step-Inv {n} {s = s} (registers now draining) v = register_bridge-Inv m n now draining s v
  Step-Inv {n} {s = s} elsewhere v = Inv-later m n s v
  Step-Inv {n} {s = s} (attaches matches held now q) v = attach-Inv matches m held n now q s v
  Step-Inv {n} {s = s} (routes now sni) v = route-Inv m n now sni s v
  Step-Inv {n} {s = s} (sweeps now) v = retire_stale-Inv m n now s v
  Step-Inv {n} {s = s} (hears id now) v =
      Inv-Shrunk m n s (hear id now s)
        (Shrunk-update id (hear_bridge now) s.bridges
          (All-always (λ b _. hear_bridge-Smaller now b) s.bridges))
        refl v
  Step-Inv {n} {s = s} (closes id) v = bridge_closed-Inv m n id s v
  Step-Inv {n} {s = s} deletes v = close_deleted-Inv m n s v
  Step-Inv {n} {s = s} (client_ends outcome abort id conn) v =
      client_finish-Inv m n outcome abort id conn s v
  Step-Inv {n} {s = s} (visitor_leaves id conn cell outcome abort held) v =
      visitor_ends-Inv m n id conn cell outcome abort s fits held v
  Step-Inv {n} {s = s} (refreshes loaded found revision) v = record {
    apart = v.apart;
    each = v.each;
    total = v.total;
    sequence = v.sequence;
  }

  Reach-keeps : {n : ℕ} {s : Entry} {n' : ℕ} {t : Entry} → Inv m n s → Reach m n s n' t → Inv m n' t
  Reach-keeps v here = v
  Reach-keeps v (next r st) = Step-Inv st (Reach-keeps v r)

  empty-Inv : (n : ℕ) (id : Bytes) → Inv m n (empty_entry id)
  unfolding total_visitors
  empty-Inv n id = record { apart = tt; each = tt; total = omega arith; sequence = omega arith }

  -- Whatever happens to a tunnel on a machine, in any order: its bridges have different numbers, no
  -- two attached bridges hold one route, no two connections have one number on different bridges and
  -- none is numbered 0, and the visitors carried are within the limits of each bridge and of the
  -- tunnel.
  pub Reach-Inv : {n n' : ℕ} {t : Entry} (id : Bytes) → Reach m n (empty_entry id) n' t → Inv m n' t
  Reach-Inv {n} id r = Reach-keeps (empty-Inv n id) r
