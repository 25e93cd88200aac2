-- ===== src/Lifecycle/Steps.antt =====
-- The rules for calls of the database and for parts that leave the cached record alone.
use opentunnel.Prelude.{◌≡◌, refl, List, [], ◌∷◌, Bytes}
use opentunnel.Lifecycle.World.{
  External, Tables, Fault, answered, refused, lost, Outside, Cached, World, Result, ok, err, Op,
  Error, continue_with, ◌>>=◌, ◌>>◌, return, fail, attempt, faulty, arrive, call_with, call,
  read_now, emit, Effect,
}
use opentunnel.Lifecycle.Spec.{TablesOk, Moves, IsFair, IsSound}
use opentunnel.Lifecycle.Triples.{Moves-trans, Holds-later, Advances-IsLater, At, After, Triple}

-- What a statement that ran leaves.
unfoldable pub after_statement : {A : Type 0} → (Tables → Tables × A) → World → World
after_statement st w = record w { tables = (st w.tables).0 }

module _ (x : External) where
  -- A statement that keeps the tables in order, and moves every row on.
  unfoldable pub Kept : {A : Type 0} → (Tables → Tables × A) → Type 0
  Kept st = (t : Tables) → TablesOk x t → TablesOk x (st t).0 × Moves x t (st t).0

  module _ (base : Tables) (id : Bytes) where
    pub moved-IsSound :
        (w : World) (new : Tables)
        → TablesOk x new
        → Moves x w.tables new
        → IsSound x base id w
        → IsSound x base id (record w { tables = new })
    unfolding Moves
    moved-IsSound w new k m h = record {
      fair = h.fair;
      stored = k;
      moved = Moves-trans x base w.tables new h.moved m;
      holds =
          Holds-later x w.cached (w.tables.tunnels id) (new.tunnels id)
            (Advances-IsLater x _ _ (m id)) h.holds;
      known = h.known;
    }

    pub arrive-IsSound :
        (o : Outside) (rest : List Outside) (w : World)
        → w.outside ≡ o ∷ rest
        → IsSound x base id w
        → IsSound x base id (arrive o rest w)
    unfolding arrive IsFair
    arrive-IsSound o rest w e h =
        let fair = rw e at h.fair in
        let (stored, moved) = fair.0 w.tables h.stored in
        let s = moved-IsSound w (o.others w.tables) stored moved h in
        record { fair = fair.1; stored = stored; moved = s.moved; holds = s.holds; known = s.known }

    pub Kept-IsSound :
        {A : Type 0} (st : Tables → Tables × A) (w : World)
        → Kept st
        → IsSound x base id w
        → IsSound x base id (after_statement st w)
    unfolding Kept after_statement
    Kept-IsSound st w k h =
        let (stored, moved) = k w.tables h.stored in moved-IsSound w (st w.tables).0 stored moved h

    module _ {A : Type 0} (st : Tables → Tables × A) (C : Cached → Type 0)
        (Mid : A → World → Type 0)
        (keeps : (w : World) → At x base id C w → IsSound x base id (after_statement st w))
        (reaches : (w : World)
          → At x base id C w
          → Mid (st w.tables).1 (after_statement st w)) where
      faulty-After :
          (f : Fault) (w : World) → At x base id C w → After x base id Mid (faulty f st w)
      unfolding faulty After after_statement
      faulty-After answered w h = reaches w h
      faulty-After refused w h = h.sound
      faulty-After lost w h = keeps w h

      call_with-After :
          (os : List Outside) (w : World)
          → w.outside ≡ os
          → At x base id C w
          → After x base id Mid (call_with os st w)
      unfolding call_with arrive
      call_with-After [] w e h = faulty-After answered w h
      call_with-After (o' ∷ rest) w e h =
          faulty-After o'.fault (arrive o' rest w)
            (record { sound = arrive-IsSound o' rest w e h.sound; about = h.about })

      pub call-Triple : Triple x base id (At x base id C) (call st) Mid
      unfolding call
      call-Triple = record { run = λ w h. call_with-After w.outside w refl h }

    -- A part that leaves the cached record as it is, after an error too.
    pub record Keeps {A : Type 0} (C : Cached → Type 0) (m : Op A) : Type 0 where
      pub kept : (w : World) → At x base id C w → At x base id C (m w).0

module _ {x : External} {base : Tables} {id : Bytes} {C : Cached → Type 0} where
  Keeps-After :
      {A : Type 0} (r : World × Result A)
      → At x base id C r.0
      → After x base id (λ a. At x base id C) r
  unfolding After
  Keeps-After (w, ok a) h = h
  Keeps-After (w, err e) h = h.sound

  pub Keeps-Triple :
      {A : Type 0} {m : Op A}
      → Keeps x base id C m
      → Triple x base id (At x base id C) m (λ a. At x base id C)
  Keeps-Triple {m} k = record { run = λ w h. Keeps-After (m w) (k.kept w h) }

  continue_with-At :
      {A B : Type 0} (f : A → Op B) (r : World × Result A)
      → At x base id C r.0
      → ((a : A) → Keeps x base id C (f a))
      → At x base id C (continue_with f r).0
  unfolding continue_with
  continue_with-At f (w, ok a) h next = (next a).kept w h
  continue_with-At f (w, err e) h next = h

  pub Keeps-bind :
      {A B : Type 0} {m : Op A} {f : A → Op B}
      → Keeps x base id C m
      → ((a : A) → Keeps x base id C (f a))
      → Keeps x base id C (m >>= f)
  unfolding ◌>>=◌
  Keeps-bind {m} {f} h next = record { kept = λ w p. continue_with-At f (m w) (h.kept w p) next }

  pub Keeps-next :
      {A B : Type 0} {m : Op A} {k : Op B}
      → Keeps x base id C m
      → Keeps x base id C k
      → Keeps x base id C (m >> k)
  unfolding ◌>>◌
  Keeps-next h h' = Keeps-bind h (λ a. h')

  pub Keeps-attempt : {A : Type 0} {m : Op A} → Keeps x base id C m → Keeps x base id C (attempt m)
  unfolding attempt
  Keeps-attempt h = record { kept = λ w p. h.kept w p }

  pub Keeps-return : {A : Type 0} (a : A) → Keeps x base id C (return a)
  unfolding return
  Keeps-return a = record { kept = λ w h. h }

  pub Keeps-fail : {A : Type 0} (e : Error) → Keeps x base id C (fail {A = A} e)
  unfolding fail
  Keeps-fail e = record { kept = λ w h. h }

  pub Keeps-read_now : Keeps x base id C read_now
  unfolding read_now
  Keeps-read_now = record { kept = λ w h. h }

  pub Keeps-emit : (e : Effect) → Keeps x base id C (emit e)
  unfolding emit
  Keeps-emit e = record { kept = λ w h. record { sound = copied w h.sound; about = h.about } }
    where
      copied : (w : World) → IsSound x base id w → IsSound x base id (emit e w).0
      copied w h =
          unfold emit in
          record {
            fair = h.fair;
            stored = h.stored;
            moved = h.moved;
            holds = h.holds;
            known = h.known;
          }

  module _ {A : Type 0} (st : Tables → Tables × A) (k : Kept x st) where
    faulty-At : (f : Fault) (w : World) → At x base id C w → At x base id C (faulty f st w).0
    unfolding faulty
    faulty-At answered w h = record {
      sound = unfold after_statement in Kept-IsSound x base id st w k h.sound;
      about = h.about;
    }
    faulty-At refused w h = h
    faulty-At lost w h = record {
      sound = unfold after_statement in Kept-IsSound x base id st w k h.sound;
      about = h.about;
    }

    call_with-At :
        (os : List Outside) (w : World)
        → w.outside ≡ os
        → At x base id C w
        → At x base id C (call_with os st w).0
    unfolding call_with arrive
    call_with-At [] w e h = faulty-At answered w h
    call_with-At (o' ∷ rest) w e h =
        faulty-At o'.fault (arrive o' rest w)
          (record { sound = arrive-IsSound x base id o' rest w e h.sound; about = h.about })

    pub Keeps-call : Keeps x base id C (call st)
    unfolding call
    Keeps-call = record { kept = λ w h. call_with-At w.outside w refl h }
