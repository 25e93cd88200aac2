-- ===== src/Lifecycle/Triples.antt =====
-- Steps of a handler, and what they keep: the rules for composing them.
use opentunnel.Prelude.{
  ℕ, ◌+◌, ◌<◌, ◌⊎◌, sym, subst, Bool, true, false, ◌≡◌, ◌∙◌, refl, inl, inr, arith, Option, Bytes,
}
use opentunnel.Store.Tunnels.{TunnelRow}
use opentunnel.Store.Revisions.{IsLater}
use opentunnel.Lifecycle.World.{
  External, Tables, Cached, World, Result, ok, err, Op, continue_with, ◌>>=◌, ◌>>◌, return,
  read_cached, read_now,
}
use opentunnel.Lifecycle.Spec.{Advances, Evolves, unchanged, changed, Moves, Holds, IsSound}

module _ (x : External) where
  Evolves-trans :
      {a b c : Option Bytes} (n m k : ℕ)
      → n + m ≡ k
      → Evolves x a n b
      → Evolves x b m c
      → Evolves x a k c
  Evolves-trans {a} {b} n _ k e way unchanged =
      subst (λ k. Evolves x a k b) (let same : n + 0 ≡ n = omega arith in sym same ∙ e) way
  Evolves-trans {a} n _ k e way (changed {n = m} {b} {c} rest step) =
      subst (λ k. Evolves x a k c) (omega (arith, e))
        (changed (Evolves-trans n m (n + m) refl way rest) step)

  Evolves-cases : {a b : Option Bytes} {n : ℕ} → Evolves x a n b → ((n ≡ 0) × (b ≡ a)) ⊎ (0 < n)
  Evolves-cases unchanged = inl (refl, refl)
  Evolves-cases (changed {n} way step) = inr (omega arith)

  pub Advances-IsLater : (old new : Option TunnelRow) → Advances x old new → IsLater x.json old new
  unfolding Advances IsLater
  Advances-IsLater old new (n, revision, way) = elim (Evolves-cases way) [
    | inl (none_, text) ↦ inl (text, omega (arith, revision, none_))
    | inr some_ ↦ inr (omega (arith, revision, some_))
  ]

  pub Advances-refl : (row : Option TunnelRow) → Advances x row row
  unfolding Advances
  Advances-refl row = (0, omega arith, unchanged)

  pub Moves-refl : (t : Tables) → Moves x t t
  unfolding Moves
  Moves-refl t id = Advances-refl (t.tunnels id)

  pub Moves-trans : (a b c : Tables) → Moves x a b → Moves x b c → Moves x a c
  unfolding Moves Advances
  Moves-trans a b c h h' id =
      let (n, revision, way) = h id in
      let (m, revision', way') = h' id in
      (n + m, omega (arith, revision, revision'), Evolves-trans n m (n + m) refl way way')

  pub Holds-later :
      (s : Cached) (old new : Option TunnelRow)
      → IsLater x.json old new
      → Holds x s old
      → Holds x s new
  unfolding Holds IsLater
  Holds-later s old new (inl (t, r)) (inl (t', r')) = inl (t ∙ t', r ∙ r')
  Holds-later s old new (inl (t, r)) (inr h) = inr (omega (arith, r, h))
  Holds-later s old new (inr h) (inl (t, r)) = inr (omega (arith, r, h))
  Holds-later s old new (inr h) (inr h') = inr (omega (arith, h, h'))

  module _ (base : Tables) (id : Bytes) where
    -- The entry's cached record is as described, and all is in order.
    pub record At (C : Cached → Type 0) (w : World) : Type 0 where
      pub sound : IsSound x base id w
      pub about : C w.cached

    -- What a step leaves: `Mid` after a result, and order after an error.
    unfoldable pub After : {A : Type 0} → (A → World → Type 0) → World × Result A → Type 0
    After Mid (w, ok a) = Mid a w
    After Mid (w, err e) = IsSound x base id w

    pub record Triple {A : Type 0} (Pre : World → Type 0) (m : Op A) (Mid : A → World → Type 0)
        : Type 0 where
      pub run : (w : World) → Pre w → After Mid (m w)

    pub relax-After :
        {A : Type 0} (Mid Mid' : A → World → Type 0) (r : World × Result A)
        → ((a : A) (w : World) → Mid a w → Mid' a w)
        → After Mid r
        → After Mid' r
    unfolding After
    relax-After Mid Mid' (w, ok a) sub h = sub a w h
    relax-After Mid Mid' (w, err e) sub h = h

    -- A part after which all is in order, whatever it returns.
    abbrev pub Ends : {A : Type 0} → (World → Type 0) → Op A → Type 0
    Ends Pre m = Triple Pre m (λ _. IsSound x base id)

module _ {x : External} {base : Tables} {id : Bytes} where
  continue-After :
      {A B : Type 0} (Mid : A → World → Type 0) (Post : B → World → Type 0) (f : A → Op B)
      (r : World × Result A)
      → After x base id Mid r
      → ((a : A) → Triple x base id (Mid a) (f a) Post)
      → After x base id Post (continue_with f r)
  unfolding After continue_with
  continue-After Mid Post f (w, ok a) h next = (next a).run w h
  continue-After Mid Post f (w, err e) h next = h

  pub bind :
      {A B : Type 0} {Pre : World → Type 0} {Mid : A → World → Type 0} {Post : B → World → Type 0}
      {m : Op A} {f : A → Op B}
      → Triple x base id Pre m Mid
      → ((a : A) → Triple x base id (Mid a) (f a) Post)
      → Triple x base id Pre (m >>= f) Post
  unfolding ◌>>=◌
  bind {Mid} {Post} {m} {f} h next = record {
    run = λ w p. continue-After Mid Post f (m w) (h.run w p) next;
  }

  pub next :
      {A B : Type 0} {Pre : World → Type 0} {Mid : A → World → Type 0} {Post : B → World → Type 0}
      {m : Op A} {k : Op B}
      → Triple x base id Pre m Mid
      → ((a : A) → Triple x base id (Mid a) k Post)
      → Triple x base id Pre (m >> k) Post
  unfolding ◌>>◌
  next h h' = bind h h'

  pub return-Triple :
      {A : Type 0} {Post : A → World → Type 0} (a : A) → Triple x base id (Post a) (return a) Post
  unfolding After return
  return-Triple a = record { run = λ w h. h }

  pub read_cached-Triple :
      Triple x base id (IsSound x base id) read_cached (λ s. At x base id (λ s'. s' ≡ s))
  unfolding After read_cached
  read_cached-Triple = record { run = λ w h. record { sound = h; about = refl } }

  pub read_now-Triple : {Pre : World → Type 0} → Triple x base id Pre read_now (λ _. Pre)
  unfolding After read_now
  read_now-Triple = record { run = λ w h. h }

  pub weaken :
      {A : Type 0} {Pre Pre' : World → Type 0} {Mid : A → World → Type 0} {m : Op A}
      → ((w : World) → Pre' w → Pre w)
      → Triple x base id Pre m Mid
      → Triple x base id Pre' m Mid
  weaken sub h = record { run = λ w p. h.run w (sub w p) }

  pub relax :
      {A : Type 0} {Pre : World → Type 0} {Mid Mid' : A → World → Type 0} {m : Op A}
      → ((a : A) (w : World) → Mid a w → Mid' a w)
      → Triple x base id Pre m Mid
      → Triple x base id Pre m Mid'
  relax {Mid} {Mid'} {m} sub h = record {
    run = λ w p. relax-After x base id Mid Mid' (m w) sub (h.run w p);
  }

  pub IsSound-after :
      {A : Type 0} {Pre : World → Type 0} {Mid : A → World → Type 0} {m : Op A}
      → ((a : A) (w : World) → Mid a w → IsSound x base id w)
      → Triple x base id Pre m Mid
      → (w : World) → Pre w
      → IsSound x base id (m w).0
  IsSound-after {Mid} {m} sub h w p = last (m w) (h.run w p)
    where
      last : (r : World × Result _) → After x base id Mid r → IsSound x base id r.0
      last (w', ok a) k = unfold After in sub a w' k
      last (w', err e) k = unfold After in k

  pub at_sound :
      {A : Type 0} {C : Cached → Type 0} {m : Op A}
      → Ends x base id (IsSound x base id) m
      → Ends x base id (At x base id C) m
  at_sound h = weaken (λ w p. p.sound) h

  pub either :
      {A : Type 0} {Pre : World → Type 0} {Mid : A → World → Type 0} (b : Bool) {m k : Op A}
      → Triple x base id Pre m Mid
      → Triple x base id Pre k Mid
      → Triple x base id Pre (elim b [ true ↦ m | false ↦ k ]) Mid
  either true h h' = h
  either false h h' = h'
