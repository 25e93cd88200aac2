-- ===== src/Lifecycle/Handlers.antt =====
-- Lemmas shared by the handlers: a save with what goes before and after it.
use opentunnel.Prelude.{
  ◌≡◌, refl, inl, inr, Bool, true, false, Option, none, some, Bytes, Bool-cases,
}
use opentunnel.Record.{StoredTunnel, is_deleted}
use opentunnel.Lifecycle.World.{
  External, Tables, Cached, World, Op, ◌>>=◌, ◌>>◌, return, read_cached,
}
use opentunnel.Lifecycle.Cache.{live, lock_fresh}
use opentunnel.Lifecycle.Saves.{save}
use opentunnel.Lifecycle.Spec.{IsSound, IsWell, Progress, KnownOk}
use opentunnel.Lifecycle.Triples.{
  At, Triple, bind, next, return-Triple, read_cached-Triple, weaken, relax, Ends,
}
use opentunnel.Lifecycle.Steps.{Keeps, Keeps-Triple}
use opentunnel.Lifecycle.Saving.{Allowed}
use opentunnel.Lifecycle.Written.{HasRecord, save-Triple}
use opentunnel.Lifecycle.Locks.{lock_fresh-Ends}

-- What the live record of an entry is.
pub live_some :
    (o : Option StoredTunnel) (t : StoredTunnel)
    → live o ≡ some t
    → (o ≡ some t) × (is_deleted t ≡ false)
unfolding live
live_some none t e = absurd (cc e)
live_some (some t') t e = elim (Bool-cases (is_deleted t')) [
  | inl d ↦ absurd (cc (rw d at e))
  | inr d ↦ let same : t' ≡ t = cc (rw d at e) in rw (← same) (refl, d)
]

module _ {x : External} {base : Tables} {id : Bytes} where
  pub ends :
      {A : Type 0} {C : Cached → Type 0} {m : Op A}
      → Keeps x base id C m
      → Ends x base id (At x base id C) m
  ends h = relax (λ a w p. p.sound) (Keeps-Triple h)

  pub done : {A : Type 0} {C : Cached → Type 0} (a : A) → Ends x base id (At x base id C) (return a)
  done a = weaken (λ w p. p.sound) (return-Triple a)

  pub either_Ends :
      {A : Type 0} {Pre : World → Type 0} (b : Bool) {m k : Op A}
      → (b ≡ true → Ends x base id Pre m)
      → (b ≡ false → Ends x base id Pre k)
      → Ends x base id Pre (elim b [ true ↦ m | false ↦ k ])
  either_Ends true h h' = h refl
  either_Ends false h h' = h' refl

module _ (x : External) (base : Tables) (id : Bytes) where
  -- Where the entry holds this record.
  abbrev pub Holding : StoredTunnel → World → Type 0
  Holding t = At x base id (HasRecord (some t))

  known_at :
      (s : Cached) (t : StoredTunnel) (w : World)
      → s.record_of ≡ some t
      → At x base id (λ s'. s' ≡ s) w
      → IsWell x id t × Holding t w
  unfolding KnownOk
  known_at s t w e h =
      (rw (h.about, e) at h.sound.known, record { sound = h.sound; about = rw h.about e })

  live-Triple :
      {A : Type 0} {Mid : A → World → Type 0} {k : Op A} {f : StoredTunnel → Op A} (s : Cached)
      (o : Option StoredTunnel)
      → live s.record_of ≡ o
      → Triple x base id (At x base id (λ s'. s' ≡ s)) k Mid
      → ((t : StoredTunnel)
          → IsWell x id t
          → is_deleted t ≡ false
          → Triple x base id (Holding t) (f t) Mid)
      → Triple x base id (At x base id (λ s'. s' ≡ s)) (elim o [ none ↦ k | some t ↦ f t ]) Mid
  live-Triple s none e h h' = h
  live-Triple s (some t) e h h' =
      let (held, alive) = live_some s.record_of t e in
      record {
        run = λ w p. let (well, holding) = known_at s t w held p in (h' t well alive).run w holding;
      }

  -- Saving a change of the live record that the entry holds.
  pub save_change :
      (t t' : StoredTunnel)
      → is_deleted t ≡ false
      → IsWell x id t'
      → Progress t t'
      → Triple x base id (Holding t) (save x t') (λ _. Holding t')
  unfolding Allowed
  save_change t t' alive well p = save-Triple x base id t' well (some t) (inr (alive, p))

  -- A handler that does something with the live record of the entry.
  pub live_handler-Triple :
      {A : Type 0} {Mid : A → World → Type 0} {k : Op A} {f : Cached → StoredTunnel → Op A}
      → ((s : Cached) → Triple x base id (At x base id (λ s'. s' ≡ s)) k Mid)
      → ((s : Cached) (t : StoredTunnel)
          → IsWell x id t
          → is_deleted t ≡ false
          → Triple x base id (Holding t) (f s t) Mid)
      → Triple x base id
          (IsSound x base id)
          (read_cached >>= λ s. elim (live s.record_of) [ none ↦ k | some t ↦ f s t ])
          Mid
  live_handler-Triple h h' =
      bind read_cached-Triple (λ s. live-Triple s (live s.record_of) refl (h s) (h' s))

  module _ (reads : (t : StoredTunnel) → x.from_json (x.json t) ≡ some t) where
    -- A handler that locks the entry, and does something with its live record.
    pub handler-Triple :
        {A : Type 0} {Mid : A → World → Type 0} {k : Op A} {f : Cached → StoredTunnel → Op A}
        → ((s : Cached) → Triple x base id (At x base id (λ s'. s' ≡ s)) k Mid)
        → ((s : Cached) (t : StoredTunnel)
            → IsWell x id t
            → is_deleted t ≡ false
            → Triple x base id (Holding t) (f s t) Mid)
        → Triple x base id
            (IsSound x base id)
            (lock_fresh x id
              >> (read_cached >>= λ s. elim (live s.record_of) [ none ↦ k | some t ↦ f s t ]))
            Mid
    handler-Triple h h' = next (lock_fresh-Ends x reads base id) (λ _. live_handler-Triple h h')
