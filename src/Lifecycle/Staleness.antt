-- ===== src/Lifecycle/Staleness.antt =====
-- How old an answer that routing trusts may be.
use opentunnel.Prelude.{
  ℕ, ◌-◌, ◌<◌, ◌≤◌, ◌≡◌, ◌⊎◌, refl, inl, inr, arith, Bool, true, false, not, ◌&&◌, ◌||◌, ltb,
  ltb→lt, Option, none, some, Bytes, Bool-cases,
}
use opentunnel.Record.{StoredTunnel}
use opentunnel.Lifecycle.World.{
  External, Cached, World, Result, ok, err, Op, ◌>>=◌, continue_with, return, attempt, read_cached,
  read_now, write_cached,
}
use opentunnel.Lifecycle.Cache.{
  refresh_backoff_ms, safety_ttl_ms, Snapshot, live, is_ready, read_refresh_failed_at,
  write_refresh_failed_at, read_generation, tunnel_with_alarm, refresh_to, refresh, lock, if_loaded,
  ttl, wants_refresh, lock_routable, read_again, refresh_if_wanted,
}

-- The record that the entry holds was read lately: no more than ten minutes ago, or since the database failed
-- within the last five seconds; both as of `now`.
unfoldable pub IsRecent : ℕ → World → Type 0
IsRecent now w =
    (now - w.cached.checked_at < safety_ttl_ms) ⊎ (now - w.refresh_failed_at < refresh_backoff_ms)

module _ (x : External) (id : Bytes) where
  refresh_to-IsRecent :
      (now generation : ℕ) (s : Cached) (r : Result (Option Snapshot)) (w : World)
      → IsRecent now (refresh_to x id now generation s r w).0
  unfolding IsRecent refresh_to write_cached write_refresh_failed_at
  refresh_to-IsRecent now generation s (ok found) w = inl (omega arith)
  refresh_to-IsRecent now generation s (err e) w = inr (omega arith)

  read_again-IsRecent : (now : ℕ) (w : World) → IsRecent now (read_again x id now w).0
  unfolding read_again ◌>>=◌ continue_with read_generation read_cached attempt
  read_again-IsRecent now w =
      refresh_to-IsRecent now w.current w.cached (tunnel_with_alarm x id w).1
        (tunnel_with_alarm x id w).0

  refresh-IsRecent : (w : World) → IsRecent w.now (refresh x id w).0
  unfolding refresh ◌>>=◌ continue_with read_now read_refresh_failed_at
  refresh-IsRecent w = waits (ltb (w.now - w.refresh_failed_at) refresh_backoff_ms) refl
    where
      waits :
          (b : Bool)
          → ltb (w.now - w.refresh_failed_at) refresh_backoff_ms ≡ b
          → IsRecent w.now
              ((elim b as (λ _. Op (Unit {0})) [ true ↦ return tt | false ↦ read_again x id w.now ])
                w).0
      waits true e = unfold IsRecent return in inr (ltb→lt _ _ e)
      waits false e = read_again-IsRecent w.now w

  ttl_short : (complete : Bool) (o : Option StoredTunnel) → ttl x id complete o ≤ safety_ttl_ms
  unfolding ttl
  ttl_short true o = omega arith
  ttl_short false none = omega arith
  ttl_short false (some t) = omega arith

  test_false :
      (stale is_ready older recent : Bool)
      → (stale || (not is_ready && (older || not recent))) ≡ false
      → is_ready ≡ false
      → recent ≡ true
  test_false stale is_ready older recent e n = ground arith

  trusted :
      (complete : Bool) (now generation : ℕ) (s : Cached)
      → wants_refresh x id complete now generation s ≡ false
      → is_ready x id (live s.record_of) ≡ false
      → now - s.checked_at < safety_ttl_ms
  unfolding wants_refresh
  trusted complete now generation s e n =
      let recent =
        test_false s.stale (is_ready x id (live s.record_of)) (ltb s.generation generation)
          (ltb (now - s.checked_at) (ttl x id complete (live s.record_of))) e n in
      omega (arith, ltb→lt _ _ recent, ttl_short complete (live s.record_of))

  wanted-IsRecent :
      (complete : Bool) (w : World)
      → (is_ready x id (live (refresh_if_wanted x id complete w).0.cached.record_of) ≡ true)
        ⊎ IsRecent w.now (refresh_if_wanted x id complete w).0
  unfolding refresh_if_wanted ◌>>=◌ continue_with read_cached read_generation read_now
  wanted-IsRecent complete w = asked (wants_refresh x id complete w.now w.current w.cached) refl
    where
      asked :
          (b : Bool)
          → wants_refresh x id complete w.now w.current w.cached ≡ b
          → let w' =
              ((elim b as (λ _. Op (Unit {0})) [ true ↦ refresh x id | false ↦ return tt ]) w).0 in
            (is_ready x id (live w'.cached.record_of) ≡ true) ⊎ IsRecent w.now w'
      asked true e = inr (refresh-IsRecent w)
      asked false e =
          unfold return in
          elim (Bool-cases (is_ready x id (live w.cached.record_of))) [
            | inl r ↦ inl r
            | inr n ↦ inr (unfold IsRecent in inl (trusted complete w.now w.current w.cached e n))
          ]

  -- After `lock_routable` on one of many machines, an entry that was loaded holds a live record with a ready
  -- certificate, or its record was read at most ten minutes before, or the database failed in the last five seconds.
  pub lock_routable-IsRecent :
      (complete : Bool) (w : World)
      → x.clustered ≡ true
      → w.cached.loaded ≡ true
      → (is_ready x id (live (lock_routable x id complete w).0.cached.record_of) ≡ true)
        ⊎ IsRecent w.now (lock_routable x id complete w).0
  unfolding lock_routable if_loaded ◌>>=◌ continue_with read_cached
  lock_routable-IsRecent complete w c l = loaded (x.clustered && w.cached.loaded) (rw (c, l) refl)
    where
      loaded :
          (b : Bool)
          → b ≡ true
          → let w' =
              ((elim b as (λ _. Op (Unit {0})) [
                | true ↦ refresh_if_wanted x id complete
                | false ↦ lock x id
              ])
                w).0 in
            (is_ready x id (live w'.cached.record_of) ≡ true) ⊎ IsRecent w.now w'
      loaded true e = wanted-IsRecent complete w
      loaded false e = absurd (cc e)
