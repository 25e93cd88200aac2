-- ===== src/Lifecycle/Locks.antt =====
-- Lemmas on the locks.
use opentunnel.Store.Revisions.{text_of, revision_of}
use opentunnel.Store.Tunnels.{TunnelRow}
use opentunnel.Lifecycle.Spec.{Holds, RowOk, text_from, KnownOk, IsSound}
use opentunnel.Lifecycle.Reread.{
  snapshot_to, attach_alarm, attach_with, reread, read_moments_ago, lock_for_attach,
}
use opentunnel.Lifecycle.World.{
  Error, Result, ok, err, fail, attempt, World, return, continue_with, write_cached, External,
  Tables, Op, read_cached, Cached, ◌>>=◌,
}
use opentunnel.Prelude.{
  ◌≡◌, Bool, ◌&&◌, ◌-◌, ltb, some, Bytes, refl, none, Option, inl, inr, false, ℕ,
}
use opentunnel.Record.{StoredTunnel}
use opentunnel.Lifecycle.Cache.{
  refresh_backoff_ms, read_refresh_failed_at, read_generation, lock, refresh, if_loaded, lock_fresh,
  wants_refresh, lock_routable, exists, Snapshot, fresh_at, tunnel_with_alarm, expire, invalidate,
  refresh_if_wanted, read_again,
}
use opentunnel.Lifecycle.Triples.{
  After, Triple, bind, next, return-Triple, read_cached-Triple, read_now-Triple, weaken, Ends,
  at_sound, either,
}
use opentunnel.Lifecycle.Reading.{
  tunnel_with_alarm-Triple, write-IsSound, loaded_from-Fits, attempt-Triple, refresh_to-Triple,
  Seen, Fits, AttemptAfter, write_failed-Triple,
}

module _ (x : External) (reads : (t : StoredTunnel) → x.from_json (x.json t) ≡ some t)
    (base : Tables) (id : Bytes) where
  abbrev Sound : World → Type 0
  Sound = IsSound x base id

  read_generation-Triple : {Pre : World → Type 0} → Triple x base id Pre read_generation (λ _. Pre)
  unfolding After read_generation
  read_generation-Triple = record { run = λ w h. h }

  read_failed-Triple :
      {Pre : World → Type 0} → Triple x base id Pre read_refresh_failed_at (λ _. Pre)
  unfolding After read_refresh_failed_at
  read_failed-Triple = record { run = λ w h. h }

  pub lock-Ends : Ends x base id Sound (lock x id)
  unfolding lock
  lock-Ends = bind read_cached-Triple (λ s. at_sound (
      either s.loaded (return-Triple tt) (
        bind (tunnel_with_alarm-Triple x reads base id) (λ loaded. bind read_now-Triple (λ now.
          bind read_generation-Triple (λ generation.
            weaken (λ w h. loaded_from-Fits x reads base id loaded now generation s w h)
              (write-IsSound x reads base id _)))))))

  pub refresh-Ends : Ends x base id Sound (refresh x id)
  unfolding refresh read_again
  refresh-Ends = bind read_now-Triple (λ now. bind read_failed-Triple (λ failed_at.
      either (ltb (now - failed_at) refresh_backoff_ms) (return-Triple tt) (
        bind read_generation-Triple (λ generation. bind read_cached-Triple (λ s.
          bind (weaken (λ w p. p.sound) (attempt-Triple x reads base id))
            (λ found. refresh_to-Triple x reads base id now generation s found))))))

  if_loaded-Ends :
      {m : Op (Unit {0})} → Ends x base id Sound m → Ends x base id Sound (if_loaded x id m)
  unfolding if_loaded
  if_loaded-Ends h =
      bind read_cached-Triple (λ s. at_sound (either (x.clustered && s.loaded) h lock-Ends))

  pub lock_fresh-Ends : Ends x base id Sound (lock_fresh x id)
  unfolding lock_fresh
  lock_fresh-Ends = if_loaded-Ends refresh-Ends

  pub lock_routable-Ends : (complete : Bool) → Ends x base id Sound (lock_routable x id complete)
  unfolding lock_routable refresh_if_wanted
  lock_routable-Ends complete = if_loaded-Ends (
      bind read_cached-Triple (λ s. at_sound (
        bind read_generation-Triple (λ generation. bind read_now-Triple (λ now.
          either (wants_refresh x id complete now generation s) refresh-Ends (return-Triple tt))))))

  pub exists-Ends : (complete : Bool) → Ends x base id Sound (exists x id complete)
  unfolding exists
  exists-Ends complete =
      next (lock_routable-Ends complete)
        (λ _. bind read_cached-Triple (λ s. at_sound (return-Triple _)))

  snapshot_to-Fits :
      (found : Option Snapshot) (now generation : ℕ) (s : Cached) (w : World)
      → Seen x reads base id found w
      → Fits x reads base id (snapshot_to x id now generation found s) w
  unfolding snapshot_to
  snapshot_to-Fits none now generation s w (h, (known, holds)) =
      unfold fresh_at in (h, holds _ refl refl, known)
  snapshot_to-Fits (some found) now generation s w h =
      loaded_from-Fits x reads base id (some found) now generation s w h

  attach_with-Ends :
      (now generation : ℕ) (s : Cached) (r : Result (Option Snapshot))
      → Ends x base id (λ w. AttemptAfter x reads base id w r) (attach_with x id now generation s r)
  unfolding attach_with AttemptAfter
  attach_with-Ends now generation s (ok found) =
      next
        (weaken (λ w h. snapshot_to-Fits found now generation s w h)
          (write-IsSound x reads base id _))
        (λ _. return-Triple (attach_alarm x id found))
  attach_with-Ends now generation s (err e) =
      either s.loaded (next (write_failed-Triple x reads base id now) (λ _. return-Triple none))
        (failed e)
    where
      failed : (e : Error) → Ends x base id Sound (fail {A = Option (Option ℕ)} e)
      failed e = unfold After fail in record { run = λ w h. h }

  reread-Ends : (now : ℕ) (s : Cached) → Ends x base id Sound (reread x id now s)
  unfolding reread
  reread-Ends now s =
      bind read_generation-Triple
        (λ generation. again generation (read_moments_ago x id now generation s))
    where
      again :
          (generation : ℕ) (o : Option (Option ℕ))
          → Ends x base id Sound (elim o [
            | some at ↦ return (some at)
            | none ↦ attempt (tunnel_with_alarm x id) >>= λ found.
                attach_with x id now generation s found
          ])
      again generation none =
          bind (attempt-Triple x reads base id) (λ found. attach_with-Ends now generation s found)
      again generation (some at) = return-Triple (some at)

  pub lock_for_attach-Ends : Ends x base id Sound (lock_for_attach x id)
  unfolding lock_for_attach
  lock_for_attach-Ends =
      either x.clustered
        (bind read_cached-Triple (λ s. at_sound (
          bind read_now-Triple (λ now. bind read_failed-Triple (λ failed_at.
            either (s.loaded && ltb (now - failed_at) refresh_backoff_ms) (return-Triple none)
              (reread-Ends now s))))))
        (next lock-Ends (λ _. return-Triple none))

  pub expire-Ends : Ends x base id Sound expire
  unfolding expire After ◌>>=◌ continue_with read_cached write_cached Holds
  expire-Ends = record {
    run = λ w h. record {
      fair = h.fair;
      stored = h.stored;
      moved = h.moved;
      holds = h.holds;
      known = h.known;
    };
  }

  nothing-Holds :
      (s : Cached) (row : Option TunnelRow)
      → RowOk x id row
      → Holds x (record s { loaded = false; record_of = none; revision = 0 }) row
  unfolding Holds RowOk text_of revision_of text_from
  nothing-Holds s none h = inl (refl, refl)
  nothing-Holds s (some row) (t', text, well', positive) = inr positive

  pub invalidate-Ends : Ends x base id Sound invalidate
  unfolding invalidate After ◌>>=◌ continue_with read_cached write_cached KnownOk
  invalidate-Ends = record {
    run = λ w h. record {
      fair = h.fair;
      stored = h.stored;
      moved = h.moved;
      holds = nothing-Holds w.cached (w.tables.tunnels id) (h.stored.rows id);
      known = tt;
    };
  }
