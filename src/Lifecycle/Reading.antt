-- ===== src/Lifecycle/Reading.antt =====
-- Lemmas on reading the record: `lock` and `refresh`.
use opentunnel.Prelude.{ℕ, ◌≡◌, refl, inl, false, Option, none, some, Bytes}
use opentunnel.Record.{StoredTunnel}
use opentunnel.Store.Tunnels.{TunnelRow}
use opentunnel.Store.Revisions.{text_of, revision_of}
use opentunnel.Lifecycle.World.{
  External, Tables, Cached, World, Result, ok, err, return, attempt, from_result, fail,
  write_cached, call,
}
use opentunnel.Lifecycle.Cache.{
  Snapshot, write_refresh_failed_at, select_tunnel, loaded_from, fresh_at, decode,
  tunnel_with_alarm, refreshed, refresh_to,
}
use opentunnel.Lifecycle.Spec.{RowOk, Holds, KnownOk, text_from, IsSound, IsWell}
use opentunnel.Lifecycle.Triples.{After, Triple, bind}
use opentunnel.Lifecycle.Steps.{Kept-IsSound, after_statement, call-Triple}
use opentunnel.Lifecycle.Statements.{select_tunnel-Kept}

module _ (x : External) (reads : (t : StoredTunnel) → x.from_json (x.json t) ≡ some t)
    (base : Tables) (id : Bytes) where
  -- What the record and the revision are on their own.
  abbrev pub KnownAs : Option StoredTunnel → ℕ → World → Type 0
  KnownAs o revision w =
      KnownOk x id o
      × ((s : Cached) → s.record_of ≡ o → s.revision ≡ revision → Holds x s (w.tables.tunnels id))

  abbrev pub record_in : Option Snapshot → Option StoredTunnel
  record_in none = none
  record_in (some found) = some found.record_of

  abbrev pub revision_in : Option Snapshot → ℕ
  revision_in none = 0
  revision_in (some found) = found.revision

  -- The snapshot is the row's.
  abbrev pub Seen : Option Snapshot → World → Type 0
  Seen found w = IsSound x base id w × KnownAs (record_in found) (revision_in found) w

  abbrev RowSeen : Option TunnelRow → World → Type 0
  RowSeen row w = IsSound x base id w × (w.tables.tunnels id ≡ row)

  select_tunnel-Triple : Triple x base id (IsSound x base id) (call (select_tunnel id)) RowSeen
  select_tunnel-Triple = record {
    run = λ w h.
        (call-Triple x base id (select_tunnel id) (λ s. Unit {0}) RowSeen
            (λ w' h'.
              Kept-IsSound x base id (select_tunnel id) w' (select_tunnel-Kept x id) h'.sound)
            (λ w' h'. unfold select_tunnel after_statement in (h'.sound, refl))).run
          w (record { sound = h; about = tt });
  }

  Seen-row :
      (w : World) (row : TunnelRow) (t : StoredTunnel)
      → IsSound x base id w
      → w.tables.tunnels id ≡ some row
      → row.text ≡ x.json t
      → IsWell x id t
      → Seen (some (record { record_of = t; revision = row.revision; alarm = row.alarm_at })) w
  unfolding KnownOk Holds text_from text_of revision_of
  Seen-row w row t h e text well = (h, (well, λ s o r. rw (e, o) (inl (rw text refl, rw r refl))))

  Seen-none : (w : World) → IsSound x base id w → w.tables.tunnels id ≡ none → Seen none w
  unfolding KnownOk Holds text_from text_of revision_of
  Seen-none w h e = (h, (tt, λ s o r. rw (e, o) (inl (refl, rw r refl))))

  row_ok : (w : World) (row : TunnelRow) → RowSeen (some row) w → RowOk x id (some row)
  row_ok w row h = rw h.1 at (h.0.stored.rows id)

  from_result-After :
      (r : Result (Option Snapshot)) (w : World)
      → IsSound x base id w
      → ((found : Option Snapshot) → r ≡ ok found → Seen found w)
      → After x base id Seen (from_result r w)
  unfolding from_result After return fail
  from_result-After (ok found) w h seen = seen found refl
  from_result-After (err e) w h seen = h

  decode-Seen :
      (row : Option TunnelRow) (w : World)
      → RowSeen row w
      → (found : Option Snapshot) → decode x id row ≡ ok found
      → Seen found w
  unfolding decode RowOk
  decode-Seen none w h found d = let e : none ≡ found = cc d in rw (← e) (Seen-none w h.0 h.1)
  decode-Seen (some row) w h found d =
      let (t, text, well, positive) = row_ok w row h in
      let e : x.from_json row.text ≡ some t = rw text (reads t) in
      let d' = rw (e, decode) at d in
      let same : some (record { record_of = t; revision = row.revision; alarm = row.alarm_at })
          ≡ found =
        cc d' in
      rw (← same) (Seen-row w row t h.0 h.1 text well)

  decode-Triple :
      (row : Option TunnelRow) → Triple x base id (RowSeen row) (from_result (decode x id row)) Seen
  decode-Triple row = record {
    run = λ w h. from_result-After (decode x id row) w h.0 (decode-Seen row w h);
  }

  pub tunnel_with_alarm-Triple : Triple x base id (IsSound x base id) (tunnel_with_alarm x id) Seen
  unfolding tunnel_with_alarm
  tunnel_with_alarm-Triple = bind select_tunnel-Triple decode-Triple

  -- What the entry is given before it is written.
  abbrev pub Fits : Cached → World → Type 0
  Fits s w = IsSound x base id w × Holds x s (w.tables.tunnels id) × KnownOk x id s.record_of

  pub loaded_from-Fits :
      (found : Option Snapshot) (now generation : ℕ) (s : Cached) (w : World)
      → Seen found w
      → Fits (fresh_at now generation (loaded_from found now s)) w
  unfolding fresh_at loaded_from
  loaded_from-Fits none now generation s w (h, (known, holds)) = (h, holds _ refl refl, known)
  loaded_from-Fits (some found) now generation s w (h, (known, holds)) =
      (h, holds _ refl refl, known)

  refreshed-Fits :
      (found : Option Snapshot) (now generation : ℕ) (s : Cached) (w : World)
      → Seen found w
      → Fits
          (record (refreshed x id found s) {
            checked_at = now;
            stale = false;
            generation = generation;
          })
          w
  unfolding refreshed
  refreshed-Fits none now generation s w (h, (known, holds)) = (h, holds _ refl refl, known)
  refreshed-Fits (some found) now generation s w (h, (known, holds)) = (h, holds _ refl refl, known)

  pub write_failed-Triple :
      (at : ℕ)
      → Triple x base id (IsSound x base id) (write_refresh_failed_at at) (λ _. IsSound x base id)
  unfolding write_refresh_failed_at After
  write_failed-Triple at = record {
    run = λ w h. record {
      fair = h.fair;
      stored = h.stored;
      moved = h.moved;
      holds = h.holds;
      known = h.known;
    };
  }

  unfoldable pub AttemptAfter : (w : World) → Result (Option Snapshot) → Type 0
  AttemptAfter w (ok found) = Seen found w
  AttemptAfter w (err e) = IsSound x base id w

  attempted-After :
      (r : World × Result (Option Snapshot))
      → After x base id Seen r
      → After x base id (λ r' w. AttemptAfter w r') (r.0, ok r.1)
  unfolding After AttemptAfter
  attempted-After (w, ok found) h = h
  attempted-After (w, err e) h = h

  pub attempt-Triple :
      Triple x base id
        (IsSound x base id)
        (attempt (tunnel_with_alarm x id))
        (λ r w. AttemptAfter w r)
  unfolding attempt
  attempt-Triple = record {
    run = λ w h. attempted-After (tunnel_with_alarm x id w) (tunnel_with_alarm-Triple.run w h);
  }

  pub write-IsSound :
      (s : Cached) → Triple x base id (Fits s) (write_cached s) (λ _. IsSound x base id)
  unfolding write_cached After
  write-IsSound s = record {
    run = λ w h. record {
      fair = h.0.fair;
      stored = h.0.stored;
      moved = h.0.moved;
      holds = h.1;
      known = h.2;
    };
  }

  pub refresh_to-Triple :
      (now generation : ℕ) (s : Cached) (r : Result (Option Snapshot))
      → Triple x base id
          (λ w. AttemptAfter w r)
          (refresh_to x id now generation s r)
          (λ _. IsSound x base id)
  unfolding refresh_to AttemptAfter
  refresh_to-Triple now generation s (ok found) = record {
    run = λ w h. (write-IsSound _).run w (refreshed-Fits found now generation s w h);
  }
  refresh_to-Triple now generation s (err e) = write_failed-Triple now
