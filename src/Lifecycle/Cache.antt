-- ===== src/Lifecycle/Cache.antt =====
-- The cached record of a tunnel: `lock`, `refresh`, `lock_fresh`, `lock_routable`, `expire`, `invalidate`,
-- `collect_idle` and `exists`.
use opentunnel.Prelude.{
  ℕ, ◌-◌, ◌*◌, Bool, true, false, not, ◌&&◌, ◌||◌, Option, none, some, ltb, if◌then◌else◌, Bytes,
}
use opentunnel.Record.{StoredTunnel, is_deleted, is_some, certificate_ready}
use opentunnel.Store.Tunnels.{TunnelRow}
use opentunnel.Lifecycle.World.{
  External, Tables, Cached, undecodable, Result, ok, err, Op, ◌>>=◌, ◌>>◌, return, attempt,
  from_result, read_cached, write_cached, read_now, call,
}

abbrev pub refresh_backoff_ms : ℕ
refresh_backoff_ms = 5000

abbrev pub missing_ttl_ms : ℕ
missing_ttl_ms = 30000

abbrev pub not_ready_ttl_ms : ℕ
not_ready_ttl_ms = 5000

abbrev pub safety_ttl_ms : ℕ
safety_ttl_ms = 10 * (60 * 1000)

-- `AttachSnapshot`.
pub record Snapshot : Type 0 where
  pub record_of : StoredTunnel
  pub revision : ℕ
  pub alarm : Option ℕ

-- `EntryState::record`.
unfoldable pub live : Option StoredTunnel → Option StoredTunnel
live none = none
live (some t) = if is_deleted t then none else some t

unfoldable pub read_refresh_failed_at : Op ℕ
read_refresh_failed_at w = (w, ok w.refresh_failed_at)

unfoldable pub write_refresh_failed_at : ℕ → Op (Unit {0})
write_refresh_failed_at at w = (record w { refresh_failed_at = at }, ok tt)

unfoldable pub read_generation : Op ℕ
read_generation w = (w, ok w.current)

unfoldable pub select_tunnel : Bytes → Tables → Tables × Option TunnelRow
select_tunnel id tables = (tables, tables.tunnels id)

-- What a snapshot leaves in the entry.
unfoldable pub loaded_from : Option Snapshot → ℕ → Cached → Cached
loaded_from none now s = record s { record_of = none; revision = 0; alarm = none }
loaded_from (some found) now s = record s {
  record_of = some found.record_of;
  revision = found.revision;
  alarm = some (now, found.alarm);
}

unfoldable pub fresh_at : ℕ → ℕ → Cached → Cached
fresh_at now generation s = record s {
  loaded = true;
  checked_at = now;
  stale = false;
  generation = generation;
}

module _ (x : External) (id : Bytes) where
  unfoldable pub decode : Option TunnelRow → Result (Option Snapshot)
  decode none = ok none
  decode (some row) = elim (x.from_json row.text) [
    | none ↦ err undecodable
    | some t ↦ ok (some (record { record_of = t; revision = row.revision; alarm = row.alarm_at }))
  ]

  -- `tunnel_with_alarm`, `attach_snapshot`, and `tunnel`, which drops the alarm.
  unfoldable pub tunnel_with_alarm : Op (Option Snapshot)
  unfolding ◌>>=◌ call select_tunnel decode from_result
  tunnel_with_alarm = do row ← call (select_tunnel id); from_result (decode row)

  unfoldable pub lock : Op (Unit {0})
  unfolding ◌>>=◌ read_cached tunnel_with_alarm read_now read_generation write_cached loaded_from
      fresh_at return
  lock = do
    s ← read_cached
    elim s.loaded [
      | true ↦ return tt
      | false ↦ do
        loaded ← tunnel_with_alarm
        now ← read_now
        generation ← read_generation
        write_cached (fresh_at now generation (loaded_from loaded now s))
    ]

  -- Reading again does not look at the alarm.
  unfoldable pub refreshed : Option Snapshot → Cached → Cached
  refreshed none s = record s { record_of = none; revision = 0 }
  refreshed (some found) s = record s {
    record_of = some found.record_of;
    revision = found.revision;
  }

  unfoldable pub refresh_to : ℕ → ℕ → Cached → Result (Option Snapshot) → Op (Unit {0})
  unfolding write_cached refreshed write_refresh_failed_at
  refresh_to now generation s (ok loaded) =
      write_cached
        (record (refreshed loaded s) { checked_at = now; stale = false; generation = generation })
  refresh_to now generation s (err e) = write_refresh_failed_at now

  unfoldable pub read_again : ℕ → Op (Unit {0})
  unfolding ◌>>=◌ read_generation read_cached attempt tunnel_with_alarm refresh_to
  read_again now = do
    generation ← read_generation
    s ← read_cached
    loaded ← attempt tunnel_with_alarm
    refresh_to now generation s loaded

  unfoldable pub refresh : Op (Unit {0})
  unfolding ◌>>=◌ read_now read_refresh_failed_at read_again return
  refresh = do
    now ← read_now
    failed_at ← read_refresh_failed_at
    elim (ltb (now - failed_at) refresh_backoff_ms) [ true ↦ return tt | false ↦ read_again now ]

  -- What follows the lock where the entry was loaded; `lock` where it was not, or on a single machine.
  unfoldable pub if_loaded : Op (Unit {0}) → Op (Unit {0})
  unfolding ◌>>=◌ read_cached lock
  if_loaded m = do s ← read_cached; elim (x.clustered && s.loaded) [ true ↦ m | false ↦ lock ]

  unfoldable pub lock_fresh : Op (Unit {0})
  unfolding if_loaded refresh
  lock_fresh = if_loaded refresh

  unfoldable pub ttl : Bool → Option StoredTunnel → ℕ
  ttl true found = safety_ttl_ms
  ttl false (some t) = not_ready_ttl_ms
  ttl false none = missing_ttl_ms

  unfoldable pub is_ready : Option StoredTunnel → Bool
  is_ready none = false
  is_ready (some t) = certificate_ready t

  -- Whether routing reads the record again; `complete` says that the mesh is.
  unfoldable pub wants_refresh : Bool → ℕ → ℕ → Cached → Bool
  unfolding is_ready ttl live
  wants_refresh complete now generation s =
      s.stale
      || (not (is_ready (live s.record_of))
          && (ltb s.generation generation
              || not (ltb (now - s.checked_at) (ttl complete (live s.record_of)))))

  unfoldable pub refresh_if_wanted : Bool → Op (Unit {0})
  unfolding ◌>>=◌ read_cached read_generation read_now wants_refresh refresh return
  refresh_if_wanted complete = do
    s ← read_cached
    generation ← read_generation
    now ← read_now
    elim (wants_refresh complete now generation s) [ true ↦ refresh | false ↦ return tt ]

  unfoldable pub lock_routable : Bool → Op (Unit {0})
  unfolding if_loaded refresh_if_wanted
  lock_routable complete = if_loaded (refresh_if_wanted complete)

  -- `exists`.
  unfoldable pub exists : Bool → Op Bool
  unfolding ◌>>=◌ lock_routable read_cached is_some live return
  exists complete = do lock_routable complete; s ← read_cached; return (is_some (live s.record_of))

-- `expire`, on an entry that is cached here.
unfoldable pub expire : Op (Unit {0})
unfolding ◌>>=◌ read_cached write_cached
expire = do s ← read_cached; write_cached (record s { stale = true })

unfoldable pub invalidate : Op (Unit {0})
unfolding ◌>>=◌ read_cached write_cached
invalidate = do
  s ← read_cached
  write_cached (record s { loaded = false; record_of = none; revision = 0 })

-- Whether `collect_idle` keeps an entry: `users` says that someone else holds it, `locked` that its lock is
-- taken, `bridges` that it has bridges.
unfoldable pub is_kept : ℕ → Bool → Bool → Bool → Cached → Bool
is_kept now users locked bridges s =
    users || (locked || (bridges || (s.loaded && ltb (now - s.checked_at) missing_ttl_ms)))
