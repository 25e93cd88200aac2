-- ===== src/Lifecycle/Reread.antt =====
-- The record that an attach reads: `lock_for_attach`.
use opentunnel.Prelude.{
  ℕ, ◌-◌, true, false, not, ◌&&◌, Option, none, some, ltb, ◌==◌, if◌then◌else◌, Bytes,
}
use opentunnel.Lifecycle.World.{
  External, Cached, Result, ok, err, Op, ◌>>=◌, ◌>>◌, return, fail, attempt, read_cached,
  write_cached, read_now,
}
use opentunnel.Lifecycle.Cache.{
  refresh_backoff_ms, Snapshot, read_refresh_failed_at, write_refresh_failed_at, read_generation,
  loaded_from, fresh_at, tunnel_with_alarm, lock,
}

abbrev pub attach_reread_ms : ℕ
attach_reread_ms = 2000

module _ (x : External) (id : Bytes) where
  -- The alarm read by the upgrade just before, if it may be used.
  unfoldable pub read_moments_ago : ℕ → ℕ → Cached → Option (Option ℕ)
  read_moments_ago now generation s = elim s.alarm [
    | none ↦ none
    | some (read_at, at) ↦
        if (s.loaded && not s.stale)
          && (s.generation == generation
              && (read_at == s.checked_at && ltb (now - read_at) attach_reread_ms))
        then some at
        else none
  ]

  unfoldable pub attach_alarm : Option Snapshot → Option (Option ℕ)
  attach_alarm none = none
  attach_alarm (some found) = some found.alarm

  -- `None` keeps the alarm that was read before.
  unfoldable pub snapshot_to : ℕ → ℕ → Option Snapshot → Cached → Cached
  unfolding loaded_from fresh_at
  snapshot_to now generation none s =
      fresh_at now generation (record s { record_of = none; revision = 0 })
  snapshot_to now generation (some found) s =
      fresh_at now generation (loaded_from (some found) now s)

  unfoldable pub attach_with : ℕ → ℕ → Cached → Result (Option Snapshot) → Op (Option (Option ℕ))
  unfolding ◌>>◌ ◌>>=◌ write_cached write_refresh_failed_at snapshot_to attach_alarm return fail
  attach_with now generation s (ok found) = do
    write_cached (snapshot_to now generation found s)
    return (attach_alarm found)
  attach_with now generation s (err e) = elim s.loaded [
    | true ↦ do write_refresh_failed_at now; return none
    | false ↦ fail e
  ]

  unfoldable pub reread : ℕ → Cached → Op (Option (Option ℕ))
  unfolding ◌>>=◌ read_generation read_moments_ago attempt tunnel_with_alarm attach_with return
  reread now s = do
    generation ← read_generation
    elim (read_moments_ago now generation s) [
      | some at ↦ return (some at)
      | none ↦ do found ← attempt (tunnel_with_alarm x id); attach_with now generation s found
    ]

  -- The result is the alarm of `AttachFollowup`.
  unfoldable pub lock_for_attach : Op (Option (Option ℕ))
  unfolding ◌>>=◌ ◌>>◌ lock read_cached read_now read_refresh_failed_at reread return
  lock_for_attach = elim x.clustered [
    | false ↦ do lock x id; return none
    | true ↦ do
      s ← read_cached
      now ← read_now
      failed_at ← read_refresh_failed_at
      elim (s.loaded && ltb (now - failed_at) refresh_backoff_ms) [
        | true ↦ return none
        | false ↦ reread now s
      ]
  ]
