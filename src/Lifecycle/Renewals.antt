-- ===== src/Lifecycle/Renewals.antt =====
-- Renewing a certificate: `schedule_renewal`, `is_active`, `alarm`, `start_renewal`, `on_attached`.
use opentunnel.Prelude.{
  ℕ, ◌+◌, ◌-◌, ◌*◌, Bool, true, false, not, ◌&&◌, ◌||◌, Option, none, some, ltb, leb, max, Bytes,
}
use opentunnel.Record.{
  StoredTunnel, Renewal, is_deleted, is_some, ready_expiry, TunnelState, online, offline,
}
use opentunnel.Store.Jobs.{renew}
use opentunnel.Store.Tunnels
use opentunnel.Store.Tunnels.{set_alarm}
use opentunnel.Lifecycle.World.{
  External, Tables, Cached, certificate_failed, Result, ok, err, Op, ◌>>=◌, ◌>>◌, return, attempt,
  read_cached, read_now, emit, call,
}
use opentunnel.Lifecycle.Cache.{live, lock_fresh}
use opentunnel.Lifecycle.Saves.{save}
use opentunnel.Lifecycle.Issuance.{ensure_issuance, set_alarm_at}

abbrev pub day_ms : ℕ
day_ms = 24 * (60 * (60 * 1000))

abbrev pub renew_before_ms : ℕ
renew_before_ms = 30 * day_ms

abbrev pub active_window_ms : ℕ
active_window_ms = 90 * day_ms

abbrev pub renewal_retry_ms : ℕ
renewal_retry_ms = 60 * (60 * 1000)

abbrev pub renewal_stale_ms : ℕ
renewal_stale_ms = day_ms

abbrev pub last_connected_interval_ms : ℕ
last_connected_interval_ms = 60 * (60 * 1000)

abbrev pub minute_ms : ℕ
minute_ms = 60 * 1000

unfoldable pub renewal_at : ℕ → ℕ → ℕ
renewal_at expiry now = max (expiry - renew_before_ms) (now + minute_ms)

unfoldable pub select_alarm : Bytes → Tables → Tables × Option ℕ
unfolding Tunnels.alarm
select_alarm id tables = (tables, Tunnels.alarm id tables.tunnels)

unfoldable pub read_alarm : Bytes → Option (Option ℕ) → Op (Option ℕ)
unfolding return call select_alarm
read_alarm id (some at) = return at
read_alarm id none = call (select_alarm id)

module _ (x : External) where
  -- `record.ready_expiry().and_then(parse_iso)`.
  unfoldable pub expiry_ms : StoredTunnel → Option ℕ
  unfolding ready_expiry
  expiry_ms t = elim (ready_expiry t) [ none ↦ none | some text ↦ x.parse_iso text ]

  unfoldable pub schedule_renewal : StoredTunnel → Op (Unit {0})
  unfolding ◌>>=◌ is_deleted is_some expiry_ms return read_now renewal_at set_alarm_at
  schedule_renewal t = elim (is_deleted t) [
    | true ↦ return tt
    | false ↦ elim (expiry_ms t) [
      | none ↦ return tt
      | some expiry ↦ do now ← read_now; set_alarm_at t.id (some (renewal_at expiry now))
    ]
  ]

  -- `last_connected_at.as_deref().and_then(parse_iso)` within the window.
  unfoldable pub connected_lately : ℕ → Option Bytes → Bool
  connected_lately now none = false
  connected_lately now (some text) = elim (x.parse_iso text) [
    | none ↦ false
    | some connected ↦ ltb (now - connected) active_window_ms
  ]

  unfoldable pub is_active : ℕ → Bool → StoredTunnel → Bool
  unfolding connected_lately
  is_active now attached t = attached || connected_lately now t.last_connected_at

  -- The outcome of `start_renewal`'s call of `ensure_issuance`.
  unfoldable pub renewal_started : Bytes → StoredTunnel → Result (Unit {0}) → Op (Unit {0})
  unfolding ◌>>◌ ◌>>=◌ return emit save read_now set_alarm_at
  renewal_started id t (ok _) = return tt
  renewal_started id t (err e) = do
    emit (certificate_failed true)
    save x t
    now ← read_now
    set_alarm_at t.id (some (now + renewal_retry_ms))

  -- `certificate_id` is the new ID, which the program draws.
  unfoldable pub start_renewal : Bytes → StoredTunnel → Op (Unit {0})
  unfolding ◌>>◌ ◌>>=◌ is_some return read_now save attempt ensure_issuance renewal_started
  start_renewal certificate_id t = elim (is_some t.certificate_csr) [
    | false ↦ return tt
    | true ↦ do
      now ← read_now
      let renewing = record t {
        renewal = some (record { certificate_id = certificate_id; started_at = x.iso now });
      }
      save x renewing
      started ← attempt (ensure_issuance x renewing renew)
      renewal_started certificate_id t started
  ]

  unfoldable pub renewal_stale : ℕ → Renewal → Bool
  renewal_stale now r = elim (x.parse_iso r.started_at) [
    | none ↦ true
    | some started ↦ leb renewal_stale_ms (now - started)
  ]

  unfoldable pub has_stale : ℕ → Option Renewal → Bool
  unfolding renewal_stale
  has_stale now none = false
  has_stale now (some r) = renewal_stale now r

  -- A renewal started less than a day ago.
  unfoldable pub is_renewing : ℕ → Option Renewal → Bool
  is_renewing now none = false
  is_renewing now (some r) = elim (x.parse_iso r.started_at) [
    | none ↦ false
    | some started ↦ ltb (now - started) renewal_stale_ms
  ]

  unfoldable pub renew_due : Bytes → ℕ → ℕ → Cached → StoredTunnel → Op (Unit {0})
  unfolding is_renewing return schedule_renewal is_active start_renewal
  renew_due certificate_id expiry now s t = elim (is_renewing now t.renewal) [
    | true ↦ return tt
    | false ↦ elim (ltb now (expiry - renew_before_ms)) [
      | true ↦ schedule_renewal t
      | false ↦ elim (is_active now s.attached t) [
        | false ↦ return tt
        | true ↦ start_renewal certificate_id t
      ]
    ]
  ]

  unfoldable pub alarm : Bytes → Bytes → Op (Unit {0})
  unfolding ◌>>=◌ ◌>>◌ lock_fresh read_cached live expiry_ms return read_now renew_due
  alarm certificate_id id = do
    lock_fresh x id
    s ← read_cached
    elim (live s.record_of) [
      | none ↦ return tt
      | some t ↦ elim (expiry_ms t) [
        | none ↦ return tt
        | some expiry ↦ do now ← read_now; renew_due certificate_id expiry now s t
      ]
    ]

  unfoldable pub schedule_unless : StoredTunnel → Option ℕ → Op (Unit {0})
  unfolding schedule_renewal return
  schedule_unless t none = schedule_renewal t
  schedule_unless t (some at) = return tt

  -- `read` is the alarm of `AttachFollowup`.
  unfoldable pub on_attached : Bytes → StoredTunnel → Option (Option ℕ) → Op (Unit {0})
  unfolding ◌>>=◌ ◌>>◌ expiry_ms return read_now has_stale start_renewal read_alarm schedule_unless
  on_attached certificate_id t read = elim (expiry_ms t) [
    | none ↦ return tt
    | some expiry ↦ do
      now ← read_now
      elim ((not (is_some t.renewal) || has_stale now t.renewal)
          && leb (expiry - renew_before_ms) now) [
            | true ↦ start_renewal certificate_id t
            | false ↦ do at ← read_alarm t.id read; schedule_unless t at
          ]
  ]

  unfoldable pub is_online : TunnelState → Bool
  is_online online = true
  is_online offline = false

  -- `last_connected_at` within the hour.
  unfoldable pub connected_within_hour : ℕ → Option Bytes → Bool
  connected_within_hour now none = false
  connected_within_hour now (some text) = elim (x.parse_iso text) [
    | none ↦ false
    | some at ↦ ltb (now - at) last_connected_interval_ms
  ]

  unfoldable pub is_recent : ℕ → StoredTunnel → Bool
  unfolding is_online connected_within_hour
  is_recent now t = is_online t.state && connected_within_hour now t.last_connected_at

  unfoldable pub connected_tunnel : ℕ → StoredTunnel → StoredTunnel
  connected_tunnel now t = record t { state = online; last_connected_at = some (x.iso now) }

  unfoldable pub note_connection : Bytes → Option (Option ℕ) → ℕ → StoredTunnel → Op (Unit {0})
  unfolding ◌>>=◌ ◌>>◌ is_recent on_attached save connected_tunnel
  note_connection certificate_id read now t = elim (is_recent now t) [
    | true ↦ on_attached certificate_id t read
    | false ↦ do
      save x (connected_tunnel now t)
      on_attached certificate_id (connected_tunnel now t) read
  ]

  -- `after_attach`, on the entry as it is; errors are only logged. `attached` is `bridge.is_attached()`.
  unfoldable pub after_attach : Bytes → Bool → Option (Option ℕ) → Op (Unit {0})
  unfolding ◌>>=◌ read_cached live return read_now note_connection
  after_attach certificate_id attached read = do
    s ← read_cached
    elim (live s.record_of) [
      | none ↦ return tt
      | some t ↦ elim attached [
        | false ↦ return tt
        | true ↦ do now ← read_now; note_connection certificate_id read now t
      ]
    ]
