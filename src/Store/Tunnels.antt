-- ===== src/Store/Tunnels.antt =====
-- The table of tunnels and the statements on it: `save_tunnel`, `put_tunnel`, the alarms, and imports.
--
-- The table is a map from its primary key. A record is stored as its JSON text, and `json` is
-- `serde_json::to_string` of it. A result of `none` stands for `Conflict`.
use opentunnel.Prelude.{
  ℕ, ◌+◌, Bool, true, false, not, ◌&&◌, ◌||◌, Option, none, some, List, [], ◌∷◌, ltb, ◌==◌, min,
  max, if◌then◌else◌, Bytes, beq, length, take, get_elem?,
}
use opentunnel.Record.{StoredTunnel, CertificateState, issuing, challenge, is_deleted, is_some}

pub record TunnelRow : Type 0 where
  pub text : Bytes
  pub revision : ℕ
  pub deleted : Bool
  pub issuing_ : Bool
  pub alarm_at : Option ℕ
  pub updated_at : ℕ
  pub imported_at : Option ℕ
  pub local_update : Bool

abbrev pub Tunnels : Type 0
Tunnels = Bytes → Option TunnelRow

unfoldable pub set_row : Bytes → TunnelRow → Tunnels → Tunnels
set_row id row rows id' = if beq id' id then some row else rows id'

unfoldable pub is_issuing : CertificateState → Bool
is_issuing issuing = true
is_issuing (challenge token key) = true
is_issuing _ = false

-- `record_flags`.
unfoldable pub record_flags : StoredTunnel → Bool × Bool
unfolding is_issuing is_deleted is_some
record_flags t = (
  is_deleted t,
  is_some t.renewal || (elim t.certificate [ none ↦ false | some c ↦ is_issuing c.state ]),
)

pub data ImportOutcome : Type 0 where
  inserted updated unchanged kept_local : ImportOutcome

module _ (json : StoredTunnel → Bytes) where
  unfoldable pub new_row : StoredTunnel → Option ℕ → ℕ → Option ℕ → Bool → TunnelRow
  unfolding record_flags
  new_row t alarm now imported local = record {
    text = json t;
    revision = 1;
    deleted = (record_flags t).0;
    issuing_ = (record_flags t).1;
    alarm_at = alarm;
    updated_at = now;
    imported_at = imported;
    local_update = local;
  }

  -- `SET record = ?, revision = revision + 1, …, local_update = 1`.
  unfoldable pub saved_row : StoredTunnel → ℕ → TunnelRow → TunnelRow
  unfolding record_flags
  saved_row t now row = record row {
    text = json t;
    revision = row.revision + 1;
    deleted = (record_flags t).0;
    issuing_ = (record_flags t).1;
    updated_at = now;
    local_update = true;
  }

  unfoldable pub insert_tunnel : StoredTunnel → ℕ → Tunnels → Tunnels × Option ℕ
  unfolding new_row set_row
  insert_tunnel t now rows = elim (rows t.id) [
    | none ↦ (set_row t.id (new_row t none now none true) rows, some 1)
    | some row ↦ (rows, none)
  ]

  unfoldable pub update_tunnel : StoredTunnel → ℕ → ℕ → Tunnels → Tunnels × Option ℕ
  unfolding saved_row set_row
  update_tunnel t revision now rows = elim (rows t.id) [
    | none ↦ (rows, none)
    | some row ↦
        if row.revision == revision
        then (set_row t.id (saved_row t now row) rows, some (revision + 1))
        else (rows, none)
  ]

  unfoldable pub save_tunnel : StoredTunnel → ℕ → ℕ → Tunnels → Tunnels × Option ℕ
  unfolding insert_tunnel update_tunnel
  save_tunnel t revision now rows =
      if revision == 0 then insert_tunnel t now rows else update_tunnel t revision now rows

  -- `ON DUPLICATE KEY UPDATE`.
  unfoldable pub put_tunnel : StoredTunnel → ℕ → Tunnels → Tunnels
  unfolding saved_row new_row set_row
  put_tunnel t now rows = elim (rows t.id) [
    | none ↦ set_row t.id (new_row t none now none true) rows
    | some row ↦ set_row t.id (saved_row t now row) rows
  ]

  unfoldable pub imported_row : StoredTunnel → Option ℕ → ℕ → TunnelRow → TunnelRow
  unfolding saved_row
  imported_row t alarm now row = record (saved_row t now row) {
    alarm_at = alarm;
    imported_at = some now;
    local_update = false;
  }

  -- The row's lock makes the comparison and the update one step.
  unfoldable pub try_import : StoredTunnel → Option ℕ → Bool → ℕ → Tunnels → Tunnels × ImportOutcome
  unfolding new_row imported_row set_row
  try_import t alarm force now rows = elim (rows t.id) [
    | none ↦ (set_row t.id (new_row t alarm now (some now) false) rows, inserted)
    | some row ↦
        if row.local_update && not force
        then (rows, kept_local)
        else if beq row.text (json t)
        then (rows, unchanged)
        else (set_row t.id (imported_row t alarm now row) rows, updated)
  ]

unfoldable pub alarm : Bytes → Tunnels → Option ℕ
alarm id rows = elim (rows id) [ none ↦ none | some row ↦ row.alarm_at ]

unfoldable pub set_alarm : Bytes → Option ℕ → Tunnels → Tunnels
unfolding set_row
set_alarm id at rows = elim (rows id) [
  | none ↦ rows
  | some row ↦ set_row id (record row { alarm_at = at }) rows
]

unfoldable pub is_alarm : ℕ → Option ℕ → Bool
is_alarm at none = false
is_alarm at (some due) = due == at

-- `UPDATE tunnels SET alarm_at = NULL WHERE id = ? AND alarm_at = ?`, and whether it found the row.
unfoldable pub clear_alarm : Bytes → ℕ → Tunnels → Tunnels × Bool
unfolding alarm is_alarm set_alarm
clear_alarm id at rows =
    if is_alarm at (alarm id rows) then (set_alarm id none rows, true) else (rows, false)

abbrev pub alarm_limit : ℕ
alarm_limit = 500

-- How many of the alarms read are due: those before the first later one.
unfoldable pub due_count : ℕ → List (Bytes × ℕ) → ℕ
due_count now [] = 0
due_count now ((id, at) ∷ rest) =
    let later = due_count now rest in if ltb now at then 0 else later + 1

unfoldable pub clear_all :
    (ℕ → Tunnels → Tunnels) → List (Bytes × ℕ) → Tunnels → Tunnels × List Bytes
unfolding clear_alarm
clear_all others [] rows = (rows, [])
clear_all others ((id, at) ∷ rest) rows =
    let cleared = clear_alarm id at (others (length rest) rows) in
    let more = clear_all others rest cleared.0 in
    (more.0, if cleared.1 then id ∷ more.1 else more.1)

-- `take_due_alarms_and_next`. `due` is what its query returned, soonest first and one more than the limit at
-- most; `others` is what other machines do before a row is cleared, by the number of rows left.
unfoldable pub take_due_alarms_and_next :
    (ℕ → Tunnels → Tunnels) → ℕ → List (Bytes × ℕ) → Tunnels → Tunnels × List Bytes × Option ℕ
unfolding due_count clear_all
take_due_alarms_and_next others now due rows =
    let later = min (due_count now due) alarm_limit in
    let next : Option ℕ = elim (get_elem? due later) [
      | none ↦ none
      | some found ↦ some (max found.1 now)
    ] in
    let (cleared, taken) = clear_all others (take later due) rows in (cleared, taken, next)
