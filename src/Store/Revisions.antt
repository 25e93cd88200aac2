-- ===== src/Store/Revisions.antt =====
-- Revisions of tunnel records under the statements of all machines.
use opentunnel.Prelude.{
  ℕ, ◌<◌, ◌==◌, ◌≡◌, ◌⊎◌, refl, ◌∙◌, inl, inr, Bool, not, ◌&&◌, Option, none, some, arith, Bytes,
  beq, beq→eq, Bool-cases, Option-cases,
}
use opentunnel.Record.{StoredTunnel}
use opentunnel.Store.Tunnels.{
  TunnelRow, Tunnels, set_row, new_row, saved_row, insert_tunnel, update_tunnel, save_tunnel,
  put_tunnel, imported_row, try_import, alarm, set_alarm, clear_alarm, is_alarm,
}

-- The revision of a row, 0 where there is none, as a reader has it.
unfoldable pub revision_of : Option TunnelRow → ℕ
revision_of none = 0
revision_of (some row) = row.revision

unfoldable pub text_of : Option TunnelRow → Option Bytes
text_of none = none
text_of (some row) = some row.text

module _ (json : StoredTunnel → Bytes) where
  -- A statement on the table, of any machine.
  pub data Step (rows : Tunnels) : Tunnels → Type 0 where
    saves :
        (t : StoredTunnel) (revision now : ℕ) → Step rows (save_tunnel json t revision now rows).0
    puts : (t : StoredTunnel) (now : ℕ) → Step rows (put_tunnel json t now rows)
    imports :
        (t : StoredTunnel) (at : Option ℕ) (force : Bool) (now : ℕ)
        → Step rows (try_import json t at force now rows).0
    sets_alarm : (id : Bytes) (at : Option ℕ) → Step rows (set_alarm id at rows)
    clears_alarm : (id : Bytes) (at : ℕ) → Step rows (clear_alarm id at rows).0

  pub data Steps (rows : Tunnels) : Tunnels → Type 0 where
    here : Steps rows rows
    next : {rows' rows'' : Tunnels} → Steps rows rows' → Step rows' rows'' → Steps rows rows''

  -- The row keeps its text and revision, or has a later revision.
  unfoldable pub IsLater : Option TunnelRow → Option TunnelRow → Type 0
  IsLater old new =
      ((text_of new ≡ text_of old) × (revision_of new ≡ revision_of old))
      ⊎ (revision_of old < revision_of new)

  pub same-IsLater : (old : Option TunnelRow) → IsLater old old
  unfolding IsLater
  same-IsLater old = inl (refl, refl)

  pub IsLater-trans : (a b c : Option TunnelRow) → IsLater a b → IsLater b c → IsLater a c
  unfolding IsLater
  IsLater-trans a b c (inl (t, r)) (inl (t', r')) = inl (t' ∙ t, r' ∙ r)
  IsLater-trans a b c (inl (t, r)) (inr h) = inr (omega (arith, r, h))
  IsLater-trans a b c (inr h) (inl (t, r)) = inr (omega (arith, r, h))
  IsLater-trans a b c (inr h) (inr h') = inr (omega (arith, h, h'))

  -- Setting one row moves every row on where it moves that one on.
  set_row-IsLater :
      (id : Bytes) (row : TunnelRow) (rows : Tunnels)
      → IsLater (rows id) (some row)
      → (id' : Bytes) → IsLater (rows id') (set_row id row rows id')
  unfolding set_row
  set_row-IsLater id row rows h id' = elim (Bool-cases (beq id' id)) [
    | inl e ↦ rw (e, beq→eq id' id e) h
    | inr e ↦ rw e (same-IsLater (rows id'))
  ]

  module _ (rows : Tunnels) (id' : Bytes) where
    save_tunnel-IsLater :
        (t : StoredTunnel) (revision now : ℕ)
        → IsLater (rows id') ((save_tunnel json t revision now rows).0 id')
    unfolding save_tunnel insert_tunnel update_tunnel IsLater revision_of new_row saved_row
    save_tunnel-IsLater t revision now = elim (Option-cases (rows t.id)) [
      | inl e ↦ elim (Bool-cases (revision == 0)) [
        | inl z ↦
            rw (z, e, insert_tunnel) (set_row-IsLater t.id _ rows (rw e (inr (omega arith))) id')
        | inr z ↦ rw (z, e, update_tunnel) (same-IsLater (rows id'))
      ]
      | inr (row, e) ↦ elim (Bool-cases (revision == 0)) [
        | inl z ↦ rw (z, e, insert_tunnel) (same-IsLater (rows id'))
        | inr z ↦ elim (Bool-cases (row.revision == revision)) [
          | inl r ↦
              rw (z, e, update_tunnel, r)
                (set_row-IsLater t.id _ rows (rw e (inr (omega arith))) id')
          | inr r ↦ rw (z, e, update_tunnel, r) (same-IsLater (rows id'))
        ]
      ]
    ]

    put_tunnel-IsLater :
        (t : StoredTunnel) (now : ℕ) → IsLater (rows id') (put_tunnel json t now rows id')
    unfolding put_tunnel IsLater revision_of new_row saved_row
    put_tunnel-IsLater t now = elim (Option-cases (rows t.id)) [
      | inl e ↦ rw (e, put_tunnel) (set_row-IsLater t.id _ rows (rw e (inr (omega arith))) id')
      | inr (row, e) ↦
          rw (e, put_tunnel) (set_row-IsLater t.id _ rows (rw e (inr (omega arith))) id')
    ]

    try_import-IsLater :
        (t : StoredTunnel) (at : Option ℕ) (force : Bool) (now : ℕ)
        → IsLater (rows id') ((try_import json t at force now rows).0 id')
    unfolding try_import IsLater revision_of new_row imported_row saved_row
    try_import-IsLater t at force now = elim (Option-cases (rows t.id)) [
      | inl e ↦ rw (e, try_import) (set_row-IsLater t.id _ rows (rw e (inr (omega arith))) id')
      | inr (row, e) ↦ elim (Bool-cases (row.local_update && not force)) [
        | inl k ↦ rw (e, try_import, k) (same-IsLater (rows id'))
        | inr k ↦ elim (Bool-cases (beq row.text (json t))) [
          | inl s ↦ rw (e, try_import, k, s) (same-IsLater (rows id'))
          | inr s ↦
              rw (e, try_import, k, s) (set_row-IsLater t.id _ rows (rw e (inr (omega arith))) id')
        ]
      ]
    ]

    set_alarm-IsLater : (id : Bytes) (at : Option ℕ) → IsLater (rows id') (set_alarm id at rows id')
    unfolding set_alarm IsLater revision_of text_of
    set_alarm-IsLater id at = elim (Option-cases (rows id)) [
      | inl e ↦ rw (e, set_alarm) (same-IsLater (rows id'))
      | inr (row, e) ↦ rw (e, set_alarm) (set_row-IsLater id _ rows (rw e (inl (refl, refl))) id')
    ]

    clear_alarm-IsLater :
        (id : Bytes) (at : ℕ) → IsLater (rows id') ((clear_alarm id at rows).0 id')
    unfolding clear_alarm
    clear_alarm-IsLater id at = elim (Bool-cases (is_alarm at (alarm id rows))) [
      | inl e ↦ rw e (set_alarm-IsLater id none)
      | inr e ↦ rw e (same-IsLater (rows id'))
    ]

  pub Step-IsLater :
      {rows rows' : Tunnels} (id : Bytes) → Step rows rows' → IsLater (rows id) (rows' id)
  Step-IsLater {rows} id (saves t revision now) = save_tunnel-IsLater rows id t revision now
  Step-IsLater {rows} id (puts t now) = put_tunnel-IsLater rows id t now
  Step-IsLater {rows} id (imports t at force now) = try_import-IsLater rows id t at force now
  Step-IsLater {rows} id (sets_alarm id' at) = set_alarm-IsLater rows id id' at
  Step-IsLater {rows} id (clears_alarm id' at) = clear_alarm-IsLater rows id id' at

  pub Steps-IsLater :
      {rows rows' : Tunnels} (id : Bytes) → Steps rows rows' → IsLater (rows id) (rows' id)
  Steps-IsLater {rows} id here = same-IsLater (rows id)
  Steps-IsLater {rows} id (next rest step) =
      IsLater-trans (rows id) _ _ (Steps-IsLater id rest) (Step-IsLater id step)
