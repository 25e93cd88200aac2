-- ===== src/Lifecycle/Saving.antt =====
-- Lemmas on the statement of `save`.
use opentunnel.Prelude.{
  ◌+◌, ℕ, ◌<◌, ◌≡◌, ◌⊎◌, refl, inl, inr, arith, true, false, ◌==◌, ==_iff, Option, none, some,
  Bytes, beq_refl, Bool-cases, Option-cases,
}
use opentunnel.Record.{StoredTunnel, is_deleted}
use opentunnel.Store.Tunnels.{
  TunnelRow, set_row, new_row, saved_row, insert_tunnel, update_tunnel, save_tunnel,
}
use opentunnel.Store.Revisions.{text_of, revision_of}
use opentunnel.Lifecycle.World.{External, Tables, Cached}
use opentunnel.Lifecycle.Saves.{save_row}
use opentunnel.Lifecycle.Spec.{
  IsNew, Progress, IsWell, TablesOk, RowOk, Moves, Advances, Evolves, unchanged, changed, created,
  recreated, progressed, Holds, text_from,
}
use opentunnel.Lifecycle.Triples.{Moves-refl}
use opentunnel.Lifecycle.Statements.{set_row-Kept}

-- What may be written over the record that the entry holds.
unfoldable pub Allowed : Option StoredTunnel → StoredTunnel → Type 0
Allowed none t = IsNew t
Allowed (some old) t =
    ((is_deleted old ≡ true) × IsNew t) ⊎ ((is_deleted old ≡ false) × Progress old t)

module _ (x : External) (t : StoredTunnel) where
  -- The row that a save reports.
  unfoldable pub Saved : Option ℕ → Option TunnelRow → Type 0
  Saved none row = Unit {0}
  Saved (some revision) row = (text_of row ≡ some (x.json t)) × (revision_of row ≡ revision)

  allowed-Evolves :
      (o : Option StoredTunnel) (a : Option Bytes)
      → Allowed o t
      → a ≡ text_from x o
      → Evolves x a 1 (some (x.json t))
  unfolding Allowed text_from
  allowed-Evolves none a ok e = rw e (changed unchanged (created t ok))
  allowed-Evolves (some old) a (inl (d, new)) e = rw e (changed unchanged (recreated old t d new))
  allowed-Evolves (some old) a (inr (d, p)) e = rw e (changed unchanged (progressed old t d p))

  -- What a save leaves, of the row with this key.
  abbrev pub Done : Bytes → Tables → Tables × Option ℕ → Type 0
  Done id tables r = (TablesOk x r.0 × Moves x tables r.0) × Saved r.1 (r.0.tunnels id)

  module _ (s : Cached) (now : ℕ) (tables : Tables) (holds : Holds x s (tables.tunnels t.id)) where
    abbrev written : Tables × Option ℕ
    written = save_row x t s.revision now tables

    -- Where no row was found and none is there, the entry holds no record.
    text_at_none :
        tables.tunnels t.id ≡ none
        → s.revision ≡ 0
        → text_of (tables.tunnels t.id) ≡ text_from x s.record_of
    unfolding Holds revision_of
    text_at_none e z = elim holds [
      | inl (text, revision) ↦ text
      | inr later ↦ absurd (later_none (rw (e, z) at later))
    ]
      where
        later_none : ¬ (0 < 0)
        later_none l = omega (arith, l)

    text_at_row :
        (row : TunnelRow)
        → tables.tunnels t.id ≡ some row
        → row.revision ≡ s.revision
        → text_of (tables.tunnels t.id) ≡ text_from x s.record_of
    unfolding Holds revision_of
    text_at_row row e r = elim holds [
      | inl (text, revision) ↦ text
      | inr later ↦ absurd (omega (arith, rw e at later, r))
    ]

    pub saved_over :
        (revision : ℕ)
        → written.1 ≡ some revision
        → text_of (tables.tunnels t.id) ≡ text_from x s.record_of
    unfolding save_row save_tunnel insert_tunnel update_tunnel
    saved_over revision saved = elim (Bool-cases (s.revision == 0)) [
      | inl z ↦ elim (Option-cases (tables.tunnels t.id)) [
        | inl e ↦ text_at_none e ((==_iff s.revision 0).0 z)
        | inr (row, e) ↦ absurd (cc (rw (save_row, save_tunnel, z, insert_tunnel, e) at saved))
      ]
      | inr z ↦ elim (Option-cases (tables.tunnels t.id)) [
        | inl e ↦ absurd (cc (rw (save_row, save_tunnel, z, update_tunnel, e) at saved))
        | inr (row, e) ↦ elim (Bool-cases (row.revision == s.revision)) [
          | inl r ↦ text_at_row row e ((==_iff row.revision s.revision).0 r)
          | inr r ↦ absurd (cc (rw (save_row, save_tunnel, z, update_tunnel, e, r) at saved))
        ]
      ]
    ]

  module _ (s : Cached) (now : ℕ) (tables : Tables) (h : TablesOk x tables) (well : IsWell x t.id t)
      (holds : Holds x s (tables.tunnels t.id)) (ok : Allowed s.record_of t) where
    refused : Done t.id tables (tables, none)
    unfolding Saved
    refused = ((h, Moves-refl x tables), tt)

    set_done :
        (new : TunnelRow)
        → new.text ≡ x.json t
        → 0 < new.revision
        → new.revision ≡ revision_of (tables.tunnels t.id) + 1
        → text_of (tables.tunnels t.id) ≡ text_from x s.record_of
        → Done t.id tables
            (record tables { tunnels = set_row t.id new tables.tunnels }, some new.revision)
    unfolding Saved RowOk Advances text_of revision_of set_row
    set_done new text positive later e = (
      set_row-Kept x t.id new tables (t, text, well, positive)
          (1, later, rw text (allowed-Evolves s.record_of (text_of (tables.tunnels t.id)) ok e)) h,
      rw (beq_refl t.id, set_row) (rw text refl, refl),
    )

    insert_done : s.revision ≡ 0 → Done t.id tables (written s now tables holds)
    unfolding save_row save_tunnel insert_tunnel new_row text_of revision_of
    insert_done z = elim (Option-cases (tables.tunnels t.id)) [
      | inl e ↦
          rw (z, insert_tunnel, e)
            (set_done (new_row x.json t none now none true) refl (omega arith) (rw e (omega arith))
              (text_at_none s now tables holds e z))
      | inr (row, e) ↦ rw (z, insert_tunnel, e) refused
    ]

    update_done : (s.revision == 0) ≡ false → Done t.id tables (written s now tables holds)
    unfolding save_row save_tunnel update_tunnel saved_row text_of revision_of
    update_done z = elim (Option-cases (tables.tunnels t.id)) [
      | inl e ↦ rw (z, update_tunnel, e) refused
      | inr (row, e) ↦ elim (Bool-cases (row.revision == s.revision)) [
        | inl r ↦
            rw (z, update_tunnel, e, r, ← (==_iff row.revision s.revision).0 r)
              (set_done (saved_row x.json t now row) refl (omega arith) (rw e (omega arith))
                (text_at_row s now tables holds row e ((==_iff row.revision s.revision).0 r)))
        | inr r ↦ rw (z, update_tunnel, e, r) refused
      ]
    ]

    pub save_done : Done t.id tables (written s now tables holds)
    save_done = elim (Bool-cases (s.revision == 0)) [
      | inl z ↦ insert_done ((==_iff s.revision 0).0 z)
      | inr z ↦ update_done z
    ]
