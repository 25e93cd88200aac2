-- ===== src/Store/Saves.antt =====
-- `save_tunnel` while other machines write.
use opentunnel.Prelude.{
  ℕ, ◌+◌, ◌<◌, ◌==◌, ◌≡◌, refl, ap, inl, inr, false, none, some, arith, Bytes, beq_refl, Bool-cases,
  Option-cases, ==_iff,
}
use opentunnel.Record.{StoredTunnel}
use opentunnel.Store.Tunnels.{
  Tunnels, set_row, new_row, saved_row, insert_tunnel, update_tunnel, save_tunnel,
}
use opentunnel.Store.Revisions.{revision_of, text_of, Steps, IsLater, Steps-IsLater}

module _ (json : StoredTunnel → Bytes) where
  -- A save that succeeds found the revision that it names, and leaves its record at the next.
  module _ (t : StoredTunnel) (revision now revision' : ℕ) (rows : Tunnels) where
    save_tunnel_saves :
        (save_tunnel json t revision now rows).1 ≡ some revision'
        → (revision_of (rows t.id) ≡ revision)
          × (revision' ≡ revision + 1)
          × (text_of ((save_tunnel json t revision now rows).0 t.id) ≡ some (json t))
          × (revision_of ((save_tunnel json t revision now rows).0 t.id) ≡ revision')
    unfolding save_tunnel insert_tunnel update_tunnel revision_of text_of new_row saved_row set_row
    save_tunnel_saves h = elim (Option-cases (rows t.id)) [
      | inl e ↦ elim (Bool-cases (revision == 0)) [
        | inl z ↦
            let one : revision' ≡ 1 = let h' = rw (z, e, insert_tunnel) at h in cc h' in
            let zero_ : revision ≡ 0 = (==_iff revision 0).0 z in
            rw (zero_, one, e, insert_tunnel, beq_refl t.id) (refl, refl, refl, refl)
        | inr z ↦ absurd (cc (rw (z, e, update_tunnel) at h))
      ]
      | inr (row, e) ↦ elim (Bool-cases (revision == 0)) [
        | inl z ↦ absurd (cc (rw (z, e, insert_tunnel) at h))
        | inr z ↦ elim (Bool-cases (row.revision == revision)) [
          | inl r ↦
              let more : revision' ≡ revision + 1 =
                let h' = rw (z, e, update_tunnel, r) at h in cc h' in
              let same : row.revision ≡ revision = (==_iff row.revision revision).0 r in
              rw (z, e, update_tunnel, r, more, beq_refl t.id)
                (same, refl, refl, ap (λ n. n + 1) same)
          | inr r ↦ absurd (cc (rw (z, e, update_tunnel, r) at h))
        ]
      ]
    ]

-- No update is lost: a save at the revision that was read succeeds only where the record is still the
-- one that was read, whatever all machines did in between. It then stores the new record, at the next
-- revision.
pub save_tunnel_unlost :
    (json : StoredTunnel → Bytes) (t : StoredTunnel) (now revision' : ℕ) (rows rows' : Tunnels)
    → Steps json rows rows'
    → (save_tunnel json t (revision_of (rows t.id)) now rows').1 ≡ some revision'
    → (text_of (rows' t.id) ≡ text_of (rows t.id))
      × (revision' ≡ revision_of (rows t.id) + 1)
      × (text_of ((save_tunnel json t (revision_of (rows t.id)) now rows').0 t.id) ≡ some (json t))
      × (revision_of ((save_tunnel json t (revision_of (rows t.id)) now rows').0 t.id) ≡ revision')
unfolding IsLater
save_tunnel_unlost json t now revision' rows rows' steps h =
    let (found, next, text, revision) =
      save_tunnel_saves json t (revision_of (rows t.id)) now revision' rows' h in
    elim (Steps-IsLater json t.id steps) [
      | inl same ↦ (same.0, next, text, revision)
      | inr more ↦ absurd (omega (arith, found, more))
    ]

save_tunnel_conflict :
    (json : StoredTunnel → Bytes) (u : StoredTunnel) (revision now : ℕ) (rows : Tunnels)
    → revision < revision_of (rows u.id)
    → save_tunnel json u revision now rows ≡ (rows, none)
unfolding save_tunnel insert_tunnel update_tunnel revision_of
save_tunnel_conflict json u revision now rows h = elim (Option-cases (rows u.id)) [
  | inl e ↦ absurd (let h' = rw e at h in omega (arith, h'))
  | inr (row, e) ↦ elim (Bool-cases (revision == 0)) [
    | inl z ↦ rw (z, e, insert_tunnel) refl
    | inr z ↦
        let old : (row.revision == revision) ≡ false = let h' = rw e at h in ground arith in
        rw (z, e, update_tunnel, old) refl
  ]
]

-- Of the writers that read one revision of a record, one succeeds: once it did, each later save at that
-- revision is a conflict, and changes nothing.
pub save_tunnel_once :
    (json : StoredTunnel → Bytes) (t u : StoredTunnel) (revision revision' now later : ℕ)
    (rows rows' : Tunnels)
    → t.id ≡ u.id
    → (save_tunnel json t revision now rows).1 ≡ some revision'
    → Steps json (save_tunnel json t revision now rows).0 rows'
    → save_tunnel json u revision later rows' ≡ (rows', none)
unfolding IsLater
save_tunnel_once json t u revision revision' now later rows rows' same h steps =
    let (found, next, text, at) = save_tunnel_saves json t revision now revision' rows h in
    save_tunnel_conflict json u revision later rows' (
      rw (← same) (elim (Steps-IsLater json t.id steps) [
        | inl kept ↦ omega (arith, next, at, kept.1)
        | inr more ↦ omega (arith, next, at, more)
      ]))
