-- ===== src/Lifecycle/Overwrites.antt =====
-- Lemmas on what a save writes over.
use opentunnel.Prelude.{
  ℕ, ◌≡◌, refl, subst, Option, none, some, List, [], ◌∷◌, Bytes, Option-cases, inr, inl,
}
use opentunnel.Record.{StoredTunnel}
use opentunnel.Store.Revisions.{text_of}
use opentunnel.Lifecycle.World.{
  External, Tables, Fault, answered, refused, lost, Outside, Cached, World, ok, ◌>>=◌, ◌>>◌,
  continue_with, fail, read_cached, read_now, write_cached, faulty, arrive, call_with, call,
}
use opentunnel.Lifecycle.Saves.{save_row, saved_to, save}
use opentunnel.Lifecycle.Spec.{IsSound, IsWell, Holds, text_from}
use opentunnel.Lifecycle.Steps.{arrive-IsSound}
use opentunnel.Lifecycle.Saving.{saved_over}

-- The world when the next statement runs.
unfoldable pub arrived : List Outside → World → World
unfolding arrive
arrived [] w = w
arrived (o ∷ rest) w = arrive o rest w

unfoldable pub fault_of : List Outside → Fault
fault_of [] = answered
fault_of (o ∷ rest) = o.fault

module _ (x : External) (base : Tables) (id : Bytes) (t : StoredTunnel) (well : IsWell x id t) where
  call-faulty :
      {A : Type 0} (st : Tables → Tables × A) (os : List Outside) (w : World)
      → call_with os st w ≡ faulty (fault_of os) st (arrived os w)
  unfolding call_with fault_of arrived
  call-faulty st [] w = refl
  call-faulty st (o ∷ rest) w = refl

  arrived-IsSound :
      (os : List Outside) (w : World)
      → w.outside ≡ os
      → IsSound x base id w
      → IsSound x base id (arrived os w)
  unfolding arrived
  arrived-IsSound [] w e h = h
  arrived-IsSound (o ∷ rest) w e h = arrive-IsSound x base id o rest w e h

  arrived-cached : (os : List Outside) (w : World) → (arrived os w).cached ≡ w.cached
  unfolding arrived arrive
  arrived-cached [] w = refl
  arrived-cached (o ∷ rest) w = refl

  -- A save that succeeds was answered, and its statement wrote a row.
  ok_saved :
      (s : Cached) (f : Fault) (st : Tables → Tables × Option ℕ) (w w' : World)
      → continue_with (saved_to t s) (faulty f st w) ≡ (w', ok tt)
      → (revision : ℕ) × ((st w.tables).1 ≡ some revision)
  unfolding continue_with faulty
  ok_saved s refused st w w' e = absurd (cc e)
  ok_saved s lost st w w' e = absurd (cc e)
  ok_saved s answered st w w' e = elim (Option-cases (st w.tables).1) [
    | inl n ↦ absurd (not_saved s w w' (st w.tables).0 (rw n at e))
    | inr found ↦ found
  ]
    where
      not_saved :
          (s : Cached) (w w' : World) (tables : Tables)
          → ¬ (saved_to t s none (record w { tables = tables }) ≡ (w', ok tt))
      not_saved s w w' tables e = unfold saved_to ◌>>◌ ◌>>=◌ write_cached fail continue_with in cc e

  row_over :
      (s : Cached) (now : ℕ) (w : World)
      → IsSound x base id w
      → w.cached ≡ s
      → (revision : ℕ) → (save_row x t s.revision now w.tables).1 ≡ some revision
      → text_of (w.tables.tunnels id) ≡ text_from x s.record_of
  row_over s now w h e revision saved =
      subst
        (λ i.
          Holds x s (w.tables.tunnels i) → text_of (w.tables.tunnels i) ≡ text_from x s.record_of)
        well.keyed (λ holds. saved_over x t s now w.tables holds revision saved) (rw e at h.holds)

  -- Where all was in order before, a save that succeeds finds in the table the record that the entry held, whatever
  -- other machines did before its statement.
  pub save_over :
      (w w' : World)
      → IsSound x base id w
      → save x t w ≡ (w', ok tt)
      → text_of ((arrived w.outside w).tables.tunnels id) ≡ text_from x w.cached.record_of
  unfolding save ◌>>=◌ continue_with read_cached read_now call
  save_over w w' h e =
      let e' : continue_with (saved_to t w.cached)
            (call_with w.outside (save_row x t w.cached.revision w.now) w)
          ≡ (w', ok tt) =
        e in
      let (revision, saved) =
        ok_saved w.cached (fault_of w.outside) (save_row x t w.cached.revision w.now)
          (arrived w.outside w) w'
          (rw (call-faulty (save_row x t w.cached.revision w.now) w.outside w) at e') in
      row_over w.cached w.now (arrived w.outside w) (arrived-IsSound w.outside w refl h)
        (arrived-cached w.outside w) revision saved
