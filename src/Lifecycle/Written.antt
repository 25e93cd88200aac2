-- ===== src/Lifecycle/Written.antt =====
-- `save` as a step of a handler.
use opentunnel.Prelude.{ℕ, ◌≡◌, refl, subst, inl, inr, false, Option, none, some, Bytes}
use opentunnel.Record.{StoredTunnel}
use opentunnel.Store.Tunnels.{TunnelRow}
use opentunnel.Store.Revisions.{text_of, revision_of}
use opentunnel.Lifecycle.World.{
  External, Tables, Cached, World, Op, ◌>>=◌, ◌>>◌, fail, read_cached, write_cached, call,
}
use opentunnel.Lifecycle.Saves.{save_row, saved_to, save}
use opentunnel.Lifecycle.Spec.{IsSound, IsWell, RowOk, Holds, KnownOk, text_from}
use opentunnel.Lifecycle.Triples.{At, After, Triple, bind, read_now-Triple}
use opentunnel.Lifecycle.Steps.{after_statement, moved-IsSound, call-Triple}
use opentunnel.Lifecycle.Saving.{Allowed, Saved, Done, save_done}

-- The entry holds this record.
abbrev pub HasRecord : Option StoredTunnel → Cached → Type 0
HasRecord o s = s.record_of ≡ o

module _ (x : External) (base : Tables) (id : Bytes) where
  pub given :
      {A : Type 0} {P : Type 0} {Pre : World → Type 0} {Mid : A → World → Type 0} {m : Op A}
      → (P → Triple x base id Pre m Mid)
      → Triple x base id (λ w. P × Pre w) m Mid
  given h = record { run = λ w p. (h p.0).run w p.1 }

  read_again-Triple :
      {C : Cached → Type 0}
      → Triple x base id (At x base id C) read_cached (λ s w. C s × At x base id (λ s'. s' ≡ s) w)
  unfolding After read_cached
  read_again-Triple = record { run = λ w h. (h.about, record { sound = h.sound; about = refl }) }

  module _ (t : StoredTunnel) (well : IsWell x id t) where
    done :
        (s : Cached) (now : ℕ) (w : World)
        → Allowed s.record_of t
        → At x base id (λ s'. s' ≡ s) w
        → Done x t id w.tables (save_row x t s.revision now w.tables)
    done s now w fine h =
        subst
          (λ i.
            IsWell x i t
            → Holds x s (w.tables.tunnels i)
            → Done x t i w.tables (save_row x t s.revision now w.tables))
          well.keyed (λ well' holds. save_done x t s now w.tables h.sound.stored well' holds fine)
          well (rw h.about at h.sound.holds)

    save_row-Triple :
        (s : Cached) (now : ℕ)
        → Allowed s.record_of t
        → Triple x base id
            (At x base id (λ s'. s' ≡ s))
            (call (save_row x t s.revision now))
            (λ saved w. IsSound x base id w × Saved x t saved (w.tables.tunnels id))
    save_row-Triple s now fine =
        call-Triple x base id (save_row x t s.revision now) _ _ keeps
          (λ w h. (keeps w h, unfold after_statement in (done s now w fine h).1))
      where
        keeps :
            (w : World)
            → At x base id (λ s'. s' ≡ s) w
            → IsSound x base id (after_statement (save_row x t s.revision now) w)
        keeps w h =
            let ((stored, moved), saved) = done s now w fine h in
            unfold after_statement in
            moved-IsSound x base id w (save_row x t s.revision now w.tables).0 stored moved h.sound

    -- Where nothing is known of the record, the row has a revision or is not there.
    nothing-Holds :
        (s : Cached) (row : Option TunnelRow)
        → RowOk x id row
        → Holds x (record s { loaded = false; record_of = none; revision = 0 }) row
    unfolding Holds RowOk text_of revision_of text_from
    nothing-Holds s none h = inl (refl, refl)
    nothing-Holds s (some row) (t', text, well', positive) = inr positive

    saved_to-Triple :
        (s : Cached) (saved : Option ℕ)
        → Triple x base id
            (λ w. IsSound x base id w × Saved x t saved (w.tables.tunnels id))
            (saved_to t s saved)
            (λ _. At x base id (HasRecord (some t)))
    unfolding saved_to ◌>>◌ ◌>>=◌ write_cached fail After Saved Holds KnownOk text_from
    saved_to-Triple s none = record {
      run = λ w h. record {
        fair = h.0.fair;
        stored = h.0.stored;
        moved = h.0.moved;
        holds = nothing-Holds s (w.tables.tunnels id) (h.0.stored.rows id);
        known = tt;
      };
    }
    saved_to-Triple s (some revision) = record {
      run = λ w h. record {
        sound = record {
          fair = h.0.fair;
          stored = h.0.stored;
          moved = h.0.moved;
          holds = inl h.1;
          known = well;
        };
        about = refl;
      };
    }

    pub save-Triple :
        (o : Option StoredTunnel)
        → Allowed o t
        → Triple x base id
            (At x base id (HasRecord o))
            (save x t)
            (λ _. At x base id (HasRecord (some t)))
    unfolding save
    save-Triple o fine = bind read_again-Triple (λ s. given (λ e.
        bind read_now-Triple
          (λ now. bind (save_row-Triple s now (rw e fine)) (λ saved. saved_to-Triple s saved))))
