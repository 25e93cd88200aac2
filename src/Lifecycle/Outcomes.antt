-- ===== src/Lifecycle/Outcomes.antt =====
-- What holds of the tables after requests of any kind, on any tunnels, with other machines at work.
use opentunnel.Prelude.{◌≡◌, some, List, []}
use opentunnel.Record.{StoredTunnel}
use opentunnel.Lifecycle.World.{External, World}
use opentunnel.Lifecycle.Sweeps.{Entries}
use opentunnel.Lifecycle.Spec.{Moves}
use opentunnel.Lifecycle.Machines.{Event, run_events, AllSound, run_events-AllSound}

module _ (x : External) (reads : (t : StoredTunnel) → x.from_json (x.json t) ≡ some t) where
  -- Where the JSON text of a record is read as that record, and all was in order before: whatever is requested, each
  -- record that the table holds has changed exactly as often as its revision has grown, each time by one step of a
  -- tunnel's life. Other machines may change the tables between the statements, as these rules allow.
  pub records_move :
      (es : List Event) (entries : Entries) (w : World)
      → AllSound x w.tables (entries, w)
      → Moves x w.tables (run_events x es (entries, w)).1.tables
  unfolding AllSound
  records_move es entries w h = (run_events-AllSound x w.tables reads es (entries, w) h []).moved
