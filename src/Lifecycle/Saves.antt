-- ===== src/Lifecycle/Saves.antt =====
-- Writing the record: `save`.
use opentunnel.Prelude.{ℕ, false, Option, none, some}
use opentunnel.Record.{StoredTunnel}
use opentunnel.Store.Tunnels.{save_tunnel}
use opentunnel.Lifecycle.World.{
  External, Tables, Cached, conflict, Op, ◌>>=◌, ◌>>◌, fail, read_cached, write_cached, read_now,
  call,
}

unfoldable pub saved_to : StoredTunnel → Cached → Option ℕ → Op (Unit {0})
unfolding ◌>>=◌ ◌>>◌ write_cached fail
saved_to t s (some revision) = write_cached (record s { revision = revision; record_of = some t })
saved_to t s none = do
  write_cached (record s { loaded = false; record_of = none; revision = 0 })
  fail conflict

module _ (x : External) where
  unfoldable pub save_row : StoredTunnel → ℕ → ℕ → Tables → Tables × Option ℕ
  unfolding save_tunnel
  save_row t revision now tables =
      let (rows, saved) = save_tunnel x.json t revision now tables.tunnels in
      (record tables { tunnels = rows }, saved)

  unfoldable pub save : StoredTunnel → Op (Unit {0})
  unfolding ◌>>=◌ read_cached read_now call save_row saved_to
  save t = do
    s ← read_cached
    now ← read_now
    saved ← call (save_row t s.revision now)
    saved_to t s saved
