-- ===== src/Store/Writes.antt =====
-- Runs of the statements on tunnels, and the theorems applied to them.
use opentunnel.Prelude.{
  ℕ, ◌+◌, ◌≡◌, refl, min, false, none, some, List, [], ◌∷◌, Bytes, codes, All, take,
}
use opentunnel.Record.{StoredTunnel, offline}
use opentunnel.Store.Tunnels.{
  Tunnels, save_tunnel, try_import, inserted, kept_local, set_alarm, clear_all, due_count,
  alarm_limit, take_due_alarms_and_next,
}
use opentunnel.Store.Revisions.{revision_of, text_of, here, next, sets_alarm}
use opentunnel.Store.Saves.{save_tunnel_unlost, save_tunnel_once}
use opentunnel.Store.Alarms.{
  IsQuiet, KeepsAlarms, AllTaken, clear_all_once, IsDue, take_alarms_timely,
}

abbrev tunnel : StoredTunnel
tunnel = record {
  version = 1;
  id = codes "abc";
  hostname = codes "abc.opentunnel.xyz";
  state = offline;
  certificate_id = none;
  token_hash = codes "hash";
  created_at = codes "2026-10-01T00:00:00Z";
  deleted_at = none;
  certificate = none;
  certificate_csr = none;
  certificate_identifiers = none;
  certificate_started_at = none;
  last_connected_at = none;
  renewal = none;
}

-- A text that tells the records here apart.
abbrev json : StoredTunnel → Bytes
json t = t.token_hash

abbrev no_tunnels : Tunnels
no_tunnels id = none

abbrev stored : Tunnels
stored = (save_tunnel json tunnel 0 10 no_tunnels).0

abbrev changed : StoredTunnel
changed = record tunnel { token_hash = codes "other" }

imports_keep_local :
    ((try_import json changed none false 20 stored).1 ≡ kept_local)
    × ((try_import json changed none false 20 no_tunnels).1 ≡ inserted)
unfolding try_import save_tunnel
imports_keep_local = (refl, refl)

save_tunnel_unlost_example :
    (text_of ((set_alarm (codes "abc") (some 5) stored) (codes "abc"))
      ≡ text_of (stored (codes "abc")))
    × (2 ≡ revision_of (stored (codes "abc")) + 1)
    × (text_of (
          (save_tunnel json changed
              (revision_of (stored (codes "abc")))
              20
              (set_alarm (codes "abc") (some 5) stored)).0
            (codes "abc"))
        ≡ some (json changed))
    × (revision_of (
          (save_tunnel json changed
              (revision_of (stored (codes "abc")))
              20
              (set_alarm (codes "abc") (some 5) stored)).0
            (codes "abc"))
        ≡ 2)
unfolding save_tunnel revision_of set_alarm
save_tunnel_unlost_example =
    save_tunnel_unlost json changed 20 2 stored (set_alarm (codes "abc") (some 5) stored)
      (next here (sets_alarm (codes "abc") (some 5))) refl

save_tunnel_once_example :
    save_tunnel json tunnel 1 30 (save_tunnel json changed 1 20 stored).0
    ≡ ((save_tunnel json changed 1 20 stored).0, none)
unfolding save_tunnel
save_tunnel_once_example =
    save_tunnel_once json changed tunnel 1 2 20 30 stored (save_tunnel json changed 1 20 stored).0
      refl refl here

abbrev due : List (Bytes × ℕ)
due = (codes "abc", 5) ∷ (codes "def", 70) ∷ []

abbrev alarmed : Tunnels
alarmed = set_alarm (codes "abc") (some 5) stored

abbrev same : ℕ → Tunnels → Tunnels
same n rows = rows

same-IsQuiet : IsQuiet (λ rows. rows)
unfolding IsQuiet
same-IsQuiet d rows h = h

takes_due : (take_due_alarms_and_next same 10 due alarmed).1 ≡ codes "abc" ∷ []
unfolding take_due_alarms_and_next set_alarm save_tunnel
takes_due = refl

same-KeepsAlarms : KeepsAlarms (λ rows. rows)
unfolding KeepsAlarms
same-KeepsAlarms id rows = refl

clear_all_once_example :
    ((clear_all same due (clear_all same due alarmed).0).1 ≡ [])
    × AllTaken due alarmed (clear_all same due alarmed).1
clear_all_once_example =
    clear_all_once same same same (λ rows. rows) (λ n. same-IsQuiet) (λ n. same-IsQuiet)
      (λ n. same-KeepsAlarms) same-IsQuiet due alarmed

take_alarms_timely_example :
    All
      (IsDue 10 (take (min (due_count 10 due) alarm_limit) due))
      (take_due_alarms_and_next same 10 due alarmed).1
take_alarms_timely_example = take_alarms_timely same 10 due alarmed
