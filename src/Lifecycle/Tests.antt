-- ===== src/Lifecycle/Tests.antt =====
-- Runs and instances of the statements about the life of a record.
mod Codec
use opentunnel.Lifecycle.Outcomes.{records_move}
use opentunnel.Lifecycle.Machines.{
  Event, requested, resumed_orphans, retried, run_events, run_event, request_at, AllSound,
  run_events-AllSound,
}
use opentunnel.Lifecycle.Requests.{creates, binds, reports, alarms, removes, handle, left_by}
use opentunnel.Lifecycle.Sweeps.{Entries}
use opentunnel.Lifecycle.Staleness.{IsRecent, lock_routable-IsRecent}
use opentunnel.Lifecycle.Refusals.{refused_unchanged, refuses}
use opentunnel.Lifecycle.Bound.{HasJob}
use opentunnel.Lifecycle.Promises.{bound-HasJob}
use opentunnel.Lifecycle.Issuance.{
  ensure_issuance, required, issuance_id, issuance_job, insert_job, job_added, announce,
}
use opentunnel.Lifecycle.Cache.{lock_fresh, if_loaded, lock, live, is_ready, lock_routable}
use opentunnel.Lifecycle.Bind.{
  bind_certificate, bound, unauthorized, bind_names, any_foreign, wildcard, bind_request, resumed,
  same_csr, busy, within_limits, start_issuance, issuing_tunnel, issuance_started,
}
use opentunnel.Lifecycle.Overwrites
use opentunnel.Record
use opentunnel.Prelude.{
  ℕ, ◌≡◌, refl, inl, inr, Bool, true, false, Option, none, some, List, [], ◌∷◌, ◌++◌, Bytes, codes,
  beq, arith, ◌⊎◌, All, if◌then◌else◌, Bool-cases, beq→eq,
}
use opentunnel.Record.{
  StoredTunnel, CertificateInfo, CertificateState, issuing, ready, is_deleted, is_some, identifiers,
}
use opentunnel.Store.Jobs.{issue, find_job, add_job, job_row}
use opentunnel.Store.Tunnels.{
  Tunnels, TunnelRow, save_tunnel, insert_tunnel, update_tunnel, new_row, saved_row, set_row,
  record_flags,
}
use opentunnel.Store.Revisions.{text_of, revision_of}
use opentunnel.Lifecycle.World.{
  External, CsrRequest, Tables, Outside, answered, refused, lost, Cached, World, Result, ok, err,
  Error, Effect, ◌>>=◌, ◌>>◌, continue_with, return, fail, attempt, from_result, read_cached,
  write_cached, read_now, emit, faulty, arrive, call_with, call,
}
use opentunnel.Lifecycle.Saves.{save_row, saved_to, save}
use opentunnel.Lifecycle.Api.{hostname_of, new_tunnel, remove}
use opentunnel.Lifecycle.Changes.{new_tunnel-IsWell, new_tunnel-IsNew}
use opentunnel.Lifecycle.Spec.{
  IsSound, TablesOk, RowOk, JobOk, Moves, IsFair, Holds, KnownOk, text_from, unchanged, IsWell,
}
use opentunnel.Lifecycle.Triples.{Moves-refl}
use opentunnel.Lifecycle.Overwrites.{save_over}
use opentunnel.Lifecycle.Tests.Codec.{tunnel_text, tunnel_from, tunnel_from_text}

abbrev message_of : Error → Bytes
message_of e = codes "error"

abbrev example : External
example = record {
  domain = codes "d";
  clustered = true;
  json = tunnel_text;
  from_json = tunnel_from;
  token_matches = beq;
  parse_csr = λ csr. some (record { hostname = csr; identifiers = csr ∷ [] });
  iso = λ now. now ∷ [];
  parse_iso = λ text. elim text [ [] ↦ none | c ∷ rest ↦ some c ];
  message = message_of;
}

abbrev example_id : Bytes
example_id = codes "t"

abbrev unread : Cached
unread = record {
  loaded = false;
  record_of = none;
  revision = 0;
  checked_at = 0;
  stale = false;
  generation = 0;
  alarm = none;
  attached = false;
}

abbrev no_tables : Tables
no_tables = record { tunnels = λ id. none; jobs = [] }

-- The others do nothing, a minute passes, and the first answer arrives.
abbrev quiet : Outside
quiet = record { elapsed = 60000; forgotten = 0; others = λ tables. tables; fault = answered }

abbrev start : World
start = record {
  cached = unread;
  refresh_failed_at = 0;
  current = 0;
  tables = no_tables;
  now = 100000000;
  outside = quiet ∷ quiet ∷ [];
  effects = [];
}

no_tables-TablesOk : TablesOk example no_tables
unfolding RowOk
no_tables-TablesOk = record { rows = λ id. tt; jobs = tt }

quiet-IsFair : IsFair example quiet
unfolding IsFair
quiet-IsFair t h = (h, Moves-refl example t)

start-IsSound : IsSound example no_tables example_id start
unfolding Holds text_of revision_of text_from KnownOk
start-IsSound = record {
  fair = (quiet-IsFair, (quiet-IsFair, tt));
  stored = no_tables-TablesOk;
  moved = Moves-refl example no_tables;
  holds = inl (refl, refl);
  known = tt;
}

abbrev tunnel : StoredTunnel
tunnel = record {
  version = 1;
  id = example_id;
  hostname = codes "t.d";
  state = Record.offline;
  certificate_id = none;
  token_hash = codes "k";
  created_at = 7 ∷ [];
  deleted_at = none;
  certificate = none;
  certificate_csr = none;
  certificate_identifiers = none;
  certificate_started_at = none;
  last_connected_at = none;
  renewal = none;
}

tunnel_new : new_tunnel example example_id (codes "k") 7 ≡ tunnel
unfolding new_tunnel hostname_of
tunnel_new = refl

saved : save example tunnel start ≡ ((save example tunnel start).0, ok tt)
unfolding save ◌>>=◌ continue_with read_cached read_now call call_with arrive faulty save_row
    save_tunnel insert_tunnel new_row set_row saved_to write_cached
saved = refl

save_over_example :
    text_of ((Overwrites.arrived start.outside start).tables.tunnels example_id)
    ≡ text_from example none
save_over_example =
    save_over example no_tables example_id tunnel
      (rw tunnel_new at (new_tunnel-IsWell example example_id (codes "k") 7)) start
      (save example tunnel start).0 start-IsSound saved

-- A single machine, with the record in the entry.
abbrev alone : External
alone = record example { clustered = false }

abbrev tunnel_row : TunnelRow
tunnel_row = record {
  text = tunnel_text tunnel;
  revision = 1;
  deleted = false;
  issuing_ = false;
  alarm_at = none;
  updated_at = 7;
  imported_at = none;
  local_update = true;
}

abbrev held : Cached
held = record unread { loaded = true; record_of = some tunnel; revision = 1 }

abbrev tables : Tables
tables = record { tunnels = λ id. if beq id example_id then some tunnel_row else none; jobs = [] }

abbrev serving : World
serving = record start { cached = held; tables = tables; outside = [] }

tunnel-IsWell : IsWell alone example_id tunnel
tunnel-IsWell = rw tunnel_new' at (new_tunnel-IsWell alone example_id (codes "k") 7)
  where
    tunnel_new' : new_tunnel alone example_id (codes "k") 7 ≡ tunnel
    tunnel_new' = unfold new_tunnel hostname_of in refl

tables-TablesOk : TablesOk alone tables
unfolding RowOk
tables-TablesOk = record { rows = at; jobs = tt }
  where
    at : (id : Bytes) → RowOk alone id (tables.tunnels id)
    at id = elim (Bool-cases (beq id example_id)) [
      | inl e ↦
          rw (e, beq→eq id example_id e)
            (unfold RowOk in (tunnel, refl, tunnel-IsWell, omega arith))
      | inr e ↦ rw e (unfold RowOk in tt)
    ]

serving-IsSound : IsSound alone tables example_id serving
unfolding Holds text_of revision_of text_from KnownOk
serving-IsSound = record {
  fair = tt;
  stored = tables-TablesOk;
  moved = Moves-refl alone tables;
  holds = inl (refl, refl);
  known = tunnel-IsWell;
}

abbrev csr : Bytes
csr = codes "t.d"

abbrev certificate_id : Bytes
certificate_id = codes "c"

abbrev issued : CertificateInfo
issued = record { id = certificate_id; state = issuing }

bound_now :
    (bind_certificate alone none certificate_id example_id (codes "k") csr serving).1
    ≡ ok (bound issued)
unfolding bind_certificate lock_fresh if_loaded lock live is_deleted is_some bind_names any_foreign
    wildcard bind_request resumed same_csr busy within_limits start_issuance issuing_tunnel
    issuance_started ensure_issuance required issuance_id issuance_job insert_job add_job find_job
    job_row job_added announce attempt emit return read_now save ◌>>=◌ ◌>>◌ continue_with
    read_cached call call_with faulty save_row save_tunnel insert_tunnel update_tunnel saved_row
    set_row saved_to write_cached identifiers
bound_now = refl

bound-HasJob_example :
    HasJob certificate_id
      (bind_certificate alone none certificate_id example_id (codes "k") csr serving).0
bound-HasJob_example =
    bound-HasJob alone tables example_id tunnel_from_text none certificate_id (codes "k") csr
      serving issued serving-IsSound bound_now

locked : lock_fresh alone example_id serving ≡ (serving, ok tt)
unfolding lock_fresh if_loaded lock ◌>>=◌ continue_with read_cached return
locked = refl

refused_now :
    (bind_certificate alone none certificate_id example_id (codes "wrong") csr serving).1
    ≡ ok unauthorized
unfolding bind_certificate lock_fresh if_loaded lock live is_deleted is_some ◌>>=◌ ◌>>◌
    continue_with read_cached return
refused_now = refl

refused_unchanged_example :
    (bind_certificate alone none certificate_id example_id (codes "wrong") csr serving).0 ≡ serving
refused_unchanged_example =
    refused_unchanged alone none certificate_id example_id (codes "wrong") csr serving serving
      unauthorized locked refused_now (unfold refuses in refl)

lock_routable-IsRecent_example :
    (is_ready example example_id
        (live (lock_routable example example_id true serving).0.cached.record_of)
      ≡ true)
    ⊎ IsRecent 100000000 (lock_routable example example_id true serving).0
lock_routable-IsRecent_example = lock_routable-IsRecent example example_id true serving refl refl

-- All entries of a machine.
abbrev entries : Entries
entries = λ id. unread

all_sound : AllSound example no_tables (entries, start)
unfolding AllSound Holds text_of revision_of text_from KnownOk
all_sound id = record {
  fair = (quiet-IsFair, (quiet-IsFair, tt));
  stored = no_tables-TablesOk;
  moved = Moves-refl example no_tables;
  holds = inl (refl, refl);
  known = tt;
}

-- A tunnel is created, asks for a certificate, which becomes ready, and is renewed and deleted.
abbrev events : List Event
events =
    requested example_id (creates (codes "k"))
    ∷ requested example_id (binds none certificate_id (codes "k") csr)
    ∷ resumed_orphans 0 (example_id ∷ [])
    ∷ requested example_id (reports certificate_id (ready (codes "p") (codes "q") (200 ∷ [])))
    ∷ requested example_id (alarms (codes "e"))
    ∷ retried [] []
    ∷ requested example_id (removes (codes "k"))
    ∷ []

run_events-AllSound_example :
    AllSound example no_tables (run_events example events (entries, start))
run_events-AllSound_example =
    run_events-AllSound example no_tables tunnel_from_text events (entries, start) all_sound

records_move_example : Moves example no_tables (run_events example events (entries, start)).1.tables
records_move_example = records_move example tunnel_from_text events entries start all_sound

-- The entry of a machine that has nothing cached yet, and a request that is refused.
abbrev all_held : Entries
all_held id = if beq id example_id then held else unread

held_sound : AllSound alone tables (all_held, serving)
unfolding AllSound
held_sound id = elim (Bool-cases (beq id example_id)) [
  | inl e ↦ rw (e, beq→eq id example_id e) serving-IsSound
  | inr e ↦ rw e (other id e)
]
  where
    other :
        (id : Bytes)
        → beq id example_id ≡ false
        → IsSound alone tables id (record serving { cached = unread })
    other id e = record {
      fair = tt;
      stored = tables-TablesOk;
      moved = Moves-refl alone tables;
      holds = rw e (unfold Holds text_of revision_of text_from in inl (refl, refl));
      known = unfold KnownOk in tt;
    }

abbrev refused_event : List Event
refused_event = requested example_id (removes (codes "wrong")) ∷ []

text_kept :
    text_of ((run_events alone refused_event (all_held, serving)).1.tables.tunnels example_id)
    ≡ some (tunnel_text tunnel)
unfolding run_events run_event request_at handle left_by remove lock_fresh if_loaded lock live
    is_deleted is_some ◌>>=◌ ◌>>◌ continue_with read_cached return text_of
text_kept = refl
