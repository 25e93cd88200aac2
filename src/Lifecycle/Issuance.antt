-- ===== src/Lifecycle/Issuance.antt =====
-- The job of a certificate: `ensure_issuance`, `job_added`, `announce`, and `set_alarm`.
use opentunnel.Prelude.{ℕ, Bool, true, false, Option, none, some, Bytes}
use opentunnel.Record.{StoredTunnel, Renewal, identifiers}
use opentunnel.Store.Jobs.{Job, JobKind, renew, add_job}
use opentunnel.Store.Tunnels.{set_alarm}
use opentunnel.Lifecycle.World.{
  External, Tables, Effect, job_enqueued, jobs_woken, alarms_woken, missing_id, missing_csr, Op,
  ◌>>=◌, ◌>>◌, return, fail, read_now, emit, call,
}

unfoldable pub renewal_id : Option Renewal → Option Bytes
renewal_id none = none
renewal_id (some r) = some r.certificate_id

unfoldable pub insert_job : Job → ℕ → Tables → Tables × Bool
unfolding add_job
insert_job job run_at tables =
    let (jobs, added) = add_job job run_at tables.jobs in (record tables { jobs = jobs }, added)

unfoldable pub required : Option Bytes → Op Bytes → Op Bytes
unfolding return
required none otherwise = otherwise
required (some text) otherwise = return text

unfoldable pub issuance_id : StoredTunnel → JobKind → Option Bytes
unfolding renewal_id
issuance_id t renew = renewal_id t.renewal
issuance_id t _ = t.certificate_id

unfoldable pub alarm_row : Bytes → Option ℕ → Tables → Tables × Unit {0}
unfolding set_alarm
alarm_row id at tables = (record tables { tunnels = set_alarm id at tables.tunnels }, tt)

-- `Service::set_alarm`.
unfoldable pub set_alarm_at : Bytes → Option ℕ → Op (Unit {0})
unfolding ◌>>◌ ◌>>=◌ call alarm_row emit
set_alarm_at id at = do call (alarm_row id at); emit alarms_woken

unfoldable pub issuance_job : StoredTunnel → JobKind → Bytes → Bytes → ℕ → Job
unfolding identifiers
issuance_job t kind certificate_id csr created_at = record {
  certificate_id = certificate_id;
  tunnel_id = some t.id;
  kind = kind;
  identifiers = identifiers t;
  csr = csr;
  attempts = 0;
  created_at = created_at;
}

module _ (x : External) where
  -- A mesh event, where there are other machines.
  unfoldable pub announce : Effect → Op (Unit {0})
  unfolding emit return
  announce e = elim x.clustered [ true ↦ emit e | false ↦ return tt ]

  unfoldable pub job_added : Op (Unit {0})
  unfolding ◌>>◌ ◌>>=◌ emit announce
  job_added = do emit jobs_woken; announce job_enqueued

  unfoldable pub ensure_issuance : StoredTunnel → JobKind → Op (Unit {0})
  unfolding ◌>>=◌ required issuance_id fail issuance_job read_now call insert_job job_added return
  ensure_issuance t kind = do
    certificate_id ← required (issuance_id t kind) (fail missing_id)
    csr ← required t.certificate_csr (fail missing_csr)
    created_at ← read_now
    run_at ← read_now
    added ← call (insert_job (issuance_job t kind certificate_id csr created_at) run_at)
    elim added [ true ↦ job_added | false ↦ return tt ]
