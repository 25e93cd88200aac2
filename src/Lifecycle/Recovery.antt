-- ===== src/Lifecycle/Recovery.antt =====
-- Issuance that nothing runs any more: `resume_orphaned_issuance` and `retry_failed_issuance`.
--
-- The loops go over what their queries return, which is an argument; each round locks the tunnel's entry.
use opentunnel.Prelude.{
  ℕ, ◌+◌, ◌-◌, ◌*◌, ◌/◌, Bool, true, false, not, ◌&&◌, ◌||◌, Option, none, some, List, [], ◌∷◌, ltb,
  leb, Bytes, beq,
}
use opentunnel.Record.{StoredTunnel, CertificateInfo, issuing, is_deleted, is_some}
use opentunnel.Store.Jobs.{issue, renew, find_job, requeue_failed_job, requeue_job_queued_before}
use opentunnel.Store.Tunnels.{is_issuing}
use opentunnel.Retry.{Class, transient, permanent, unknown, classify_reason, retry_window_ms}
use opentunnel.Lifecycle.World.{
  External, Tables, Op, ◌>>=◌, ◌>>◌, return, attempt, read_cached, call,
}
use opentunnel.Lifecycle.Cache.{live, lock_fresh}
use opentunnel.Lifecycle.Saves.{save}
use opentunnel.Lifecycle.Issuance.{ensure_issuance}
use opentunnel.Lifecycle.Renewals.{day_ms}
use opentunnel.Lifecycle.Reports.{is_id, info_state, is_ready_state, is_failed_state}

abbrev pub orphan_max_age_ms : ℕ
orphan_max_age_ms = 2 * day_ms

abbrev pub authz_pending_fix_ms : ℕ
authz_pending_fix_ms = 1791957600000

-- The columns of `FailedJob` that are used.
pub record FailedJob : Type 0 where
  pub certificate_id : Bytes
  pub tunnel_id : Option Bytes
  pub last_error : Bytes
  pub created_at : ℕ
  pub updated_at : ℕ

unfoldable pub select_job : Bytes → Tables → Tables × Bool
select_job id tables = (tables, is_some (find_job id tables.jobs))

unfoldable pub requeue_failed : Bytes → ℕ → Tables → Tables × Bool
unfolding requeue_failed_job
requeue_failed id now tables =
    let (jobs, won) = requeue_failed_job id now tables.jobs in (record tables { jobs = jobs }, won)

unfoldable pub requeue_queued_before : Bytes → ℕ → Tables → Tables × Bool
unfolding requeue_job_queued_before
requeue_queued_before id now tables =
    let (jobs, won) = requeue_job_queued_before id authz_pending_fix_ms now tables.jobs in
    (record tables { jobs = jobs }, won)

unfoldable pub is_transient : Class → Bool
is_transient (transient after) = true
is_transient permanent = false
is_transient unknown = false

-- What is retried of what `failed_issue_jobs` returns.
unfoldable pub gave_up_early : FailedJob → Bool
unfolding is_transient classify_reason
gave_up_early job =
    ltb (job.updated_at - job.created_at) (retry_window_ms / 2)
    && is_transient (classify_reason job.last_error)

-- Whether the tunnel's certificate is this one, in a state as given.
unfoldable pub is_certificate : Bytes → (CertificateInfo → Bool) → Option CertificateInfo → Bool
is_certificate id holds none = false
is_certificate id holds (some c) = beq c.id id && holds c

unfoldable pub waits_failed : Bytes → StoredTunnel → Bool
unfolding is_deleted is_id is_certificate is_failed_state
waits_failed id t =
    not (is_deleted t)
    && (is_id id t.certificate_id && is_certificate id (λ c. is_failed_state c.state) t.certificate)

unfoldable pub waits_unready : Bytes → StoredTunnel → Bool
unfolding is_id is_certificate is_ready_state
waits_unready id t =
    is_id id t.certificate_id && is_certificate id (λ c. not (is_ready_state c.state)) t.certificate

unfoldable pub issuing_again : Bytes → StoredTunnel → StoredTunnel
issuing_again id t = record t { certificate = some (record { id = id; state = issuing }) }

unfoldable pub one_of : Bytes → List Bytes → Bool
one_of id [] = false
one_of id (seen ∷ rest) = beq seen id || one_of id rest

-- One more where the job did not exist and was added.
unfoldable pub resume_job : Bytes → Op (Unit {0}) → Op ℕ
unfolding ◌>>=◌ ◌>>◌ call select_job return
resume_job id add = do
  exists ← call (select_job id)
  elim exists [ true ↦ return 0 | false ↦ do add; return 1 ]

module _ (x : External) where
  unfoldable pub is_old : ℕ → ℕ → Option Bytes → Bool
  is_old now grace_ms none = false
  is_old now grace_ms (some text) = elim (x.parse_iso text) [
    | none ↦ false
    | some started ↦ leb grace_ms (now - started) && ltb (now - started) orphan_max_age_ms
  ]

  unfoldable pub resume_issue : ℕ → ℕ → StoredTunnel → Op ℕ
  unfolding info_state is_issuing is_old return resume_job ensure_issuance
  resume_issue now grace_ms t =
      elim (info_state t.certificate is_issuing && is_old now grace_ms t.certificate_started_at) [
        | false ↦ return 0
        | true ↦ elim t.certificate_id [
          | none ↦ return 0
          | some id ↦ resume_job id (ensure_issuance x t issue)
        ]
      ]

  unfoldable pub resume_renewal : ℕ → ℕ → StoredTunnel → Op ℕ
  unfolding return is_old resume_job ensure_issuance
  resume_renewal now grace_ms t = elim t.renewal [
    | none ↦ return 0
    | some r ↦ elim (is_old now grace_ms (some r.started_at)) [
      | false ↦ return 0
      | true ↦ resume_job r.certificate_id (ensure_issuance x t renew)
    ]
  ]

  -- One round of the loop of `resume_orphaned_issuance`.
  unfoldable pub resume_tunnel : ℕ → ℕ → Bytes → Op ℕ
  unfolding ◌>>=◌ ◌>>◌ lock_fresh read_cached live return resume_issue resume_renewal
  resume_tunnel now grace_ms id = do
    lock_fresh x id
    s ← read_cached
    elim (live s.record_of) [
      | none ↦ return 0
      | some t ↦ do
        first ← resume_issue now grace_ms t
        second ← resume_renewal now grace_ms t
        return (first + second)
    ]

  -- The tunnel shows `issuing` again; that it could not be saved is only logged.
  unfoldable pub show_issuing : Bytes → StoredTunnel → Op Bool
  unfolding ◌>>=◌ attempt save issuing_again return
  show_issuing id t = do saved ← attempt (save x (issuing_again id t)); return true

  -- One round of the first loop of `retry_failed_issuance`; the result says whether the job was requeued.
  unfoldable pub retry_failed_job : ℕ → FailedJob → Bytes → Op Bool
  unfolding ◌>>=◌ ◌>>◌ lock_fresh read_cached live return waits_failed call requeue_failed
      show_issuing
  retry_failed_job now job id = do
    lock_fresh x id
    s ← read_cached
    elim (live s.record_of) [
      | none ↦ return false
      | some t ↦ elim (waits_failed job.certificate_id t) [
        | false ↦ return false
        | true ↦ do
          won ← call (requeue_failed job.certificate_id now)
          elim won [ true ↦ show_issuing job.certificate_id t | false ↦ return false ]
      ]
    ]

  unfoldable pub show_if_failed : Bytes → StoredTunnel → Op Bool
  unfolding info_state is_failed_state show_issuing return
  show_if_failed id t = elim (info_state t.certificate is_failed_state) [
    | true ↦ show_issuing id t
    | false ↦ return true
  ]

  -- One round of the second loop.
  unfoldable pub retry_pending_job : ℕ → FailedJob → Bytes → Op Bool
  unfolding ◌>>=◌ ◌>>◌ lock_fresh read_cached live return waits_unready call requeue_queued_before
      show_if_failed
  retry_pending_job now job id = do
    lock_fresh x id
    s ← read_cached
    elim (live s.record_of) [
      | none ↦ return false
      | some t ↦ elim (waits_unready job.certificate_id t) [
        | false ↦ return false
        | true ↦ do
          won ← call (requeue_queued_before job.certificate_id now)
          elim won [ true ↦ show_if_failed job.certificate_id t | false ↦ return false ]
      ]
    ]
