-- ===== src/Lifecycle/Parts.antt =====
-- The parts of handlers that leave the record alone: jobs, alarms and announcements.
use opentunnel.Prelude.{ℕ, ◌≡◌, sym, subst, Bool, true, false, ◌&&◌, All, Option, none, some, Bytes}
use opentunnel.Record
use opentunnel.Record.{
  StoredTunnel, CertificateInfo, CertificateState, ready, failed, challenge, issuing, is_deleted,
  is_some, identifiers,
}
use opentunnel.Store.Jobs.{JobKind, issue, renew, job_row}
use opentunnel.Store.Tunnels.{is_issuing}
use opentunnel.Lifecycle.World.{
  External, Tables, Cached, Op, Effect, missing_id, missing_csr, ◌>>=◌, return, read_now,
}
use opentunnel.Lifecycle.Issuance.{
  required, issuance_id, issuance_job, announce, job_added, ensure_issuance, alarm_row,
  set_alarm_at,
}
use opentunnel.Lifecycle.Api.{hostname_of}
use opentunnel.Lifecycle.Renewals.{
  expiry_ms, renewal_at, schedule_renewal, select_alarm, read_alarm, schedule_unless,
}
use opentunnel.Lifecycle.Reports.{
  info_state, is_ready_state, is_failed_state, publish_change, announce_if,
}
use opentunnel.Lifecycle.Recovery.{select_job, is_old, resume_job, resume_issue, resume_renewal}
use opentunnel.Lifecycle.Spec.{IsOwn, IsWell, JobOk}
use opentunnel.Lifecycle.Steps.{
  Keeps, Keeps-bind, Keeps-next, Keeps-return, Keeps-fail, Keeps-read_now, Keeps-emit, Keeps-call,
}
use opentunnel.Lifecycle.Statements.{
  select_alarm-Kept, select_job-Kept, insert_job-Kept, alarm_row-Kept,
}

module _ (x : External) (base : Tables) (id : Bytes) (C : Cached → Type 0) where
  abbrev K : {A : Type 0} → Op A → Type 0
  K m = Keeps x base id C m

  keeps_either :
      {A : Type 0} (b : Bool) {m k : Op A} → K m → K k → K (elim b [ true ↦ m | false ↦ k ])
  keeps_either true h h' = h
  keeps_either false h h' = h'

  pub announce-Keeps : (e : Effect) → K (announce x e)
  unfolding announce
  announce-Keeps e = keeps_either x.clustered (Keeps-emit e) (Keeps-return tt)

  pub announce_if-Keeps : (b : Bool) (e : Effect) → K (announce_if x b e)
  unfolding announce_if
  announce_if-Keeps true e = announce-Keeps e
  announce_if-Keeps false e = Keeps-return tt

  pub job_added-Keeps : K (job_added x)
  unfolding job_added
  job_added-Keeps = Keeps-next (Keeps-emit _) (announce-Keeps _)

  pub set_alarm_at-Keeps : (id' : Bytes) (at : Option ℕ) → K (set_alarm_at id' at)
  unfolding set_alarm_at
  set_alarm_at-Keeps id' at =
      Keeps-next (Keeps-call (alarm_row id' at) (alarm_row-Kept x id' at)) (Keeps-emit _)

  required-Keeps : (o : Option Bytes) {m : Op Bytes} → K m → K (required o m)
  unfolding required
  required-Keeps none h = h
  required-Keeps (some text) h = Keeps-return text

  named_at :
      (t : StoredTunnel) (i : Bytes)
      → t.id ≡ i
      → All (IsOwn (hostname_of x i)) (identifiers t)
      → All (IsOwn (hostname_of x t.id)) (identifiers t)
  named_at t i e = subst (λ j. All (IsOwn (hostname_of x j)) (identifiers t)) (sym e)

  pub issuance_job-JobOk :
      (t : StoredTunnel) (kind : JobKind) (certificate_id csr : Bytes) (created_at run_at : ℕ)
      → IsWell x id t
      → JobOk x (job_row (issuance_job t kind certificate_id csr created_at) run_at)
  unfolding JobOk job_row issuance_job
  issuance_job-JobOk t kind certificate_id csr created_at run_at well =
      named_at t id well.keyed well.named

  pub ensure_issuance-Keeps :
      (t : StoredTunnel) (kind : JobKind) → IsWell x id t → K (ensure_issuance x t kind)
  unfolding ensure_issuance
  ensure_issuance-Keeps t kind well =
      Keeps-bind (required-Keeps (issuance_id t kind) (Keeps-fail missing_id)) (λ certificate_id.
        Keeps-bind (required-Keeps t.certificate_csr (Keeps-fail missing_csr)) (λ csr.
          Keeps-bind Keeps-read_now (λ created_at. Keeps-bind Keeps-read_now (λ run_at.
            Keeps-bind
              (Keeps-call _ (
                insert_job-Kept x (issuance_job t kind certificate_id csr created_at) run_at
                  (issuance_job-JobOk t kind certificate_id csr created_at run_at well)))
              (λ added. keeps_either added job_added-Keeps (Keeps-return tt))))))

  pub schedule_renewal-Keeps : (t : StoredTunnel) → K (schedule_renewal x t)
  unfolding schedule_renewal
  schedule_renewal-Keeps t =
      keeps_either (is_deleted t) (Keeps-return tt) (scheduled (expiry_ms x t))
    where
      scheduled :
          (expiry : Option ℕ)
          → K (elim expiry [
            | none ↦ return tt
            | some at ↦ read_now >>= λ now. set_alarm_at t.id (some (renewal_at at now))
          ])
      scheduled none = Keeps-return tt
      scheduled (some at) = Keeps-bind Keeps-read_now (λ now. set_alarm_at-Keeps t.id _)

  pub read_alarm-Keeps : (id' : Bytes) (read : Option (Option ℕ)) → K (read_alarm id' read)
  unfolding read_alarm
  read_alarm-Keeps id' none = Keeps-call (select_alarm id') (select_alarm-Kept x id')
  read_alarm-Keeps id' (some at) = Keeps-return at

  pub schedule_unless-Keeps : (t : StoredTunnel) (at : Option ℕ) → K (schedule_unless x t at)
  unfolding schedule_unless
  schedule_unless-Keeps t none = schedule_renewal-Keeps t
  schedule_unless-Keeps t (some at) = Keeps-return tt

  pub publish_change-Keeps :
      (previous : Option CertificateInfo) (state : CertificateState)
      → K (publish_change previous state)
  unfolding publish_change
  publish_change-Keeps previous (challenge token key) = Keeps-return tt
  publish_change-Keeps previous issuing = Keeps-return tt
  publish_change-Keeps previous (ready certificate chain expiry) =
      keeps_either (info_state previous is_ready_state) (Keeps-return tt) (Keeps-emit _)
  publish_change-Keeps previous (failed reason) =
      keeps_either (info_state previous is_failed_state) (Keeps-return tt) (Keeps-emit _)

  resume_job-Keeps :
      (certificate_id : Bytes) {m : Op (Unit {0})} → K m → K (resume_job certificate_id m)
  unfolding resume_job
  resume_job-Keeps certificate_id h =
      Keeps-bind (Keeps-call (select_job certificate_id) (select_job-Kept x certificate_id))
        (λ there. keeps_either there (Keeps-return 0) (Keeps-next h (Keeps-return 1)))

  pub resume_issue-Keeps :
      (now grace_ms : ℕ) (t : StoredTunnel) → IsWell x id t → K (resume_issue x now grace_ms t)
  unfolding resume_issue
  resume_issue-Keeps now grace_ms t well =
      keeps_either
        (info_state t.certificate is_issuing && is_old x now grace_ms t.certificate_started_at)
        (found t.certificate_id) (Keeps-return 0)
    where
      found :
          (o : Option Bytes)
          → K {A = ℕ}
              (elim o [ none ↦ return 0 | some i ↦ resume_job i (ensure_issuance x t issue) ])
      found none = Keeps-return 0
      found (some i) = resume_job-Keeps i (ensure_issuance-Keeps t issue well)

  pub resume_renewal-Keeps :
      (now grace_ms : ℕ) (t : StoredTunnel) → IsWell x id t → K (resume_renewal x now grace_ms t)
  unfolding resume_renewal
  resume_renewal-Keeps now grace_ms t well = found t.renewal
    where
      found :
          (o : Option Record.Renewal)
          → K {A = ℕ} (elim o [
            | none ↦ return 0
            | some r ↦ elim (is_old x now grace_ms (some r.started_at)) [
              | false ↦ return 0
              | true ↦ resume_job r.certificate_id (ensure_issuance x t renew)
            ]
          ])
      found none = Keeps-return 0
      found (some r) =
          keeps_either (is_old x now grace_ms (some r.started_at))
            (resume_job-Keeps r.certificate_id (ensure_issuance-Keeps t renew well))
            (Keeps-return 0)
