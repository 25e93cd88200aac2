-- ===== src/Store/Leases.antt =====
-- A lease on a certificate job, and what other processes do to the table meanwhile.
use opentunnel.Prelude.{
  ℕ, ◌≤◌, ◌≡◌, ◌≢◌, ◌⊎◌, refl, inl, inr, Bool, false, ◌&&◌, Option, some, List, max, arith, Bytes,
  beq, beq_refl, beq→eq, Bool-cases, Option-cases,
}
use opentunnel.Store.Jobs.{
  JobRow, Job, Status, pending, is_failed, is_owner, lease_over, update, find_job, add_job,
  claimable, lease_to, claim_job, extendable, extend, extend_lease, release, release_leases,
  is_held_by, finished, finish_job, retried, retry_job, queued_before, requeued,
  requeue_job_queued_before, has_failed, requeue_failed_job,
}
use opentunnel.Store.Rows.{Distinct, after, find_job-update, update-Distinct}

-- The job of a certificate is pending and leased to `owner`, at least until `until`.
pub record IsLease (id owner : Bytes) (until : ℕ) (row : JobRow) : Type 0 where
  pub keyed : row.certificate_id ≡ id
  pub status : row.status ≡ pending
  pub holder : row.lease_owner ≡ some owner
  pub till : ℕ
  pub leased : row.lease_until ≡ some till
  pub long : until ≤ till

unfoldable pub IsHeld : Bytes → Bytes → ℕ → List JobRow → Type 0
IsHeld id owner until jobs =
    Distinct jobs × ((row : JobRow) × (find_job id jobs ≡ some row) × IsLease id owner until row)

-- What happens to the table without the holder's doing: statements of other processes and its own on
-- other certificates, while the lease lasts.
pub data Step (id owner : Bytes) (until : ℕ) (jobs : List JobRow) : List JobRow → Type 0 where
  adds : (job : Job) (run_at : ℕ) → Step id owner until jobs (add_job job run_at jobs).0
  claims :
      (id' owner' : Bytes) (now : ℕ)
      → (owner' ≢ owner) ⊎ (id' ≢ id)
      → now ≤ until
      → Step id owner until jobs (claim_job id' owner' now jobs).0
  extends :
      (id' owner' : Bytes) (now : ℕ)
      → (owner' ≢ owner) ⊎ (id' ≢ id)
      → Step id owner until jobs (extend_lease id' owner' now jobs).0
  releases :
      (owner' : Bytes) → owner' ≢ owner → Step id owner until jobs (release_leases owner' jobs)
  finishes :
      (id' owner' : Bytes) (status : Status) (error : Option Bytes) (now : ℕ)
      → (owner' ≢ owner) ⊎ (id' ≢ id)
      → Step id owner until jobs (finish_job id' owner' status error now jobs).0
  retries :
      (id' owner' : Bytes) (attempts run_at : ℕ) (error : Bytes) (now : ℕ)
      → (owner' ≢ owner) ⊎ (id' ≢ id)
      → Step id owner until jobs (retry_job id' owner' attempts run_at error now jobs).0
  requeues :
      (id' : Bytes) (before now : ℕ)
      → now ≤ until
      → Step id owner until jobs (requeue_job_queued_before id' before now jobs).0
  requeues_failed :
      (id' : Bytes) (now : ℕ) → Step id owner until jobs (requeue_failed_job id' now jobs).0

pub data Steps (id owner : Bytes) (until : ℕ) (jobs : List JobRow) : List JobRow → Type 0 where
  here : Steps id owner until jobs jobs
  next :
      {jobs' jobs'' : List JobRow}
      → Steps id owner until jobs jobs'
      → Step id owner until jobs' jobs''
      → Steps id owner until jobs jobs''

beq_not : (s t : Bytes) → s ≢ t → beq s t ≡ false
beq_not s t n = elim (Bool-cases (beq s t)) [ inl e ↦ absurd (n (beq→eq s t e)) | inr e ↦ e ]

module _ (id owner : Bytes) (until : ℕ) where
  -- An update whose condition the leased row does not meet.
  update-IsHeld :
      (holds : JobRow → Bool) (set : JobRow → JobRow)
      → ((row : JobRow) → (set row).certificate_id ≡ row.certificate_id)
      → ((row : JobRow) → IsLease id owner until row → holds row ≡ false)
      → (jobs : List JobRow) → IsHeld id owner until jobs
      → IsHeld id owner until (update holds set jobs)
  unfolding IsHeld after
  update-IsHeld holds set keeps misses jobs (d, (row, found, lease)) = (
    update-Distinct holds set keeps jobs d,
    (row, rw (find_job-update holds set keeps id jobs, found, after, misses row lease) refl, lease),
  )

  not_owned :
      (id' owner' : Bytes)
      → (owner' ≢ owner) ⊎ (id' ≢ id)
      → (row : JobRow) → IsLease id owner until row
      → (beq row.certificate_id id' && is_owner owner' row) ≡ false
  unfolding is_owner
  not_owned id' owner' (inl n) row l =
      rw (l.holder, beq_not owner owner' (λ e. n (cc e))) ground arith
  not_owned id' owner' (inr n) row l = rw (l.keyed, beq_not id id' (λ e. n (cc e))) refl

  not_over :
      (now : ℕ) (row : JobRow)
      → now ≤ until
      → IsLease id owner until row
      → lease_over now row ≡ false
  unfolding lease_over
  not_over now row h l = let long = l.long in rw l.leased ground arith

  pub not_claimable :
      (id' owner' : Bytes) (now : ℕ)
      → (owner' ≢ owner) ⊎ (id' ≢ id)
      → now ≤ until
      → (row : JobRow) → IsLease id owner until row
      → claimable id' owner' now row ≡ false
  unfolding claimable
  not_claimable id' owner' now other h row l =
      let a = not_over now row h l in let b = not_owned id' owner' other row l in ground arith

  add_job-IsHeld :
      (job : Job) (run_at : ℕ) (jobs : List JobRow)
      → IsHeld id owner until jobs
      → IsHeld id owner until (add_job job run_at jobs).0
  unfolding IsHeld add_job Distinct find_job
  add_job-IsHeld job run_at jobs (d, (row, found, lease)) =
      elim (Option-cases (find_job job.certificate_id jobs)) [
        | inr (r, e) ↦ rw (e, add_job) (d, (row, found, lease))
        | inl e ↦
            rw (e, add_job)
              (
                (e, d),
                (
                  row,
                  elim (Bool-cases (beq job.certificate_id id)) [
                    | inl same ↦ absurd (cc (rw (beq→eq job.certificate_id id same) at e, found))
                    | inr apart ↦ rw apart found
                  ],
                  lease,
                ),
              )
      ]

  Step-IsHeld :
      {jobs jobs' : List JobRow}
      → Step id owner until jobs jobs'
      → IsHeld id owner until jobs
      → IsHeld id owner until jobs'
  unfolding claim_job extend_lease release_leases finish_job retry_job requeue_job_queued_before
      requeue_failed_job extendable is_held_by queued_before has_failed is_failed lease_to extend
      release finished retried requeued
  Step-IsHeld {jobs = jobs} (adds job run_at) h = add_job-IsHeld job run_at jobs h
  Step-IsHeld {jobs = jobs} (claims id' owner' now other early) h =
      update-IsHeld (claimable id' owner' now) (lease_to owner' now) (λ r. refl)
        (not_claimable id' owner' now other early) jobs h
  Step-IsHeld {jobs = jobs} (extends id' owner' now other) h =
      update-IsHeld (extendable id' owner') (extend now) (λ r. refl)
        (λ r l. let n = not_owned id' owner' other r l in ground arith) jobs h
  Step-IsHeld {jobs = jobs} (releases owner' other) h =
      update-IsHeld (is_owner owner') release (λ r. refl)
        (λ r l. let n = not_owned id owner' (inl other) r l in rw (l.keyed, beq_refl id) at n) jobs
        h
  Step-IsHeld {jobs = jobs} (finishes id' owner' status error now other) h =
      update-IsHeld (is_held_by id' owner') (finished status error now) (λ r. refl)
        (not_owned id' owner' other) jobs h
  Step-IsHeld {jobs = jobs} (retries id' owner' attempts run_at error now other) h =
      update-IsHeld (is_held_by id' owner') (retried attempts run_at error now) (λ r. refl)
        (not_owned id' owner' other) jobs h
  Step-IsHeld {jobs = jobs} (requeues id' before now early) h =
      update-IsHeld (queued_before id' before now) (requeued now (max now before)) (λ r. refl)
        (λ r l. let n = not_over now r early l in ground arith) jobs h
  Step-IsHeld {jobs = jobs} (requeues_failed id' now) h =
      update-IsHeld (has_failed id') (requeued now now) (λ r. refl)
        (λ r l. let n = l.status in ground arith) jobs h

  pub Steps-IsHeld :
      {jobs jobs' : List JobRow}
      → Steps id owner until jobs jobs'
      → IsHeld id owner until jobs
      → IsHeld id owner until jobs'
  Steps-IsHeld here h = h
  Steps-IsHeld (next rest step) h = Step-IsHeld step (Steps-IsHeld rest h)
