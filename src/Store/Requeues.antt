-- ===== src/Store/Requeues.antt =====
-- Queueing a certificate job again, and what others do to the table in between.
use opentunnel.Store.Claims.{find_job-key, keyed_left}
use opentunnel.Prelude.{
  ◌&&◌, ℕ, ◌≤◌, ◌≡◌, ◌≢◌, ◌⊎◌, refl, inl, inr, Bool, true, false, Option, some, List, max, arith,
  Bytes, beq, beq→eq, Bool-cases, Option-cases,
}
use opentunnel.Store.Jobs.{
  JobRow, Job, Status, update, find_job, add_job, claimable, lease_to, claim_job, extendable,
  extend, extend_lease, is_owner, release, release_leases, is_held_by, finished, finish_job,
  retried, retry_job, queued_before, requeued, requeue_job_queued_before, has_failed,
  requeue_failed_job,
}
use opentunnel.Store.Rows.{
  Distinct, after, find_job-update, update-Distinct, affected-none, affected_found,
}

-- The statements on the table, by any process at any time, where one that dates the job of `id` anew
-- does not date it before `before`.
pub data Change (id : Bytes) (before : ℕ) (jobs : List JobRow) : List JobRow → Type 0 where
  adds : (job : Job) (run_at : ℕ) → Change id before jobs (add_job job run_at jobs).0
  claims : (id' owner : Bytes) (now : ℕ) → Change id before jobs (claim_job id' owner now jobs).0
  extends :
      (id' owner : Bytes) (now : ℕ) → Change id before jobs (extend_lease id' owner now jobs).0
  releases : (owner : Bytes) → Change id before jobs (release_leases owner jobs)
  finishes :
      (id' owner : Bytes) (status : Status) (error : Option Bytes) (now : ℕ)
      → Change id before jobs (finish_job id' owner status error now jobs).0
  retries :
      (id' owner : Bytes) (attempts run_at : ℕ) (error : Bytes) (now : ℕ)
      → Change id before jobs (retry_job id' owner attempts run_at error now jobs).0
  requeues :
      (id' : Bytes) (before' now : ℕ)
      → (before ≤ max now before') ⊎ (id' ≢ id)
      → Change id before jobs (requeue_job_queued_before id' before' now jobs).0
  requeues_failed :
      (id' : Bytes) (now : ℕ)
      → (before ≤ now) ⊎ (id' ≢ id)
      → Change id before jobs (requeue_failed_job id' now jobs).0

pub data Changes (id : Bytes) (before : ℕ) (jobs : List JobRow) : List JobRow → Type 0 where
  here : Changes id before jobs jobs
  next :
      {jobs' jobs'' : List JobRow}
      → Changes id before jobs jobs'
      → Change id before jobs' jobs''
      → Changes id before jobs jobs''

-- The job of `id` is there and is not dated before `before`.
unfoldable IsLate : Bytes → ℕ → List JobRow → Type 0
IsLate id before jobs =
    Distinct jobs × ((row : JobRow) × (find_job id jobs ≡ some row) × (before ≤ row.created_at))

module _ (id : Bytes) (before : ℕ) where
  -- An update that leaves the job's row late where it finds it.
  update-IsLate :
      (holds : JobRow → Bool) (set : JobRow → JobRow)
      → ((row : JobRow) → (set row).certificate_id ≡ row.certificate_id)
      → ((row : JobRow)
          → beq row.certificate_id id ≡ true
          → holds row ≡ true
          → before ≤ row.created_at
          → before ≤ (set row).created_at)
      → (jobs : List JobRow) → IsLate id before jobs
      → IsLate id before (update holds set jobs)
  unfolding IsLate after
  update-IsLate holds set keeps late jobs (d, (row, found, l)) = (
    update-Distinct holds set keeps jobs d,
    elim (Bool-cases (holds row)) [
      | inl e ↦ (
        set row,
        rw (find_job-update holds set keeps id jobs, found, after, e) refl,
        late row (find_job-key id jobs row found) e l,
      )
      | inr e ↦ (row, rw (find_job-update holds set keeps id jobs, found, after, e) refl, l)
    ],
  )

  add_job-IsLate :
      (job : Job) (run_at : ℕ) (jobs : List JobRow)
      → IsLate id before jobs
      → IsLate id before (add_job job run_at jobs).0
  unfolding IsLate add_job Distinct find_job
  add_job-IsLate job run_at jobs (d, (row, found, l)) =
      elim (Option-cases (find_job job.certificate_id jobs)) [
        | inr (r, e) ↦ rw (e, add_job) (d, (row, found, l))
        | inl e ↦
            rw (e, add_job)
              (
                (e, d),
                (
                  row,
                  elim (Bool-cases (beq job.certificate_id id)) [
                    | inl same ↦ absurd (cc (rw (beq→eq job.certificate_id id same) at e, found))
                    | inr apart ↦ rw apart found
                  ],
                  l,
                ),
              )
      ]

  -- A statement on another certificate does not find the row.
  elsewhere :
      (id' : Bytes) (row : JobRow) (rest : Bool)
      → id' ≢ id
      → beq row.certificate_id id ≡ true
      → (beq row.certificate_id id' && rest) ≢ true
  elsewhere id' row rest n same h =
      n (cc (beq→eq row.certificate_id id' (keyed_left _ _ h), beq→eq row.certificate_id id same))

  Change-IsLate :
      {jobs jobs' : List JobRow}
      → Change id before jobs jobs'
      → IsLate id before jobs
      → IsLate id before jobs'
  unfolding claim_job extend_lease release_leases finish_job retry_job requeue_job_queued_before
      requeue_failed_job queued_before has_failed lease_to extend release finished retried requeued
  Change-IsLate {jobs = jobs} (adds job run_at) h = add_job-IsLate job run_at jobs h
  Change-IsLate {jobs = jobs} (claims id' owner now) h =
      update-IsLate (claimable id' owner now) (lease_to owner now) (λ r. refl) (λ r s e l. l) jobs h
  Change-IsLate {jobs = jobs} (extends id' owner now) h =
      update-IsLate (extendable id' owner) (extend now) (λ r. refl) (λ r s e l. l) jobs h
  Change-IsLate {jobs = jobs} (releases owner) h =
      update-IsLate (is_owner owner) release (λ r. refl) (λ r s e l. l) jobs h
  Change-IsLate {jobs = jobs} (finishes id' owner status error now) h =
      update-IsLate (is_held_by id' owner) (finished status error now) (λ r. refl) (λ r s e l. l)
        jobs h
  Change-IsLate {jobs = jobs} (retries id' owner attempts run_at error now) h =
      update-IsLate (is_held_by id' owner) (retried attempts run_at error now) (λ r. refl)
        (λ r s e l. l) jobs h
  Change-IsLate {jobs = jobs} (requeues id' before' now allowed) h =
      update-IsLate (queued_before id' before' now) (requeued now (max now before')) (λ r. refl)
        (λ r s e l. elim allowed [ inl a ↦ a | inr n ↦ absurd (elsewhere id' r _ n s e) ]) jobs h
  Change-IsLate {jobs = jobs} (requeues_failed id' now allowed) h =
      update-IsLate (has_failed id') (requeued now now) (λ r. refl)
        (λ r s e l. elim allowed [ inl a ↦ a | inr n ↦ absurd (elsewhere id' r _ n s e) ]) jobs h

  Changes-IsLate :
      {jobs jobs' : List JobRow}
      → Changes id before jobs jobs'
      → IsLate id before jobs
      → IsLate id before jobs'
  Changes-IsLate here h = h
  Changes-IsLate (next rest change) h = Change-IsLate change (Changes-IsLate rest h)

  keyed :
      (now : ℕ) (row : JobRow)
      → queued_before id before now row ≡ true
      → beq row.certificate_id id ≡ true
  keyed now row q = unfold queued_before in keyed_left _ _ q

  -- A call that found its row leaves it late.
  won-IsLate :
      (now : ℕ) (jobs : List JobRow)
      → Distinct jobs
      → (requeue_job_queued_before id before now jobs).1 ≡ true
      → IsLate id before (requeue_job_queued_before id before now jobs).0
  unfolding requeue_job_queued_before IsLate after
  won-IsLate now jobs d h = elim (Option-cases (find_job id jobs)) [
    | inl f ↦ absurd (cc (rw (affected-none holds id (keyed now) jobs f) at h))
    | inr (row, f) ↦ elim (Bool-cases (holds row)) [
      | inr e ↦ absurd (cc (rw (affected_found holds id (keyed now) jobs row d f, e) at h))
      | inl e ↦ (
        update-Distinct holds set (λ r. refl) jobs d,
        (set row, rw (find_job-update holds set (λ r. refl) id jobs, f, after, e) refl, dated row),
      )
    ]
  ]
    where
      holds : JobRow → Bool
      holds = queued_before id before now

      set : JobRow → JobRow
      set = requeued now (max now before)

      dated : (row : JobRow) → before ≤ (set row).created_at
      dated row = unfold requeued release in ground arith

  -- Where the row is late, a call finds nothing.
  late-none :
      (later : ℕ) (jobs : List JobRow)
      → IsLate id before jobs
      → (requeue_job_queued_before id before later jobs).1 ≡ false
  unfolding requeue_job_queued_before IsLate
  late-none later jobs (d, (row, f, l)) =
      rw (affected_found (queued_before id before later) id (keyed later) jobs row d f, too_new)
        refl
    where
      too_new : queued_before id before later row ≡ false
      too_new = unfold queued_before in ground arith

-- Of the callers that requeue a job queued before a time, one wins: after a call that did, and any
-- statements on the table by which the job, if it is dated anew, is not dated before that time,
-- another call at any time finds nothing to requeue.
pub requeue_once :
    (id : Bytes) (before now later : ℕ) (jobs jobs' : List JobRow)
    → Distinct jobs
    → (requeue_job_queued_before id before now jobs).1 ≡ true
    → Changes id before (requeue_job_queued_before id before now jobs).0 jobs'
    → (requeue_job_queued_before id before later jobs').1 ≡ false
requeue_once id before now later jobs jobs' d h changes =
    late-none id before later jobs'
      (Changes-IsLate id before changes (won-IsLate id before now jobs d h))
