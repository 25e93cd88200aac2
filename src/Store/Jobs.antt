-- ===== src/Store/Jobs.antt =====
-- The table of certificate jobs and the statements on it: `add_job`, `claim_job`, `extend_lease`,
-- `release_leases`, `finish_job`, `retry_job`, `requeue_job_queued_before`, `requeue_failed_job`.
use opentunnel.Prelude.{
  ℕ, ◌+◌, ◌*◌, Bool, true, false, ◌&&◌, ◌||◌, Option, none, some, List, [], ◌∷◌, ltb, leb, ◌==◌,
  max, if◌then◌else◌, Bytes, beq,
}

pub data JobKind : Type 0 where
  issue renew server : JobKind

pub data Status : Type 0 where
  pending done failed abandoned : Status

pub record JobRow : Type 0 where
  pub certificate_id : Bytes
  pub tunnel_id : Option Bytes
  pub kind : JobKind
  pub identifiers : List Bytes
  pub csr : Bytes
  pub status : Status
  pub attempts : ℕ
  pub run_at : ℕ
  pub lease_owner : Option Bytes
  pub lease_until : Option ℕ
  pub last_error : Option Bytes
  pub created_at : ℕ
  pub updated_at : ℕ

pub record Job : Type 0 where
  pub certificate_id : Bytes
  pub tunnel_id : Option Bytes
  pub kind : JobKind
  pub identifiers : List Bytes
  pub csr : Bytes
  pub attempts : ℕ
  pub created_at : ℕ

abbrev pub lease_ms : ℕ
lease_ms = 2 * 60 * 1000

-- `UPDATE jobs SET … WHERE …`, and the number of rows that it finds.
unfoldable pub update : (JobRow → Bool) → (JobRow → JobRow) → List JobRow → List JobRow
update holds set [] = []
update holds set (row ∷ rows) = (if holds row then set row else row) ∷ update holds set rows

unfoldable pub affected : (JobRow → Bool) → List JobRow → ℕ
affected holds [] = 0
affected holds (row ∷ rows) = (if holds row then 1 else 0) + affected holds rows

unfoldable pub find_job : Bytes → List JobRow → Option JobRow
find_job id [] = none
find_job id (row ∷ rows) = if beq row.certificate_id id then some row else find_job id rows

unfoldable pub is_pending : Status → Bool
is_pending pending = true
is_pending _ = false

unfoldable pub is_failed : Status → Bool
is_failed failed = true
is_failed _ = false

-- `lease_owner = ?`, which NULL is not.
unfoldable pub is_owner : Bytes → JobRow → Bool
is_owner owner row = elim row.lease_owner [ none ↦ false | some o ↦ beq o owner ]

-- `lease_until IS NULL OR lease_until < ?`.
unfoldable pub lease_over : ℕ → JobRow → Bool
lease_over now row = elim row.lease_until [ none ↦ true | some until ↦ ltb until now ]

unfoldable pub job_row : Job → ℕ → JobRow
job_row job run_at = record {
  certificate_id = job.certificate_id;
  tunnel_id = job.tunnel_id;
  kind = job.kind;
  identifiers = job.identifiers;
  csr = job.csr;
  status = pending;
  attempts = job.attempts;
  run_at = run_at;
  lease_owner = none;
  lease_until = none;
  last_error = none;
  created_at = job.created_at;
  updated_at = job.created_at;
}

unfoldable pub job_from_row : JobRow → Job
job_from_row row = record {
  certificate_id = row.certificate_id;
  tunnel_id = row.tunnel_id;
  kind = row.kind;
  identifiers = row.identifiers;
  csr = row.csr;
  attempts = row.attempts;
  created_at = row.created_at;
}

-- The primary key refuses a second row.
unfoldable pub add_job : Job → ℕ → List JobRow → List JobRow × Bool
unfolding find_job job_row
add_job job run_at jobs = elim (find_job job.certificate_id jobs) [
  | none ↦ (job_row job run_at ∷ jobs, true)
  | some row ↦ (jobs, false)
]

unfoldable pub claimable : Bytes → Bytes → ℕ → JobRow → Bool
unfolding is_pending is_owner lease_over
claimable id owner now row =
    beq row.certificate_id id
    && (is_pending row.status && (leb row.run_at now && (lease_over now row || is_owner owner row)))

unfoldable pub lease_to : Bytes → ℕ → JobRow → JobRow
lease_to owner now row = record row {
  lease_owner = some owner;
  lease_until = some (now + lease_ms);
}

unfoldable pub find_owned : Bytes → Bytes → List JobRow → Option Job
unfolding is_owner job_from_row
find_owned id owner [] = none
find_owned id owner (row ∷ rows) =
    if beq row.certificate_id id && is_owner owner row
    then some (job_from_row row)
    else find_owned id owner rows

unfoldable pub claim_job : Bytes → Bytes → ℕ → List JobRow → List JobRow × Option Job
unfolding update affected claimable lease_to find_owned
claim_job id owner now jobs =
    let claimed = update (claimable id owner now) (lease_to owner now) jobs in
    (
      claimed,
      if affected (claimable id owner now) jobs == 0 then none else find_owned id owner claimed,
    )

unfoldable pub extendable : Bytes → Bytes → JobRow → Bool
unfolding is_owner is_pending
extendable id owner row = beq row.certificate_id id && (is_owner owner row && is_pending row.status)

unfoldable pub extend : ℕ → JobRow → JobRow
extend now row = record row { lease_until = some (now + lease_ms) }

unfoldable pub extend_lease : Bytes → Bytes → ℕ → List JobRow → List JobRow × Bool
unfolding update affected extendable extend
extend_lease id owner now jobs =
    (update (extendable id owner) (extend now) jobs, affected (extendable id owner) jobs == 1)

unfoldable pub release : JobRow → JobRow
release row = record row { lease_owner = none; lease_until = none }

unfoldable pub release_leases : Bytes → List JobRow → List JobRow
unfolding update is_owner release
release_leases owner jobs = update (is_owner owner) release jobs

unfoldable pub is_held_by : Bytes → Bytes → JobRow → Bool
unfolding is_owner
is_held_by id owner row = beq row.certificate_id id && is_owner owner row

unfoldable pub finished : Status → Option Bytes → ℕ → JobRow → JobRow
unfolding release
finished status error now row =
    release (record row { status = status; last_error = error; updated_at = now })

unfoldable pub finish_job :
    Bytes → Bytes → Status → Option Bytes → ℕ → List JobRow → List JobRow × Bool
unfolding update affected is_held_by finished
finish_job id owner status error now jobs = (
  update (is_held_by id owner) (finished status error now) jobs,
  affected (is_held_by id owner) jobs == 1,
)

unfoldable pub retried : ℕ → ℕ → Bytes → ℕ → JobRow → JobRow
unfolding release
retried attempts run_at error now row =
    release (record row {
      attempts = attempts;
      run_at = run_at;
      last_error = some error;
      updated_at = now;
    })

unfoldable pub retry_job : Bytes → Bytes → ℕ → ℕ → Bytes → ℕ → List JobRow → List JobRow × Bool
unfolding update affected is_held_by retried
retry_job id owner attempts run_at error now jobs = (
  update (is_held_by id owner) (retried attempts run_at error now) jobs,
  affected (is_held_by id owner) jobs == 1,
)

unfoldable pub queued_before : Bytes → ℕ → ℕ → JobRow → Bool
unfolding is_failed is_pending lease_over
queued_before id before now row =
    beq row.certificate_id id
    && ((is_failed row.status || is_pending row.status)
        && (ltb row.created_at before && lease_over now row))

unfoldable pub requeued : ℕ → ℕ → JobRow → JobRow
unfolding release
requeued now created_at row = release (record row {
  status = pending;
  attempts = 0;
  run_at = now;
  created_at = created_at;
  updated_at = now;
})

unfoldable pub requeue_job_queued_before : Bytes → ℕ → ℕ → List JobRow → List JobRow × Bool
unfolding update affected queued_before requeued
requeue_job_queued_before id before now jobs = (
  update (queued_before id before now) (requeued now (max now before)) jobs,
  affected (queued_before id before now) jobs == 1,
)

unfoldable pub has_failed : Bytes → JobRow → Bool
unfolding is_failed
has_failed id row = beq row.certificate_id id && is_failed row.status

unfoldable pub requeue_failed_job : Bytes → ℕ → List JobRow → List JobRow × Bool
unfolding update affected has_failed requeued
requeue_failed_job id now jobs =
    (update (has_failed id) (requeued now now) jobs, affected (has_failed id) jobs == 1)

-- `ready_at` of `job_schedule`: when `owner` may take a pending job.
unfoldable pub ready_at : Bytes → JobRow → ℕ
unfolding is_owner
ready_at owner row =
    max row.run_at
      (elim row.lease_until [ none ↦ 0 | some until ↦ if is_owner owner row then 0 else until + 1 ])
