-- ===== src/Store/Claims.antt =====
-- What a claim of a certificate job gives its owner, and when it succeeds.
use opentunnel.Prelude.{
  ℕ, ◌+◌, ◌≤◌, ◌≡◌, ◌≢◌, ◌↔◌, refl, inl, inr, Bool, true, false, ◌&&◌, Option, none, some, List, [],
  ◌∷◌, arith, Bytes, beq, beq_refl, beq→eq, Bool-cases, Option-cases, &&_true,
}
use opentunnel.Store.Jobs.{
  JobRow, Job, Status, pending, done, failed, abandoned, is_pending, is_owner, lease_over, lease_ms,
  find_job, job_from_row, claimable, lease_to, claim_job, extendable, extend_lease, is_held_by,
  finish_job, ready_at,
}
use opentunnel.Store.Rows.{
  Distinct, after, find_job-update, update-Distinct, affected-none, affected_found,
  find_owned_found,
}
use opentunnel.Store.Leases.{IsLease, IsHeld, Steps, Steps-IsHeld, not_claimable}

pub keyed_left : (a b : Bool) → (a && b) ≡ true → a ≡ true
keyed_left a b h = (&&_true a b h).0

pub find_job-key :
    (id : Bytes) (jobs : List JobRow) (row : JobRow)
    → find_job id jobs ≡ some row
    → beq row.certificate_id id ≡ true
unfolding find_job
find_job-key id [] row f = absurd (cc f)
find_job-key id (r ∷ jobs) row f = elim (Bool-cases (beq r.certificate_id id)) [
  | inl e ↦ let same : r ≡ row = cc (rw e at f) in rw same at e
  | inr e ↦ find_job-key id jobs row (rw e at f)
]

pending_row : (status : Status) → is_pending status ≡ true → status ≡ pending
unfolding is_pending
pending_row pending h = refl
pending_row done h = cc
pending_row failed h = cc
pending_row abandoned h = cc

claimable-ready_at :
    (id owner : Bytes) (now : ℕ) (row : JobRow)
    → beq row.certificate_id id ≡ true
    → row.status ≡ pending
    → (claimable id owner now row ≡ true) ↔ (ready_at owner row ≤ now)
unfolding claimable ready_at lease_over is_pending
claimable-ready_at id owner now row key p = elim (Option-cases row.lease_until) [
  | inl e ↦ rw (key, p, e) ground arith
  | inr (till, e) ↦ elim (Bool-cases (is_owner owner row)) [
    | inl o ↦ rw (key, p, e, o) ground arith
    | inr o ↦ rw (key, p, e, o) ground arith
  ]
]

module _ (id owner : Bytes) (now : ℕ) (jobs : List JobRow) (d : Distinct jobs) where
  claim_job_missing : find_job id jobs ≡ none → (claim_job id owner now jobs).1 ≡ none
  unfolding claim_job claimable
  claim_job_missing f =
      rw (affected-none (claimable id owner now) id (λ r h. keyed_left _ _ h) jobs f) refl

  module _ (row : JobRow) (found : find_job id jobs ≡ some row) where
    claim_job_refused : claimable id owner now row ≡ false → (claim_job id owner now jobs).1 ≡ none
    unfolding claim_job claimable
    claim_job_refused f =
        rw
          (affected_found (claimable id owner now) id (λ r h. keyed_left _ _ h) jobs row d found, f)
          refl

    claimed_row :
        claimable id owner now row ≡ true
        → find_job id (claim_job id owner now jobs).0 ≡ some (lease_to owner now row)
    unfolding claim_job after lease_to
    claimed_row c =
        rw
          (
            find_job-update (claimable id owner now) (lease_to owner now) (λ r. refl) id jobs,
            found,
            after,
            c,
          )
          refl

    claim_job_granted :
        claimable id owner now row ≡ true
        → (claim_job id owner now jobs).1 ≡ some (job_from_row row)
    unfolding claim_job claimable lease_to is_owner job_from_row
    claim_job_granted c =
        rw
          (affected_found (claimable id owner now) id (λ r h. keyed_left _ _ h) jobs row d found, c)
          (find_owned_found id owner _ (lease_to owner now row) (claimed_row c) (beq_refl owner))

    -- A pending job is claimed exactly from the time on that `job_schedule` names for the owner, and the
    -- claim returns it.
    pub claim_job_iff :
        row.status ≡ pending
        → ((claim_job id owner now jobs).1 ≡ some (job_from_row row)) ↔ (ready_at owner row ≤ now)
    claim_job_iff p = (
      λ c. ready.0 (elim (Bool-cases (claimable id owner now row)) [
        | inl e ↦ e
        | inr e ↦ absurd (cc (claim_job_refused e, c))
      ]),
      λ h. claim_job_granted (ready.1 h),
    )
      where
        ready : (claimable id owner now row ≡ true) ↔ (ready_at owner row ≤ now)
        ready = claimable-ready_at id owner now row (find_job-key id jobs row found) p

    lease :
        claimable id owner now row ≡ true
        → IsLease id owner (now + lease_ms) (lease_to owner now row)
    unfolding lease_to claimable is_pending
    lease c = record {
      keyed = beq→eq row.certificate_id id (find_job-key id jobs row found);
      status = pending_row row.status (&&_true _ _ (&&_true _ _ c).1).0;
      holder = refl;
      till = now + lease_ms;
      leased = refl;
      long = omega arith;
    }

  claim_job-IsHeld :
      (job : Job)
      → (claim_job id owner now jobs).1 ≡ some job
      → IsHeld id owner (now + lease_ms) (claim_job id owner now jobs).0
  unfolding IsHeld claim_job
  claim_job-IsHeld job c = elim (Option-cases (find_job id jobs)) [
    | inl f ↦ absurd (cc (claim_job_missing f, c))
    | inr (row, f) ↦ elim (Bool-cases (claimable id owner now row)) [
      | inr e ↦ absurd (cc (claim_job_refused row f e, c))
      | inl e ↦ (
        update-Distinct (claimable id owner now) (lease_to owner now) (λ r. refl) jobs d,
        (lease_to owner now row, claimed_row row f e, lease row f e),
      )
    ]
  ]

-- The statements that a holder ends with find its row.
module _ (id owner : Bytes) (until : ℕ) (jobs : List JobRow) where
  is_held-by : (row : JobRow) → IsLease id owner until row → is_held_by id owner row ≡ true
  unfolding is_held_by is_owner
  is_held-by row l = rw (l.keyed, l.holder, beq_refl id, beq_refl owner) refl

  held_finishes :
      IsHeld id owner until jobs
      → (status : Status) (error : Option Bytes) (at : ℕ)
      → (finish_job id owner status error at jobs).1 ≡ true
  unfolding IsHeld finish_job is_held_by
  held_finishes (d, (row, found, l)) status error at =
      rw
        (
          affected_found (is_held_by id owner) id (λ r h. keyed_left _ _ h) jobs row d found,
          is_held-by row l,
        )
        refl

  held_extends : IsHeld id owner until jobs → (at : ℕ) → (extend_lease id owner at jobs).1 ≡ true
  unfolding IsHeld extend_lease extendable is_owner is_pending
  held_extends (d, (row, found, l)) at =
      rw (affected_found (extendable id owner) id (λ r h. keyed_left _ _ h) jobs row d found)
        (rw (l.keyed, l.holder, l.status, beq_refl id, beq_refl owner) refl)

  held_refuses :
      IsHeld id owner until jobs
      → (other : Bytes) (at : ℕ) → other ≢ owner
      → at ≤ until
      → (claim_job id other at jobs).1 ≡ none
  unfolding IsHeld
  held_refuses (d, (row, found, l)) other at n early =
      claim_job_refused id other at jobs d row found
        (not_claimable id owner until id other at (inl n) early row l)

-- A process that claimed a job holds it until `lease_ms` later: whatever other processes do in the
-- meantime, and it on other certificates, no other process claims the job, and its own extending of the
-- lease and finishing of the job succeed.
pub claim_job_exclusive :
    (id owner : Bytes) (now : ℕ) (jobs jobs' : List JobRow) (job : Job)
    → Distinct jobs
    → (claim_job id owner now jobs).1 ≡ some job
    → Steps id owner (now + lease_ms) (claim_job id owner now jobs).0 jobs'
    → ((other : Bytes) (at : ℕ)
        → other ≢ owner
        → at ≤ now + lease_ms
        → (claim_job id other at jobs').1 ≡ none)
      × ((at : ℕ) → (extend_lease id owner at jobs').1 ≡ true)
      × ((status : Status) (error : Option Bytes) (at : ℕ)
          → (finish_job id owner status error at jobs').1 ≡ true)
claim_job_exclusive id owner now jobs jobs' job d c steps =
    let held =
      Steps-IsHeld id owner (now + lease_ms) steps (claim_job-IsHeld id owner now jobs d job c) in
    (
      held_refuses id owner (now + lease_ms) jobs' held,
      held_extends id owner (now + lease_ms) jobs' held,
      held_finishes id owner (now + lease_ms) jobs' held,
    )
