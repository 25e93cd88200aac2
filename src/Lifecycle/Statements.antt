-- ===== src/Lifecycle/Statements.antt =====
-- Lemmas on the statements that leave the texts of the records alone.
use opentunnel.Prelude.{
  arith, ℕ, ◌≡◌, inl, inr, Bool, Option, some, List, [], ◌∷◌, Bytes, All, beq, beq→eq, Bool-cases,
  Option-cases,
}
use opentunnel.Store.Jobs.{
  Job, JobRow, update, add_job, find_job, job_row, requeued, release, requeue_failed_job,
  requeue_job_queued_before, has_failed,
}
use opentunnel.Store.Tunnels.{TunnelRow, set_row, set_alarm}
use opentunnel.Store.Revisions.{text_of, revision_of}
use opentunnel.Lifecycle.World.{External, Tables}
use opentunnel.Lifecycle.Cache.{select_tunnel}
use opentunnel.Lifecycle.Issuance.{insert_job, alarm_row}
use opentunnel.Lifecycle.Renewals.{select_alarm}
use opentunnel.Lifecycle.Recovery.{select_job, requeue_failed, requeue_queued_before}
use opentunnel.Lifecycle.Spec.{TablesOk, JobOk, RowOk, Moves, Advances, unchanged}
use opentunnel.Lifecycle.Triples.{Moves-refl, Advances-refl}
use opentunnel.Lifecycle.Steps.{Kept}

module _ (x : External) where
  pub select_tunnel-Kept : (id : Bytes) → Kept x (select_tunnel id)
  unfolding Kept select_tunnel
  select_tunnel-Kept id t h = (h, Moves-refl x t)

  pub select_alarm-Kept : (id : Bytes) → Kept x (select_alarm id)
  unfolding Kept select_alarm
  select_alarm-Kept id t h = (h, Moves-refl x t)

  pub select_job-Kept : (id : Bytes) → Kept x (select_job id)
  unfolding Kept select_job
  select_job-Kept id t h = (h, Moves-refl x t)

  jobs-Moves : (t : Tables) (jobs : List JobRow) → Moves x t (record t { jobs = jobs })
  unfolding Moves
  jobs-Moves t jobs id = Advances-refl x (t.tunnels id)

  with_jobs :
      (t : Tables) (jobs : List JobRow)
      → TablesOk x t
      → All (JobOk x) jobs
      → TablesOk x (record t { jobs = jobs })
  with_jobs t jobs h a = record { rows = h.rows; jobs = a }

  pub insert_job-Kept :
      (job : Job) (run_at : ℕ) → JobOk x (job_row job run_at) → Kept x (insert_job job run_at)
  unfolding Kept insert_job add_job
  insert_job-Kept job run_at ok t h = elim (Option-cases (find_job job.certificate_id t.jobs)) [
    | inl e ↦ rw (e, add_job) (with_jobs t _ h (ok, h.jobs), jobs-Moves t _)
    | inr (row, e) ↦ rw (e, add_job) (h, Moves-refl x t)
  ]

  update-JobOk :
      (holds : JobRow → Bool) (set : JobRow → JobRow)
      → ((row : JobRow) → JobOk x row → JobOk x (set row))
      → (jobs : List JobRow) → All (JobOk x) jobs
      → All (JobOk x) (update holds set jobs)
  unfolding update
  update-JobOk holds set keeps [] h = tt
  update-JobOk holds set keeps (row ∷ jobs) h = (
    elim (Bool-cases (holds row)) [ inl e ↦ rw e (keeps row h.0) | inr e ↦ rw e h.0 ],
    update-JobOk holds set keeps jobs h.1,
  )

  requeued-JobOk :
      (now created_at : ℕ) (row : JobRow) → JobOk x row → JobOk x (requeued now created_at row)
  unfolding requeued release JobOk
  requeued-JobOk now created_at row h = h

  pub requeue_failed-Kept : (id : Bytes) (now : ℕ) → Kept x (requeue_failed id now)
  unfolding Kept requeue_failed requeue_failed_job
  requeue_failed-Kept id now t h = (
    with_jobs t _ h
        (update-JobOk (has_failed id) (requeued now now) (requeued-JobOk now now) t.jobs h.jobs),
    jobs-Moves t _,
  )

  pub requeue_queued_before-Kept : (id : Bytes) (now : ℕ) → Kept x (requeue_queued_before id now)
  unfolding Kept requeue_queued_before requeue_job_queued_before
  requeue_queued_before-Kept id now t h =
      (with_jobs t _ h (update-JobOk _ _ (requeued-JobOk now _) t.jobs h.jobs), jobs-Moves t _)

  -- One row changes, in order.
  pub set_row-Kept :
      (id : Bytes) (new : TunnelRow) (t : Tables)
      → RowOk x id (some new)
      → Advances x (t.tunnels id) (some new)
      → TablesOk x t
      → TablesOk x (record t { tunnels = set_row id new t.tunnels })
        × Moves x t (record t { tunnels = set_row id new t.tunnels })
  unfolding Moves set_row
  set_row-Kept id new t ok advances h = (
    record {
      rows = λ id'. elim (Bool-cases (beq id' id)) [
        | inl s ↦ rw (s, set_row, beq→eq id' id s) ok
        | inr s ↦ rw (s, set_row) (h.rows id')
      ];
      jobs = h.jobs;
    },
    λ id'. elim (Bool-cases (beq id' id)) [
      | inl s ↦ rw (s, set_row, beq→eq id' id s) advances
      | inr s ↦ rw (s, set_row) (Advances-refl x (t.tunnels id'))
    ],
  )

  alarm-Kept :
      (id : Bytes) (at : Option ℕ) (row : TunnelRow) (t : Tables)
      → t.tunnels id ≡ some row
      → TablesOk x t
      → TablesOk x (record t { tunnels = set_row id (record row { alarm_at = at }) t.tunnels })
        × Moves x t (record t { tunnels = set_row id (record row { alarm_at = at }) t.tunnels })
  unfolding RowOk Advances text_of revision_of
  alarm-Kept id at row t e h =
      set_row-Kept id (record row { alarm_at = at }) t (rw e at (h.rows id))
        (rw e (0, omega arith, unchanged)) h

  pub alarm_row-Kept : (id : Bytes) (at : Option ℕ) → Kept x (alarm_row id at)
  unfolding Kept alarm_row set_alarm
  alarm_row-Kept id at t h = elim (Option-cases (t.tunnels id)) [
    | inl e ↦ rw (e, set_alarm) (h, Moves-refl x t)
    | inr (row, e) ↦ rw (e, set_alarm) (alarm-Kept id at row t e h)
  ]
