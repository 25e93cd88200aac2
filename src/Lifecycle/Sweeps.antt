-- ===== src/Lifecycle/Sweeps.antt =====
-- The loops of `resume_orphaned_issuance` and `retry_failed_issuance`, over the entries of all tunnels.
use opentunnel.Prelude.{
  ℕ, ◌+◌, Bool, true, false, none, some, List, [], ◌∷◌, ◌==◌, if◌then◌else◌, Bytes, beq, length,
}
use opentunnel.Lifecycle.World.{External, Cached, World, Result, ok, err, Op}
use opentunnel.Lifecycle.Issuance.{job_added}
use opentunnel.Lifecycle.Recovery.{
  FailedJob, gave_up_early, one_of, resume_tunnel, retry_failed_job, retry_pending_job,
}

-- `Service.tunnels`: an entry is empty until it is used.
abbrev pub Entries : Type 0
Entries = Bytes → Cached

abbrev pub Sweep : Type 0 → Type 0
Sweep A = Entries × World → (Entries × World) × Result A

unfoldable pub set_entry : Bytes → Cached → Entries → Entries
set_entry id s entries id' = if beq id' id then s else entries id'

-- `m` under the lock of one entry.
unfoldable pub at_entry : {A : Type 0} → Bytes → Op A → Sweep A
unfolding set_entry
at_entry id m (entries, w) =
    let (w', r) = m (record w { cached = entries id }) in ((set_entry id w'.cached entries, w'), r)

unfoldable pub then_sweep :
    {A B : Type 0} → (Entries × World) × Result A → (A → Sweep B) → (Entries × World) × Result B
then_sweep (s, ok a) f = f a s
then_sweep (s, err e) f = (s, err e)

module _ (x : External) (now : ℕ) where
  unfoldable pub resume_loop : ℕ → List Bytes → ℕ → Sweep ℕ
  unfolding then_sweep at_entry resume_tunnel
  resume_loop grace_ms [] resumed s = (s, ok resumed)
  resume_loop grace_ms (id ∷ ids) resumed s =
      then_sweep (at_entry id (resume_tunnel x now grace_ms id) s)
        (λ more. resume_loop grace_ms ids (resumed + more))

  unfoldable pub note_won : Bytes → Bool → List Bytes → List Bytes
  note_won id won seen = if won then id ∷ seen else seen

  -- The IDs requeued, newest first.
  unfoldable pub retry_failed_loop : List FailedJob → List Bytes → Sweep (List Bytes)
  unfolding then_sweep at_entry retry_failed_job gave_up_early note_won
  retry_failed_loop [] seen s = (s, ok seen)
  retry_failed_loop (job ∷ jobs) seen s = elim (gave_up_early job) [
    | false ↦ retry_failed_loop jobs seen s
    | true ↦ elim job.tunnel_id [
      | none ↦ retry_failed_loop jobs seen s
      | some id ↦
          then_sweep (at_entry id (retry_failed_job x now job id) s)
            (λ won. retry_failed_loop jobs (note_won job.certificate_id won seen))
    ]
  ]

  unfoldable pub retry_pending_loop : List FailedJob → List Bytes → ℕ → Sweep ℕ
  unfolding then_sweep at_entry retry_pending_job one_of
  retry_pending_loop [] seen requeued s = (s, ok requeued)
  retry_pending_loop (job ∷ jobs) seen requeued s = elim (one_of job.certificate_id seen) [
    | true ↦ retry_pending_loop jobs seen requeued s
    | false ↦ elim job.tunnel_id [
      | none ↦ retry_pending_loop jobs seen requeued s
      | some id ↦
          then_sweep (at_entry id (retry_pending_job x now job id) s)
            (λ won. retry_pending_loop jobs seen (if won then requeued + 1 else requeued))
    ]
  ]

  -- `candidates` are the IDs that `issuing_tunnels` returned.
  unfoldable pub resume_orphaned_issuance : ℕ → List Bytes → Sweep ℕ
  unfolding resume_loop
  resume_orphaned_issuance grace_ms candidates s = resume_loop grace_ms candidates 0 s

  -- Wakes the runners where a job was requeued.
  unfoldable pub wake_runners : ℕ → Sweep ℕ
  unfolding job_added
  wake_runners requeued (entries, w) =
      if requeued == 0
      then ((entries, w), ok requeued)
      else ((entries, (job_added x w).0), ok requeued)

  -- `failed` is what `failed_issue_jobs` returned, `stuck` what `authz_pending_issue_jobs` did.
  unfoldable pub retry_failed_issuance : List FailedJob → List FailedJob → Sweep ℕ
  unfolding then_sweep retry_failed_loop retry_pending_loop wake_runners
  retry_failed_issuance failed stuck s =
      then_sweep (retry_failed_loop failed [] s)
        (λ seen s'. then_sweep (retry_pending_loop stuck seen (length seen) s') wake_runners)
