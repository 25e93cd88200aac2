-- ===== src/Lifecycle/Recovering.antt =====
-- Lemmas on the handlers that the job runner calls.
use opentunnel.Lifecycle.Cache.{live}
use opentunnel.Lifecycle.Triples.{read_cached-Triple, at_sound, next, return-Triple, bind, Ends}
use opentunnel.Lifecycle.Locks.{lock_fresh-Ends}
use opentunnel.Prelude.{ℕ, ◌+◌, ◌≡◌, true, false, &&_true, some, Bytes}
use opentunnel.Record.{StoredTunnel, CertificateState, is_deleted}
use opentunnel.Lifecycle.World.{External, Tables}
use opentunnel.Lifecycle.Reports.{
  info_state, is_failed_state, update_certificate, wants_certificate, wanted,
}
use opentunnel.Lifecycle.Recovery.{
  FailedJob, waits_failed, waits_unready, resume_tunnel, show_if_failed, retry_failed_job,
  retry_pending_job,
}
use opentunnel.Lifecycle.Spec.{IsSound, IsWell}
use opentunnel.Lifecycle.Steps.{Keeps-Triple, Keeps-call}
use opentunnel.Lifecycle.Statements.{requeue_failed-Kept, requeue_queued_before-Kept}
use opentunnel.Lifecycle.Parts.{resume_issue-Keeps, resume_renewal-Keeps}
use opentunnel.Lifecycle.Changes.{is_id-some}
use opentunnel.Lifecycle.Handlers.{Holding, done, handler-Triple, either_Ends}
use opentunnel.Lifecycle.Reporting.{update_record-Ends, show_issuing-Ends}

waits_failed-certificate_id :
    (certificate_id : Bytes) (t : StoredTunnel)
    → waits_failed certificate_id t ≡ true
    → t.certificate_id ≡ some certificate_id
unfolding waits_failed
waits_failed-certificate_id certificate_id t e =
    is_id-some certificate_id t.certificate_id (&&_true _ _ (&&_true _ _ e).1).0

waits_unready-certificate_id :
    (certificate_id : Bytes) (t : StoredTunnel)
    → waits_unready certificate_id t ≡ true
    → t.certificate_id ≡ some certificate_id
unfolding waits_unready
waits_unready-certificate_id certificate_id t e =
    is_id-some certificate_id t.certificate_id (&&_true _ _ e).0

module _ (x : External) (base : Tables) (id : Bytes)
    (reads : (t : StoredTunnel) → x.from_json (x.json t) ≡ some t) where
  pub update_certificate-Ends :
      (certificate_id : Bytes) (state : CertificateState)
      → Ends x base id (IsSound x base id) (update_certificate x id certificate_id state)
  unfolding update_certificate
  update_certificate-Ends certificate_id state =
      handler-Triple x base id reads (λ s. done false)
        (λ s t well alive. update_record-Ends x base id t well alive certificate_id state)

  pub resume_tunnel-Ends :
      (now grace_ms : ℕ) → Ends x base id (IsSound x base id) (resume_tunnel x now grace_ms id)
  unfolding resume_tunnel
  resume_tunnel-Ends now grace_ms =
      handler-Triple x base id reads (λ s. done 0)
        (λ s t well alive.
          bind (Keeps-Triple (resume_issue-Keeps x base id _ now grace_ms t well)) (λ first.
            bind (Keeps-Triple (resume_renewal-Keeps x base id _ now grace_ms t well))
              (λ second. done (first + second))))

  pub retry_failed_job-Ends :
      (now : ℕ) (job : FailedJob)
      → Ends x base id (IsSound x base id) (retry_failed_job x now job id)
  unfolding retry_failed_job
  retry_failed_job-Ends now job =
      handler-Triple x base id reads (λ s. done false)
        (λ s t well alive.
          either_Ends (waits_failed job.certificate_id t)
            (λ e.
              bind (Keeps-Triple (Keeps-call _ (requeue_failed-Kept x job.certificate_id now)))
                (λ won.
                  either_Ends won
                    (λ _.
                      show_issuing-Ends x base id t well alive job.certificate_id
                        (waits_failed-certificate_id _ t e))
                    (λ _. done false)))
            (λ _. done false))

  show_if_failed-Ends :
      (certificate_id : Bytes) (t : StoredTunnel)
      → IsWell x id t
      → is_deleted t ≡ false
      → t.certificate_id ≡ some certificate_id
      → Ends x base id (Holding x base id t) (show_if_failed x certificate_id t)
  unfolding show_if_failed
  show_if_failed-Ends certificate_id t well alive e =
      either_Ends (info_state t.certificate is_failed_state)
        (λ _. show_issuing-Ends x base id t well alive certificate_id e) (λ _. done true)

  pub retry_pending_job-Ends :
      (now : ℕ) (job : FailedJob)
      → Ends x base id (IsSound x base id) (retry_pending_job x now job id)
  unfolding retry_pending_job
  retry_pending_job-Ends now job =
      handler-Triple x base id reads (λ s. done false)
        (λ s t well alive.
          either_Ends (waits_unready job.certificate_id t)
            (λ e.
              bind
                (Keeps-Triple (Keeps-call _ (requeue_queued_before-Kept x job.certificate_id now)))
                (λ won.
                  either_Ends won
                    (λ _.
                      show_if_failed-Ends job.certificate_id t well alive
                        (waits_unready-certificate_id _ t e))
                    (λ _. done false)))
            (λ _. done false))

  pub wants_certificate-Ends :
      (certificate_id : Bytes)
      → Ends x base id (IsSound x base id) (wants_certificate x id certificate_id)
  unfolding wants_certificate
  wants_certificate-Ends certificate_id = next (lock_fresh-Ends x reads base id) (λ _.
      bind read_cached-Triple
        (λ s. at_sound (return-Triple (wanted certificate_id (live s.record_of)))))
