-- ===== src/Lifecycle/Requests.antt =====
-- Every request of one tunnel, each with what it draws and what it is told by other parts.
use opentunnel.Prelude.{ℕ, ◌≡◌, Bool, Option, some, Bytes}
use opentunnel.Record.{StoredTunnel, CertificateState}
use opentunnel.Lifecycle.World.{External, Tables, World, Op}
use opentunnel.Lifecycle.Cache.{lock_routable, exists, expire, invalidate}
use opentunnel.Lifecycle.Reread.{lock_for_attach}
use opentunnel.Lifecycle.Api.{create, info, certificate, remove}
use opentunnel.Lifecycle.Bind.{Gate, bind_certificate}
use opentunnel.Lifecycle.Renewals
use opentunnel.Lifecycle.Renewals.{after_attach}
use opentunnel.Lifecycle.Reports.{update_certificate, wants_certificate}
use opentunnel.Lifecycle.Recovery.{FailedJob, resume_tunnel, retry_failed_job, retry_pending_job}
use opentunnel.Lifecycle.Spec.{IsSound}
use opentunnel.Lifecycle.Triples.{Ends, IsSound-after}
use opentunnel.Lifecycle.Locks.{
  lock_routable-Ends, exists-Ends, lock_for_attach-Ends, expire-Ends, invalidate-Ends,
}
use opentunnel.Lifecycle.Renewing.{alarm-Ends, after_attach-Ends}
use opentunnel.Lifecycle.Serving.{create-Ends, info-Ends, certificate-Ends, remove-Ends}
use opentunnel.Lifecycle.Binding.{bind_certificate-Ends}
use opentunnel.Lifecycle.Recovering.{
  update_certificate-Ends, wants_certificate-Ends, resume_tunnel-Ends, retry_failed_job-Ends,
  retry_pending_job-Ends,
}

pub data Request : Type 0 where
  creates : Bytes → Request
  informs : Bool → Bytes → Request
  shows_certificate : Bytes → Request
  binds : Option Gate → Bytes → Bytes → Bytes → Request
  removes : Bytes → Request
  reports : Bytes → CertificateState → Request
  asks_wanted : Bytes → Request
  alarms : Bytes → Request
  locks_for_attach locks_to_expire locks_to_invalidate : Request
  attached : Bytes → Bool → Option (Option ℕ) → Request
  locks_routable asks_exists : Bool → Request
  resumes : ℕ → ℕ → Request
  retries_failed retries_pending : ℕ → FailedJob → Request

-- What a step leaves, whatever it returns.
unfoldable pub left_by : {A : Type 0} → Op A → World → World
left_by m w = (m w).0

unfoldable pub handle : External → Bytes → Request → World → World
unfolding left_by create info certificate bind_certificate remove update_certificate
    wants_certificate Renewals.alarm lock_for_attach expire invalidate after_attach lock_routable
    exists resume_tunnel retry_failed_job retry_pending_job
handle x id (creates token_hash) = left_by (create x id token_hash)
handle x id (informs elsewhere token) = left_by (info x elsewhere id token)
handle x id (shows_certificate token) = left_by (certificate x id token)
handle x id (binds gate certificate_id token csr) =
    left_by (bind_certificate x gate certificate_id id token csr)
handle x id (removes token) = left_by (remove x id token)
handle x id (reports certificate_id state) = left_by (update_certificate x id certificate_id state)
handle x id (asks_wanted certificate_id) = left_by (wants_certificate x id certificate_id)
handle x id (alarms certificate_id) = left_by (Renewals.alarm x certificate_id id)
handle x id locks_for_attach = left_by (lock_for_attach x id)
handle x id locks_to_expire = left_by expire
handle x id locks_to_invalidate = left_by invalidate
handle x id (attached certificate_id still read) =
    left_by (after_attach x certificate_id still read)
handle x id (locks_routable complete) = left_by (lock_routable x id complete)
handle x id (asks_exists complete) = left_by (exists x id complete)
handle x id (resumes now grace_ms) = left_by (resume_tunnel x now grace_ms id)
handle x id (retries_failed now job) = left_by (retry_failed_job x now job id)
handle x id (retries_pending now job) = left_by (retry_pending_job x now job id)

module _ (x : External) (reads : (t : StoredTunnel) → x.from_json (x.json t) ≡ some t)
    (base : Tables) (id : Bytes) where
  settled :
      {A : Type 0} {m : Op A}
      → Ends x base id (IsSound x base id) m
      → (w : World) → IsSound x base id w
      → IsSound x base id (left_by m w)
  unfolding left_by
  settled h w s = IsSound-after (λ a w' k. k) h w s

  pub handle-IsSound :
      (r : Request) (w : World) → IsSound x base id w → IsSound x base id (handle x id r w)
  unfolding handle
  handle-IsSound (creates token_hash) = settled (create-Ends x base id reads token_hash)
  handle-IsSound (informs elsewhere token) = settled (info-Ends x base id reads elsewhere token)
  handle-IsSound (shows_certificate token) = settled (certificate-Ends x base id reads token)
  handle-IsSound (binds gate certificate_id token csr) =
      settled (bind_certificate-Ends x base id reads gate certificate_id token csr)
  handle-IsSound (removes token) = settled (remove-Ends x base id reads token)
  handle-IsSound (reports certificate_id state) =
      settled (update_certificate-Ends x base id reads certificate_id state)
  handle-IsSound (asks_wanted certificate_id) =
      settled (wants_certificate-Ends x base id reads certificate_id)
  handle-IsSound (alarms certificate_id) = settled (alarm-Ends x reads base id certificate_id)
  handle-IsSound locks_for_attach = settled (lock_for_attach-Ends x reads base id)
  handle-IsSound locks_to_expire = settled (expire-Ends x reads base id)
  handle-IsSound locks_to_invalidate = settled (invalidate-Ends x reads base id)
  handle-IsSound (attached certificate_id still read) =
      settled (after_attach-Ends x reads base id certificate_id still read)
  handle-IsSound (locks_routable complete) = settled (lock_routable-Ends x reads base id complete)
  handle-IsSound (asks_exists complete) = settled (exists-Ends x reads base id complete)
  handle-IsSound (resumes now grace_ms) = settled (resume_tunnel-Ends x base id reads now grace_ms)
  handle-IsSound (retries_failed now job) = settled (retry_failed_job-Ends x base id reads now job)
  handle-IsSound (retries_pending now job) =
      settled (retry_pending_job-Ends x base id reads now job)
