-- ===== src/Store/Tests.antt =====
-- Runs of the database statements, and the theorems applied to them.
use opentunnel.Prelude.{
  subst, beq, beq_refl, ℕ, ◌+◌, ◌≤◌, ◌≡◌, ◌≢◌, ◌↔◌, refl, inl, true, false, Option, none, some,
  List, [], ◌∷◌, arith, Bytes, codes,
}
use opentunnel.Store.Jobs.{
  JobRow, Job, Status, pending, issue, lease_ms, find_job, add_job, job_row, job_from_row,
  claim_job, extend_lease, finish_job, retry_job, ready_at, requeue_job_queued_before,
}
use opentunnel.Store.Rows.{Distinct}
use opentunnel.Store.Leases.{here, next, claims}
use opentunnel.Store.Claims.{claim_job_iff, claim_job_exclusive}
use opentunnel.Store.Requeues
use opentunnel.Store.Requeues.{requeue_once}

abbrev certificate : Bytes
certificate = codes "cert_1"

abbrev me : Bytes
me = codes "machine-a"

abbrev other : Bytes
other = codes "machine-b"

abbrev job : Job
job = record {
  certificate_id = certificate;
  tunnel_id = some (codes "abc");
  kind = issue;
  identifiers = codes "abc.opentunnel.xyz" ∷ [];
  csr = codes "csr";
  attempts = 0;
  created_at = 10;
}

abbrev jobs : List JobRow
jobs = (add_job job 20 []).0

abbrev claimed : List JobRow
claimed = (claim_job certificate me 30 jobs).0

distinct : Distinct jobs
unfolding Distinct find_job add_job job_row
distinct = (refl, tt)

others : other ≢ me
others e =
    let same : false ≡ true = subst (λ x. beq other x ≡ true) e (beq_refl other) in absurd (cc same)

claim_again : (claim_job certificate me 40 claimed).1 ≡ some job
unfolding claim_job add_job job_row
claim_again = refl

finish_frees :
    (claim_job certificate other 50 (retry_job certificate me 1 45 (codes "x") 41 claimed).0).1
    ≡ some (record job { attempts = 1 })
unfolding claim_job retry_job add_job
finish_frees = refl

claim_job_iff_example :
    ((claim_job certificate other 30 jobs).1 ≡ some (job_from_row (job_row job 20)))
    ↔ (ready_at other (job_row job 20) ≤ 30)
claim_job_iff_example =
    claim_job_iff certificate other 30 jobs distinct (job_row job 20) found status
  where
    found : find_job certificate jobs ≡ some (job_row job 20)
    found = unfold find_job add_job job_row in refl

    status : (job_row job 20).status ≡ pending
    status = unfold job_row in refl

claim_job_exclusive_example :
    ((who : Bytes) (at : ℕ)
      → who ≢ me
      → at ≤ 30 + lease_ms
      → (claim_job certificate who at (claim_job certificate other 60 claimed).0).1 ≡ none)
    × ((at : ℕ)
        → (extend_lease certificate me at (claim_job certificate other 60 claimed).0).1 ≡ true)
    × ((status : Status) (error : Option Bytes) (at : ℕ)
        → (finish_job certificate me status error at (claim_job certificate other 60 claimed).0).1
          ≡ true)
unfolding claim_job add_job job_row
claim_job_exclusive_example =
    claim_job_exclusive certificate me 30 jobs (claim_job certificate other 60 claimed).0 job
      distinct refl (next here (claims certificate other 60 (inl others) (omega arith)))

requeue_once_example :
    (requeue_job_queued_before certificate 1000 90
      (claim_job certificate other 60 (requeue_job_queued_before certificate 1000 50 jobs).0).0).1
    ≡ false
unfolding requeue_job_queued_before add_job
requeue_once_example =
    requeue_once certificate 1000 50 90 jobs
      (claim_job certificate other 60 (requeue_job_queued_before certificate 1000 50 jobs).0).0
      distinct refl (Requeues.next Requeues.here (Requeues.claims certificate other 60))
