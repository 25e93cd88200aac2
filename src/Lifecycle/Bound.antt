-- ===== src/Lifecycle/Bound.antt =====
-- The job of a certificate that a handler made sure of.
use opentunnel.Prelude.{
  ℕ, ◌≡◌, refl, inl, inr, Bool, true, false, ◌++◌, Option, none, some, List, [], ◌∷◌, Bytes,
  beq_refl, Option-cases,
}
use opentunnel.Record.{StoredTunnel, is_some}
use opentunnel.Store.Jobs.{Job, job_row, issue, add_job, find_job}
use opentunnel.Lifecycle.World.{
  External, Tables, Cached, World, ok, Op, Effect, jobs_woken, job_enqueued, ◌>>=◌, ◌>>◌,
  continue_with, return, emit, call, fail, missing_id, missing_csr,
}
use opentunnel.Lifecycle.Issuance.{
  announce, job_added, required, issuance_id, issuance_job, insert_job, ensure_issuance,
}
use opentunnel.Lifecycle.Spec.{IsWell}
use opentunnel.Lifecycle.Triples.{At, After, Triple, bind, return-Triple, read_now-Triple}
use opentunnel.Lifecycle.Steps.{after_statement, Kept-IsSound, call-Triple}
use opentunnel.Lifecycle.Statements.{insert_job-Kept}
use opentunnel.Lifecycle.Written.{given}
use opentunnel.Lifecycle.Parts.{job_added-Keeps, issuance_job-JobOk}

-- The table has the certificate's job.
unfoldable pub HasJob : Bytes → World → Type 0
HasJob certificate_id w = is_some (find_job certificate_id w.tables.jobs) ≡ true

module _ (x : External) where
  insert_job-HasJob :
      (job : Job) (run_at : ℕ) (w : World)
      → HasJob job.certificate_id (after_statement (insert_job job run_at) w)
  unfolding HasJob after_statement insert_job add_job find_job job_row is_some
  insert_job-HasJob job run_at w = elim (Option-cases (find_job job.certificate_id w.tables.jobs)) [
    | inl e ↦ rw (e, add_job, beq_refl job.certificate_id) refl
    | inr (row, e) ↦ rw (e, add_job) (rw e refl)
  ]

  announced :
      (clustered : Bool) (e : Effect) (w : World)
      → (effects : List Effect) × ((elim clustered as (λ _. Op (Unit {0})) [
        | true ↦ emit e
        | false ↦ return tt
      ])
            w
          ≡ (record w { effects = effects }, ok tt))
  unfolding emit return
  announced true e w = (_, refl)
  announced false e w = (w.effects, refl)

  -- Only what it tells others changes.
  pub job_added_run :
      (w : World)
      → (effects : List Effect) × (job_added x w ≡ (record w { effects = effects }, ok tt))
  unfolding job_added announce ◌>>◌ ◌>>=◌ continue_with emit
  job_added_run w =
      let (effects, e) =
        announced x.clustered job_enqueued (record w { effects = w.effects ++ jobs_woken ∷ [] }) in
      (effects, e)

  module _ (base : Tables) (id : Bytes) (C : Cached → Type 0) where
    -- As before, and the job is there.
    abbrev pub With : Bytes → World → Type 0
    With certificate_id w = At x base id C w × HasJob certificate_id w

    job_added-With :
        (certificate_id : Bytes)
        → Triple x base id (With certificate_id) (job_added x) (λ _. With certificate_id)
    job_added-With certificate_id = record {
      run = λ w h. added w h (job_added_run w) ((job_added-Keeps x base id C).kept w h.0);
    }
      where
        added :
            (w : World)
            → With certificate_id w
            → (effects : List Effect) × (job_added x w ≡ (record w { effects = effects }, ok tt))
            → At x base id C (job_added x w).0
            → After x base id (λ _. With certificate_id) (job_added x w)
        added w h (effects, e) k = rw e (unfold After HasJob in (rw e at k, h.1))

    required-Triple :
        {Pre : World → Type 0} (o : Option Bytes) (a : Bytes) (m : Op Bytes)
        → o ≡ some a
        → Triple x base id Pre (required o m) (λ a' w. (a' ≡ a) × Pre w)
    unfolding required return After
    required-Triple none a m e = absurd (cc e)
    required-Triple (some a') a m e = record { run = λ w h. (cc e, h) }

    pub ensure_issuance-With :
        (t : StoredTunnel) (certificate_id csr : Bytes)
        → IsWell x id t
        → t.certificate_id ≡ some certificate_id
        → t.certificate_csr ≡ some csr
        → Triple x base id (At x base id C) (ensure_issuance x t issue) (λ _. With certificate_id)
    unfolding ensure_issuance issuance_id
    ensure_issuance-With t certificate_id csr well e e' =
        bind (required-Triple t.certificate_id certificate_id (fail missing_id) e) (λ a.
          given x base id (λ same.
            bind (required-Triple t.certificate_csr csr (fail missing_csr) e') (λ a'.
              given x base id (λ same'. bind read_now-Triple (λ created_at.
                bind read_now-Triple (λ run_at.
                  bind (inserted a a' created_at run_at same) (λ added. woken added)))))))
      where
        inserted :
            (a a' : Bytes) (created_at run_at : ℕ)
            → a ≡ certificate_id
            → Triple x base id
                (At x base id C)
                (call (insert_job (issuance_job t issue a a' created_at) run_at))
                (λ _. With certificate_id)
        inserted a a' created_at run_at same =
            let job = issuance_job t issue a a' created_at in
            let kept =
              insert_job-Kept x job run_at
                (issuance_job-JobOk x base id C t issue a a' created_at run_at well) in
            call-Triple x base id (insert_job job run_at) C (λ _. With certificate_id)
              (λ w h. Kept-IsSound x base id (insert_job job run_at) w kept h.sound)
              (λ w h. (
                record {
                  sound = Kept-IsSound x base id (insert_job job run_at) w kept h.sound;
                  about = unfold after_statement in h.about;
                },
                rw (← same) (unfold issuance_job in insert_job-HasJob job run_at w),
              ))

        woken :
            (added : Bool)
            → Triple x base id
                (With certificate_id)
                (elim added [ true ↦ job_added x | false ↦ return tt ])
                (λ _. With certificate_id)
        woken true = job_added-With certificate_id
        woken false = return-Triple tt
