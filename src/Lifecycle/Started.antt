-- ===== src/Lifecycle/Started.antt =====
-- Lemmas on starting the issuance of a certificate, and on the answer that names it.
use opentunnel.Lifecycle.Parts
use opentunnel.Prelude.{◌≡◌, ◌≢◌, refl, false, some, Bytes}
use opentunnel.Record.{StoredTunnel, CertificateInfo, failed, issuing, is_deleted}
use opentunnel.Store.Jobs.{issue}
use opentunnel.Lifecycle.World.{
  External, CsrRequest, Tables, Cached, World, Result, ok, err, certificate_changed,
  certificate_failed, return, attempt,
}
use opentunnel.Lifecycle.Issuance.{ensure_issuance}
use opentunnel.Lifecycle.Bind.{
  Bind, bound, unavailable, any_foreign, busy, issuing_tunnel, failed_tunnel, issuance_started,
  start_issuance, resume_answer,
}
use opentunnel.Lifecycle.Reports.{reported}
use opentunnel.Lifecycle.Spec.{IsWell, Progress, bound_anew, certificate_reported}
use opentunnel.Lifecycle.Triples.{
  At, After, Triple, bind, next, return-Triple, read_now-Triple, weaken,
}
use opentunnel.Lifecycle.Steps.{Keeps-Triple, Keeps-emit}
use opentunnel.Lifecycle.Parts.{announce-Keeps}
use opentunnel.Lifecycle.Changes.{issuing_tunnel-IsWell, reported-IsWell}
use opentunnel.Lifecycle.Written.{HasRecord}
use opentunnel.Lifecycle.Handlers.{Holding, save_change}
use opentunnel.Lifecycle.Bound.{HasJob, With, ensure_issuance-With}

-- Where the answer names a certificate, its job is there.
abbrev pub Promise : Bind → World → Type 0
Promise b w = (c : CertificateInfo) → b ≡ bound c → HasJob c.id w

module _ (x : External) (base : Tables) (id : Bytes) where
  -- An answer that names none.
  pub refuse :
      {Pre : World → Type 0} (b : Bind)
      → ((c : CertificateInfo) → b ≢ bound c)
      → Triple x base id Pre (return b) Promise
  refuse b other = weaken (λ w p c e. absurd (other c e)) (return-Triple b)

  abbrev pub AttemptWith : (C : Cached → Type 0) → Bytes → Result (Unit {0}) → World → Type 0
  AttemptWith C certificate_id (ok a) w = With x base id C certificate_id w
  AttemptWith C certificate_id (err e) w = At x base id C w

  pub ensured :
      (C : Cached → Type 0) (t : StoredTunnel) (certificate_id csr : Bytes)
      → IsWell x id t
      → t.certificate_id ≡ some certificate_id
      → t.certificate_csr ≡ some csr
      → Triple x base id
          (At x base id C)
          (attempt (ensure_issuance x t issue))
          (AttemptWith C certificate_id)
  unfolding attempt
  ensured C t certificate_id csr well e e' = record {
    run = λ w h.
        split (ensure_issuance x t issue w)
          ((ensure_issuance-With x base id C t certificate_id csr well e e').run w h)
          ((Parts.ensure_issuance-Keeps x base id C t issue well).kept w h);
  }
    where
      split :
          (r : World × Result (Unit {0}))
          → After x base id (λ _. With x base id C certificate_id) r
          → At x base id C r.0
          → After x base id (AttemptWith C certificate_id) (r.0, ok r.1)
      split (w, ok a) h k = unfold After in h
      split (w, err e) h k = unfold After in k

  pub resume_answer-Promise :
      (C : Cached → Type 0) (c : CertificateInfo) (r : Result (Unit {0}))
      → Triple x base id (AttemptWith C c.id r) (resume_answer x c r) Promise
  unfolding resume_answer
  resume_answer-Promise C c (ok a) = weaken (λ w h c' e. named w h.1 c' e) (return-Triple (bound c))
    where
      named :
          (w : World) → HasJob c.id w → (c' : CertificateInfo) → bound c ≡ bound c' → HasJob c'.id w
      named w h c' e = let same : c ≡ c' = cc e in rw (← same) h
  resume_answer-Promise C c (err e) = refuse (unavailable (x.message e)) (λ c e. cc e)

  issuance_started-Promise :
      (certificate_id : Bytes) (t : StoredTunnel) (r : Result (Unit {0}))
      → IsWell x id t
      → is_deleted t ≡ false
      → t.certificate_id ≡ some certificate_id
      → Triple x base id
          (AttemptWith (HasRecord (some t)) certificate_id r)
          (issuance_started x certificate_id t r)
          Promise
  unfolding issuance_started failed_tunnel reported
  issuance_started-Promise certificate_id t (ok a) well alive e =
      weaken (λ w h c' e'. named w h.1 c' e')
        (return-Triple (bound (record { id = certificate_id; state = issuing })))
    where
      named :
          (w : World)
          → HasJob certificate_id w
          → (c' : CertificateInfo)
          → bound (record { id = certificate_id; state = issuing }) ≡ bound c'
          → HasJob c'.id w
      named w h c' e' =
          let same : record { id = certificate_id; state = issuing } ≡ c' = cc e' in rw (← same) h
  issuance_started-Promise certificate_id t (err e') well alive e =
      let state = failed (x.message e') in
      let t' = record t { certificate = some (record { id = certificate_id; state = state }) } in
      let well' : IsWell x id t' = reported-IsWell x id t certificate_id state well e in
      let change : Progress t t' = certificate_reported certificate_id state e in
      next (Keeps-Triple (Keeps-emit (certificate_failed false))) (λ _.
        next (save_change x base id t t' alive well' change)
          (λ _. refuse (unavailable (x.message e')) (λ c e. cc e)))

  pub start_issuance-Promise :
      (certificate_id csr : Bytes) (request : CsrRequest) (t : StoredTunnel)
      → IsWell x id t
      → is_deleted t ≡ false
      → any_foreign t.hostname request.identifiers ≡ false
      → busy t.certificate ≡ false
      → Triple x base id
          (Holding x base id t)
          (start_issuance x certificate_id id csr request t)
          Promise
  unfolding start_issuance
  start_issuance-Promise certificate_id csr request t well alive own idle =
      bind read_now-Triple (λ now.
        let t' = issuing_tunnel x certificate_id csr request now t in
        let well' = issuing_tunnel-IsWell x id certificate_id csr request now t well own in
        next
          (save_change x base id t t' alive well' (
            unfold issuing_tunnel in
            bound_anew certificate_id csr (x.iso now) request.identifiers idle))
          (λ _. next (Keeps-Triple (announce-Keeps x base id _ (certificate_changed id))) (λ _.
            bind
              (ensured _ t' certificate_id csr well' (unfold issuing_tunnel in refl)
                (unfold issuing_tunnel in refl))
              (λ r.
                issuance_started-Promise certificate_id t' r well'
                  (unfold issuing_tunnel is_deleted in alive) (unfold issuing_tunnel in refl)))))
