-- ===== src/Lifecycle/Binding.antt =====
-- Lemmas on `bind_certificate` and what it writes.
use opentunnel.Lifecycle.Written.{HasRecord}
use opentunnel.Lifecycle.Steps
use opentunnel.Lifecycle.Issuance
use opentunnel.Prelude.{◌≡◌, refl, true, false, ◌++◌, Option, none, some, Bytes, beq, codes}
use opentunnel.Record.{StoredTunnel, CertificateInfo, failed, is_deleted}
use opentunnel.Store.Jobs.{issue}
use opentunnel.Limits.{Verdict, allowed, limited}
use opentunnel.Lifecycle.World.{
  External, CsrRequest, Tables, Cached, Result, err, Op, certificate_changed, certificate_failed,
  ◌>>=◌, return, fail, from_result, attempt,
}
use opentunnel.Lifecycle.Bind.{
  Bind, Gate, bound, not_found, unauthorized, in_progress, backlogged, invalid_request, unavailable,
  invalid_hostname, rate_limited, wildcard, joined, any_foreign, busy, resumed, issuing_tunnel,
  failed_tunnel, issuance_started, start_issuance, if_allowed, within_limits, resume_answer,
  bind_request, bind_names, bind_certificate,
}
use opentunnel.Lifecycle.Reports.{reported}
use opentunnel.Lifecycle.Spec.{IsSound, IsWell, bound_anew, certificate_reported, Progress}
use opentunnel.Lifecycle.Triples.{At, After, bind, next, read_now-Triple, Ends, either}
use opentunnel.Lifecycle.Steps.{Keeps-Triple, Keeps-emit, Keeps-attempt}
use opentunnel.Lifecycle.Parts.{announce-Keeps, ensure_issuance-Keeps}
use opentunnel.Lifecycle.Changes.{issuing_tunnel-IsWell, reported-IsWell}
use opentunnel.Lifecycle.Handlers.{Holding, done, handler-Triple, either_Ends, save_change}

module _ (x : External) (base : Tables) (id : Bytes) where
  issuance_started-Ends :
      (certificate_id : Bytes) (t : StoredTunnel) (result : Result (Unit {0}))
      → IsWell x id t
      → is_deleted t ≡ false
      → t.certificate_id ≡ some certificate_id
      → Ends x base id (Holding x base id t) (issuance_started x certificate_id t result)
  unfolding issuance_started failed_tunnel reported
  issuance_started-Ends certificate_id t (Result.ok _) well alive e = done (bound _)
  issuance_started-Ends certificate_id t (err e') well alive e =
      let state = failed (x.message e') in
      let t' = record t { certificate = some (record { id = certificate_id; state = state }) } in
      let well' : IsWell x id t' = reported-IsWell x id t certificate_id state well e in
      let change : Progress t t' = certificate_reported certificate_id state e in
      next (Keeps-Triple (Keeps-emit (certificate_failed false))) (λ _.
        next (save_change x base id t t' alive well' change)
          (λ _. done (unavailable (x.message e'))))

  start_issuance-Ends :
      (certificate_id csr : Bytes) (request : CsrRequest) (t : StoredTunnel)
      → IsWell x id t
      → is_deleted t ≡ false
      → any_foreign t.hostname request.identifiers ≡ false
      → busy t.certificate ≡ false
      → Ends x base id (Holding x base id t) (start_issuance x certificate_id id csr request t)
  unfolding start_issuance
  start_issuance-Ends certificate_id csr request t well alive own idle =
      bind read_now-Triple (λ now.
        let t' = issuing_tunnel x certificate_id csr request now t in
        let well' = issuing_tunnel-IsWell x id certificate_id csr request now t well own in
        next
          (save_change x base id t t' alive well' (
            unfold issuing_tunnel in
            bound_anew certificate_id csr (x.iso now) request.identifiers idle))
          (λ _. next (Keeps-Triple (announce-Keeps x base id _ (certificate_changed id))) (λ _.
            bind (Keeps-Triple (Keeps-attempt (ensure_issuance-Keeps x base id _ t' issue well')))
              (λ result.
                issuance_started-Ends certificate_id t' result well'
                  (unfold issuing_tunnel is_deleted in alive) (unfold issuing_tunnel in refl)))))

  within_limits-Ends :
      (gate : Option Gate) (t : StoredTunnel) {m : Op Bind}
      → Ends x base id (Holding x base id t) m
      → Ends x base id (Holding x base id t) (within_limits x gate m)
  unfolding within_limits from_result fail return After
  within_limits-Ends none t h = h
  within_limits-Ends (some gate) t {m} h =
      either gate.backlogged (done backlogged)
        (bind (Keeps-Triple (answered gate.issuance)) (λ verdict. judged verdict))
    where
      answered : (r : Result Verdict) → Steps.Keeps x base id (HasRecord (some t)) (from_result r)
      answered (Result.ok verdict) = unfold from_result in Steps.Keeps-return verdict
      answered (err e) = unfold from_result in Steps.Keeps-fail e

      judged : (verdict : Verdict) → Ends x base id (Holding x base id t) (if_allowed x verdict m)
      judged allowed = unfold if_allowed in h
      judged (limited retry_after_ms) = unfold if_allowed in done (rate_limited retry_after_ms)

  resume_answer-Ends :
      {C : Cached → Type 0} (c : CertificateInfo) (result : Result (Unit {0}))
      → Ends x base id (At x base id C) (resume_answer x c result)
  unfolding resume_answer
  resume_answer-Ends c (Result.ok _) = done (bound c)
  resume_answer-Ends c (err e) = done (unavailable (x.message e))

  bind_request-Ends :
      (gate : Option Gate) (certificate_id csr : Bytes) (request : CsrRequest) (t : StoredTunnel)
      → IsWell x id t
      → is_deleted t ≡ false
      → any_foreign t.hostname request.identifiers ≡ false
      → Ends x base id (Holding x base id t) (bind_request x gate certificate_id id csr request t)
  unfolding bind_request
  bind_request-Ends gate certificate_id csr request t well alive own = found (resumed csr t)
    where
      found :
          (o : Option CertificateInfo)
          → Ends x base id (Holding x base id t) (elim o [
            | some c ↦ attempt (Issuance.ensure_issuance x t issue) >>= λ started.
                resume_answer x c started
            | none ↦ elim (busy t.certificate) [
              | true ↦ return in_progress
              | false ↦ within_limits x gate (start_issuance x certificate_id id csr request t)
            ]
          ])
      found (some c) =
          bind (Keeps-Triple (Keeps-attempt (ensure_issuance-Keeps x base id _ t issue well)))
            (λ result. resume_answer-Ends c result)
      found none =
          either_Ends (busy t.certificate) (λ _. done in_progress)
            (λ idle.
              within_limits-Ends gate t
                (start_issuance-Ends certificate_id csr request t well alive own idle))

  bind_names-Ends :
      (gate : Option Gate) (certificate_id csr : Bytes) (request : CsrRequest) (t : StoredTunnel)
      → IsWell x id t
      → is_deleted t ≡ false
      → Ends x base id (Holding x base id t) (bind_names x gate certificate_id id csr request t)
  unfolding bind_names
  bind_names-Ends gate certificate_id csr request t well alive =
      either (beq request.hostname t.hostname)
        (either_Ends (any_foreign t.hostname request.identifiers)
          (λ _. done (
            invalid_hostname (joined request.identifiers)
              (t.hostname ++ codes "," ++ wildcard t.hostname)))
          (λ own. bind_request-Ends gate certificate_id csr request t well alive own))
        (done (invalid_hostname request.hostname t.hostname))

  pub bind_certificate-Ends :
      (reads : (t : StoredTunnel) → x.from_json (x.json t) ≡ some t) (gate : Option Gate)
      (certificate_id token csr : Bytes)
      → Ends x base id (IsSound x base id) (bind_certificate x gate certificate_id id token csr)
  unfolding bind_certificate
  bind_certificate-Ends reads gate certificate_id token csr =
      handler-Triple x base id reads (λ s. done not_found)
        (λ s t well alive.
          either (x.token_matches token t.token_hash) (parsed t well alive (x.parse_csr csr))
            (done unauthorized))
    where
      parsed :
          (t : StoredTunnel)
          → IsWell x id t
          → is_deleted t ≡ false
          → (o : Option CsrRequest)
          → Ends x base id (Holding x base id t) (elim o [
            | none ↦ return (invalid_request (codes "Failed to parse CSR"))
            | some request ↦ bind_names x gate certificate_id id csr request t
          ])
      parsed t well alive none = done (invalid_request (codes "Failed to parse CSR"))
      parsed t well alive (some request) =
          bind_names-Ends gate certificate_id csr request t well alive
