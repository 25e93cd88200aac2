-- ===== src/Lifecycle/Promises.antt =====
-- The answer of `bind_certificate` that names a certificate.
use opentunnel.Prelude.{
  ◌≡◌, refl, Bool, true, false, ◌++◌, Option, none, some, Bytes, beq, codes, Option-cases,
  if◌then◌else◌, Bool-cases, inr, inl,
}
use opentunnel.Record.{StoredTunnel, CertificateInfo, is_deleted, is_some}
use opentunnel.Store.Jobs.{issue}
use opentunnel.Limits.{Verdict, allowed, limited}
use opentunnel.Lifecycle.World.{
  External, CsrRequest, Tables, World, Result, ok, err, Op, ◌>>=◌, return, from_result, attempt,
}
use opentunnel.Lifecycle.Issuance.{ensure_issuance}
use opentunnel.Lifecycle.Bind.{
  Bind, Gate, bound, not_found, unauthorized, in_progress, backlogged, invalid_request,
  invalid_hostname, rate_limited, wildcard, joined, any_foreign, same_csr, busy, resumed,
  start_issuance, if_allowed, within_limits, resume_answer, bind_request, bind_names,
  bind_certificate,
}
use opentunnel.Lifecycle.Spec.{IsSound, IsWell, IsPaired}
use opentunnel.Lifecycle.Triples.{After, Triple, bind, either}
use opentunnel.Lifecycle.Steps.{Keeps, Keeps-Triple, Keeps-return, Keeps-fail}
use opentunnel.Lifecycle.Written.{HasRecord}
use opentunnel.Lifecycle.Handlers.{Holding, handler-Triple}
use opentunnel.Lifecycle.Bound.{HasJob}
use opentunnel.Lifecycle.Started.{
  Promise, refuse, ensured, resume_answer-Promise, start_issuance-Promise,
}

module _ (x : External) (base : Tables) (id : Bytes) where
  -- What a resumed certificate of a well-formed record is.
  resumed_known :
      (csr : Bytes) (t : StoredTunnel) (c : CertificateInfo)
      → IsWell x id t
      → resumed csr t ≡ some c
      → (t.certificate_id ≡ some c.id) × ((csr' : Bytes) × (t.certificate_csr ≡ some csr'))
  unfolding resumed IsPaired is_some
  resumed_known csr t c well e = elim (Option-cases t.certificate) [
    | inl n ↦ absurd (cc (rw (n, resumed) at e))
    | inr (c', s) ↦
        let same : c' ≡ c = if_certificate csr t.certificate_csr c' c (rw (s, resumed) at e) in
        let paired : t.certificate_id ≡ some c'.id = rw s at well.paired in
        (
          rw (← same) paired,
          csr_known t.certificate_csr (well.requested (rw (paired, is_some) refl)),
        )
  ]
    where
      if_certificate :
          (csr : Bytes) (o : Option Bytes) (c c' : CertificateInfo)
          → (if same_csr csr o then some c else none) ≡ some c'
          → c ≡ c'
      if_certificate csr o c c' e = elim (Bool-cases (same_csr csr o)) [
        | inl s ↦ cc (rw s at e)
        | inr s ↦ absurd (cc (rw s at e))
      ]

      csr_known : (o : Option Bytes) → is_some o ≡ true → (csr' : Bytes) × (o ≡ some csr')
      csr_known none e = absurd (unfold is_some in cc e)
      csr_known (some csr') e = (csr', refl)

  within_limits-Promise :
      (gate : Option Gate) (t : StoredTunnel) {m : Op Bind}
      → Triple x base id (Holding x base id t) m Promise
      → Triple x base id (Holding x base id t) (within_limits x gate m) Promise
  unfolding within_limits
  within_limits-Promise none t h = h
  within_limits-Promise (some gate) t {m} h =
      either gate.backlogged (refuse x base id backlogged (λ c e. cc e))
        (bind (Keeps-Triple (answered gate.issuance)) (λ verdict. judged verdict))
    where
      answered : (r : Result Verdict) → Keeps x base id (HasRecord (some t)) (from_result r)
      answered (ok verdict) = unfold from_result in Keeps-return verdict
      answered (err e) = unfold from_result in Keeps-fail e

      judged :
          (verdict : Verdict)
          → Triple x base id (Holding x base id t) (if_allowed x verdict m) Promise
      judged allowed = unfold if_allowed in h
      judged (limited retry_after_ms) =
          unfold if_allowed in refuse x base id (rate_limited retry_after_ms) (λ c e. cc e)

  bind_request-Promise :
      (gate : Option Gate) (certificate_id csr : Bytes) (request : CsrRequest) (t : StoredTunnel)
      → IsWell x id t
      → is_deleted t ≡ false
      → any_foreign t.hostname request.identifiers ≡ false
      → Triple x base id
          (Holding x base id t)
          (bind_request x gate certificate_id id csr request t)
          Promise
  unfolding bind_request
  bind_request-Promise gate certificate_id csr request t well alive own = found (resumed csr t) refl
    where
      idle :
          (b : Bool)
          → busy t.certificate ≡ b
          → Triple x base id
              (Holding x base id t)
              (elim b [
                | true ↦ return in_progress
                | false ↦ within_limits x gate (start_issuance x certificate_id id csr request t)
              ])
              Promise
      idle true e = refuse x base id in_progress (λ c e. cc e)
      idle false e =
          within_limits-Promise gate t
            (start_issuance-Promise x base id certificate_id csr request t well alive own e)

      found :
          (o : Option CertificateInfo)
          → resumed csr t ≡ o
          → Triple x base id
              (Holding x base id t)
              (elim o [
                | some c ↦
                    attempt (ensure_issuance x t issue) >>= λ started. resume_answer x c started
                | none ↦ elim (busy t.certificate) [
                  | true ↦ return in_progress
                  | false ↦ within_limits x gate (start_issuance x certificate_id id csr request t)
                ]
              ])
              Promise
      found (some c) e =
          let (certificate, (csr', known)) = resumed_known csr t c well e in
          bind (ensured x base id (HasRecord (some t)) t c.id csr' well certificate known)
            (λ r. resume_answer-Promise x base id (HasRecord (some t)) c r)
      found none e = idle (busy t.certificate) refl

  bind_names-Promise :
      (gate : Option Gate) (certificate_id csr : Bytes) (request : CsrRequest) (t : StoredTunnel)
      → IsWell x id t
      → is_deleted t ≡ false
      → Triple x base id
          (Holding x base id t)
          (bind_names x gate certificate_id id csr request t)
          Promise
  unfolding bind_names
  bind_names-Promise gate certificate_id csr request t well alive =
      either (beq request.hostname t.hostname)
        (own (any_foreign t.hostname request.identifiers) refl)
        (refuse x base id (invalid_hostname request.hostname t.hostname) (λ c e. cc e))
    where
      own :
          (b : Bool)
          → any_foreign t.hostname request.identifiers ≡ b
          → Triple x base id
              (Holding x base id t)
              (elim b [
                | true ↦ return (
                    invalid_hostname
                      (joined request.identifiers)
                      (t.hostname ++ codes "," ++ wildcard t.hostname))
                | false ↦ bind_request x gate certificate_id id csr request t
              ])
              Promise
      own true e =
          refuse x base id
            (invalid_hostname (joined request.identifiers)
              (t.hostname ++ codes "," ++ wildcard t.hostname))
            (λ c e. cc e)
      own false e = bind_request-Promise gate certificate_id csr request t well alive e

  -- Where the JSON text of a record is read as that record, all was in order before, and `bind_certificate` answers
  -- with a certificate, the table has a job for that certificate.
  pub bound-HasJob :
      (reads : (t : StoredTunnel) → x.from_json (x.json t) ≡ some t) (gate : Option Gate)
      (certificate_id token csr : Bytes) (w : World) (c : CertificateInfo)
      → IsSound x base id w
      → (bind_certificate x gate certificate_id id token csr w).1 ≡ ok (bound c)
      → HasJob c.id (bind_certificate x gate certificate_id id token csr w).0
  bound-HasJob reads gate certificate_id token csr w c h e =
      kept (bind_certificate x gate certificate_id id token csr w)
        (bind_certificate-Promise.run w h) e
    where
      parsed :
          (t : StoredTunnel)
          → IsWell x id t
          → is_deleted t ≡ false
          → (o : Option CsrRequest)
          → Triple x base id
              (Holding x base id t)
              (elim o [
                | none ↦ return (invalid_request (codes "Failed to parse CSR"))
                | some request ↦ bind_names x gate certificate_id id csr request t
              ])
              Promise
      parsed t well alive none =
          refuse x base id (invalid_request (codes "Failed to parse CSR")) (λ c e. cc e)
      parsed t well alive (some request) =
          bind_names-Promise gate certificate_id csr request t well alive

      bind_certificate-Promise :
          Triple x base id
            (IsSound x base id)
            (bind_certificate x gate certificate_id id token csr)
            Promise
      bind_certificate-Promise =
          unfold bind_certificate in
          handler-Triple x base id reads (λ s. refuse x base id not_found (λ c e. cc e))
            (λ s t well alive.
              either (x.token_matches token t.token_hash) (parsed t well alive (x.parse_csr csr))
                (refuse x base id unauthorized (λ c e. cc e)))

      kept :
          (r : World × Result Bind)
          → After x base id Promise r
          → r.1 ≡ ok (bound c)
          → HasJob c.id r.0
      kept (w', ok b) h e = unfold After in h c (cc e)
      kept (w', err e') h e = absurd (cc e)
