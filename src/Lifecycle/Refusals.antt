-- ===== src/Lifecycle/Refusals.antt =====
-- The requests that `bind_certificate` refuses.
use opentunnel.Lifecycle.Saves.{save}
use opentunnel.Prelude.{◌≡◌, refl, Bool, true, false, ◌++◌, Option, none, some, Bytes, beq, codes}
use opentunnel.Record.{StoredTunnel, CertificateInfo, issuing}
use opentunnel.Store.Jobs.{issue}
use opentunnel.Limits.{Verdict, allowed, limited}
use opentunnel.Lifecycle.World.{
  External, CsrRequest, World, Result, ok, err, Op, ◌>>=◌, ◌>>◌, continue_with, return, fail,
  from_result, attempt, read_cached, certificate_changed, certificate_failed, read_now, emit,
}
use opentunnel.Lifecycle.Cache.{live, lock_fresh}
use opentunnel.Lifecycle.Issuance.{ensure_issuance, announce}
use opentunnel.Lifecycle.Bind.{
  Bind, Gate, bound, not_found, unauthorized, in_progress, backlogged, invalid_request, unavailable,
  invalid_hostname, wildcard, joined, any_foreign, busy, resumed, issuing_tunnel, issuance_started,
  start_issuance, if_allowed, within_limits, resume_answer, bind_request, bind_names,
  bind_certificate, failed_tunnel,
}

-- An answer that says why no certificate is asked for.
unfoldable pub refuses : Bind → Bool
refuses (bound c) = false
refuses (unavailable reason) = false
refuses _ = true

module _ (x : External) where
  -- Its answers are no refusals.
  record Grants (m : Op Bind) : Type 0 where
    pub granted : (w : World) (b : Bind) → (m w).1 ≡ ok b → refuses b ≡ false

  -- Where it refuses, it changes nothing.
  record Quiet (m : Op Bind) : Type 0 where
    pub unchanged : (w : World) (b : Bind) → (m w).1 ≡ ok b → refuses b ≡ true → (m w).0 ≡ w

  return-Grants : (b : Bind) → refuses b ≡ false → Grants (return b)
  unfolding return
  return-Grants b e = record { granted = λ w b' e'. let same : b ≡ b' = cc e' in rw (← same) e }

  return-Quiet : (b : Bind) → Quiet (return b)
  unfolding return
  return-Quiet b = record { unchanged = λ w b' e r. refl }

  Grants-Quiet : {m : Op Bind} → Grants m → Quiet m
  Grants-Quiet g = record { unchanged = λ w b e r. absurd (cc (g.granted w b e, r)) }

  continued :
      {A : Type 0} (f : A → Op Bind) (r : World × Result A)
      → ((a : A) → Grants (f a))
      → (b : Bind) → (continue_with f r).1 ≡ ok b
      → refuses b ≡ false
  unfolding continue_with
  continued f (w, ok a) g b e = (g a).granted w b e
  continued f (w, err e') g b e = absurd (cc e)

  Grants-bind :
      {A : Type 0} (m : Op A) {f : A → Op Bind} → ((a : A) → Grants (f a)) → Grants (m >>= f)
  unfolding ◌>>=◌
  Grants-bind m {f} g = record { granted = λ w b e. continued f (m w) g b e }

  Grants-next : {A : Type 0} (m : Op A) {k : Op Bind} → Grants k → Grants (m >> k)
  unfolding ◌>>◌
  Grants-next m g = Grants-bind m (λ a. g)

  issuance_started-Grants :
      (certificate_id : Bytes) (t : StoredTunnel) (r : Result (Unit {0}))
      → Grants (issuance_started x certificate_id t r)
  unfolding issuance_started
  issuance_started-Grants certificate_id t (ok a) =
      return-Grants (bound (record { id = certificate_id; state = issuing }))
        (unfold refuses in refl)
  issuance_started-Grants certificate_id t (err e) = Grants-next (emit (certificate_failed false)) (
      Grants-next (save x (failed_tunnel x certificate_id (x.message e) t))
        (return-Grants (unavailable (x.message e)) (unfold refuses in refl)))

  start_issuance-Grants :
      (certificate_id id csr : Bytes) (request : CsrRequest) (t : StoredTunnel)
      → Grants (start_issuance x certificate_id id csr request t)
  unfolding start_issuance
  start_issuance-Grants certificate_id id csr request t = Grants-bind read_now (λ now.
      let t' = issuing_tunnel x certificate_id csr request now t in
      Grants-next (save x t') (
        Grants-next (announce x (certificate_changed id)) (
          Grants-bind (attempt (ensure_issuance x t' issue))
            (λ r. issuance_started-Grants certificate_id t' r))))

  resume_answer-Grants :
      (c : CertificateInfo) (r : Result (Unit {0})) → Grants (resume_answer x c r)
  unfolding resume_answer
  resume_answer-Grants c (ok a) = return-Grants (bound c) (unfold refuses in refl)
  resume_answer-Grants c (err e) =
      return-Grants (unavailable (x.message e)) (unfold refuses in refl)

  either_Quiet :
      (b : Bool) {m k : Op Bind} → Quiet m → Quiet k → Quiet (elim b [ true ↦ m | false ↦ k ])
  either_Quiet true h h' = h
  either_Quiet false h h' = h'

  within_limits-Quiet :
      (gate : Option Gate) {m : Op Bind} → Quiet m → Quiet (within_limits x gate m)
  unfolding within_limits
  within_limits-Quiet none h = h
  within_limits-Quiet (some gate) {m} h =
      either_Quiet gate.backlogged (return-Quiet backlogged) (judged gate.issuance)
    where
      judged : (r : Result Verdict) → Quiet (from_result r >>= λ verdict. if_allowed x verdict m)
      judged (ok allowed) = record {
        unchanged = unfold ◌>>=◌ continue_with from_result return if_allowed in h.unchanged;
      }
      judged (ok (limited retry_after_ms)) = record {
        unchanged = unfold ◌>>=◌ continue_with from_result return if_allowed in λ w b e r. refl;
      }
      judged (err e) = record {
        unchanged = unfold ◌>>=◌ continue_with from_result fail in λ w b e r. refl;
      }

  bind_request-Quiet :
      (gate : Option Gate) (certificate_id id csr : Bytes) (request : CsrRequest) (t : StoredTunnel)
      → Quiet (bind_request x gate certificate_id id csr request t)
  unfolding bind_request
  bind_request-Quiet gate certificate_id id csr request t = found (resumed csr t)
    where
      found :
          (o : Option CertificateInfo)
          → Quiet (elim o [
            | some c ↦ attempt (ensure_issuance x t issue) >>= λ started. resume_answer x c started
            | none ↦ elim (busy t.certificate) [
              | true ↦ return in_progress
              | false ↦ within_limits x gate (start_issuance x certificate_id id csr request t)
            ]
          ])
      found (some c) =
          Grants-Quiet
            (Grants-bind (attempt (ensure_issuance x t issue)) (λ r. resume_answer-Grants c r))
      found none = either_Quiet (busy t.certificate) (return-Quiet in_progress) (
          within_limits-Quiet gate
            (Grants-Quiet (start_issuance-Grants certificate_id id csr request t)))

  bind_names-Quiet :
      (gate : Option Gate) (certificate_id id csr : Bytes) (request : CsrRequest) (t : StoredTunnel)
      → Quiet (bind_names x gate certificate_id id csr request t)
  unfolding bind_names
  bind_names-Quiet gate certificate_id id csr request t =
      either_Quiet (beq request.hostname t.hostname)
        (either_Quiet (any_foreign t.hostname request.identifiers)
          (return-Quiet (
            invalid_hostname (joined request.identifiers)
              (t.hostname ++ codes "," ++ wildcard t.hostname)))
          (bind_request-Quiet gate certificate_id id csr request t))
        (return-Quiet (invalid_hostname request.hostname t.hostname))

  -- Where the lock succeeds and `bind_certificate` refuses, it leaves everything as the lock left it.
  pub refused_unchanged :
      (gate : Option Gate) (certificate_id id token csr : Bytes) (w w' : World) (b : Bind)
      → lock_fresh x id w ≡ (w', ok tt)
      → (bind_certificate x gate certificate_id id token csr w).1 ≡ ok b
      → refuses b ≡ true
      → (bind_certificate x gate certificate_id id token csr w).0 ≡ w'
  unfolding bind_certificate ◌>>=◌ ◌>>◌ continue_with read_cached
  refused_unchanged gate certificate_id id token csr w w' b l e r =
      rw l ((answer (live w'.cached.record_of)).unchanged w' b (rw l at e) r)
    where
      parsed :
          (t : StoredTunnel) (o : Option CsrRequest)
          → Quiet (elim o [
            | none ↦ return (invalid_request (codes "Failed to parse CSR"))
            | some request ↦ bind_names x gate certificate_id id csr request t
          ])
      parsed t none = return-Quiet (invalid_request (codes "Failed to parse CSR"))
      parsed t (some request) = bind_names-Quiet gate certificate_id id csr request t

      answer :
          (o : Option StoredTunnel)
          → Quiet (elim o [
            | none ↦ return not_found
            | some t ↦ elim (x.token_matches token t.token_hash) [
              | false ↦ return unauthorized
              | true ↦ elim (x.parse_csr csr) [
                | none ↦ return (invalid_request (codes "Failed to parse CSR"))
                | some request ↦ bind_names x gate certificate_id id csr request t
              ]
            ]
          ])
      answer none = return-Quiet not_found
      answer (some t) =
          either_Quiet (x.token_matches token t.token_hash) (parsed t (x.parse_csr csr))
            (return-Quiet unauthorized)
