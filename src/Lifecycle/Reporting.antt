-- ===== src/Lifecycle/Reporting.antt =====
-- Lemmas on `update_certificate` and `wants_certificate`.
use opentunnel.Prelude.{ℕ, ◌+◌, ◌≡◌, refl, true, false, none, some, Bytes}
use opentunnel.Record.{
  StoredTunnel, CertificateState, ready, failed, challenge, issuing, is_deleted,
}
use opentunnel.Lifecycle.World.{
  External, Tables, World, Op, certificate_changed, certificate_failed, certificate_renewed,
  attempt,
}
use opentunnel.Lifecycle.Saves.{save}
use opentunnel.Lifecycle.Issuance.{renewal_id}
use opentunnel.Lifecycle.Renewals.{renewal_retry_ms}
use opentunnel.Lifecycle.Reports.{
  is_id, is_renewal, is_ready_state, reported, renewed, update_renewal, update_current,
  update_record,
}
use opentunnel.Lifecycle.Recovery.{issuing_again, show_issuing}
use opentunnel.Lifecycle.Spec.{IsWell, renewal_given_up, renewal_issued, certificate_reported}
use opentunnel.Lifecycle.Triples
use opentunnel.Lifecycle.Triples.{
  After, Triple, bind, next, read_now-Triple, return-Triple, weaken, Ends, either, IsSound-after,
}
use opentunnel.Lifecycle.Steps.{Keeps-Triple, Keeps-emit}
use opentunnel.Lifecycle.Parts.{
  announce-Keeps, announce_if-Keeps, set_alarm_at-Keeps, schedule_renewal-Keeps,
  publish_change-Keeps,
}
use opentunnel.Lifecycle.Changes.{
  is_id-some, is_renewal-some, given_up-IsWell, reported-IsWell, renewed-IsWell,
}
use opentunnel.Lifecycle.Handlers.{Holding, ends, done, either_Ends, save_change}

module _ (x : External) (base : Tables) (id : Bytes) (t : StoredTunnel) (well : IsWell x id t)
    (alive : is_deleted t ≡ false) where
  update_renewal-Ends :
      (certificate_id : Bytes) (now : ℕ) (state : CertificateState)
      → renewal_id t.renewal ≡ some certificate_id
      → Ends x base id (Holding x base id t) (update_renewal x id t certificate_id now state)
  unfolding update_renewal
  update_renewal-Ends certificate_id now (challenge token key) e = done tt
  update_renewal-Ends certificate_id now issuing e = done tt
  update_renewal-Ends certificate_id now (ready certificate chain expiry) e =
      let state : CertificateState = ready certificate chain expiry in
      let t' = renewed t certificate_id state in
      next
        (save_change x base id t t' alive (renewed-IsWell x id t certificate_id state well e)
          (renewal_issued certificate_id state e (unfold is_ready_state in refl)))
        (λ _. next (Keeps-Triple (announce-Keeps x base id _ (certificate_changed id))) (λ _.
          next (Keeps-Triple (schedule_renewal-Keeps x base id _ t'))
            (λ _. ends (Keeps-emit certificate_renewed))))
  update_renewal-Ends certificate_id now (failed reason) e =
      next (Keeps-Triple (Keeps-emit (certificate_failed true))) (λ _.
        next
          (save_change x base id t (record t { renewal = none }) alive (given_up-IsWell x id t well)
            renewal_given_up)
          (λ _. ends (set_alarm_at-Keeps x base id _ id (some (now + renewal_retry_ms)))))

  update_current-Ends :
      (certificate_id : Bytes) (state : CertificateState)
      → t.certificate_id ≡ some certificate_id
      → Ends x base id (Holding x base id t) (update_current x id t certificate_id state)
  unfolding update_current
  update_current-Ends certificate_id state e =
      let t' = reported t certificate_id state in
      next
        (save_change x base id t t' alive (reported-IsWell x id t certificate_id state well e)
          (certificate_reported certificate_id state e))
        (λ _.
          next
            (Keeps-Triple
              (announce_if-Keeps x base id _ (is_ready_state state) (certificate_changed id)))
            (λ _.
              next (Keeps-Triple (schedule_renewal-Keeps x base id _ t'))
                (λ _. ends (publish_change-Keeps x base id _ t.certificate state))))

  pub update_record-Ends :
      (certificate_id : Bytes) (state : CertificateState)
      → Ends x base id (Holding x base id t) (update_record x id t certificate_id state)
  unfolding update_record
  update_record-Ends certificate_id state = bind read_now-Triple (λ now.
      either_Ends (is_renewal certificate_id t.renewal)
        (λ e.
          next
            (update_renewal-Ends certificate_id now state
              (is_renewal-some certificate_id t.renewal e))
            (λ _. return-Triple true))
        (λ _.
          either_Ends (is_id certificate_id t.certificate_id)
            (λ e.
              next
                (update_current-Ends certificate_id state
                  (is_id-some certificate_id t.certificate_id e))
                (λ _. return-Triple true))
            (λ _. done false)))

  attempted :
      {A : Type 0} {Pre : World → Type 0} {m : Op A}
      → Ends x base id Pre m
      → Ends x base id Pre (attempt m)
  unfolding attempt After
  attempted {m} h = record { run = λ w p. IsSound-after (λ a w' k. k) h w p }

  pub show_issuing-Ends :
      (certificate_id : Bytes)
      → t.certificate_id ≡ some certificate_id
      → Ends x base id (Holding x base id t) (show_issuing x certificate_id t)
  unfolding show_issuing issuing_again
  show_issuing-Ends certificate_id e =
      bind
        (attempted (
          shown (
            save_change x base id t (reported t certificate_id issuing) alive
              (reported-IsWell x id t certificate_id issuing well e)
              (certificate_reported certificate_id issuing e))))
        (λ _. return-Triple true)
    where
      shown :
          Triple x base id
            (Holding x base id t)
            (save x (reported t certificate_id issuing))
            (λ _. Holding x base id (reported t certificate_id issuing))
          → Ends x base id (Holding x base id t) (
              save x
                (record t { certificate = some (record { id = certificate_id; state = issuing }) }))
      shown h = unfold reported in Triples.relax (λ a w p. p.sound) h
