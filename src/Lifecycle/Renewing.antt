-- ===== src/Lifecycle/Renewing.antt =====
-- Lemmas on the handlers that renew certificates.
use opentunnel.Prelude.{
  ℕ, ◌+◌, ◌-◌, ◌≡◌, refl, Bool, true, false, not, ◌&&◌, ◌||◌, leb, ltb, Option, none, some, Bytes,
}
use opentunnel.Record.{StoredTunnel, Renewal, is_deleted, is_some, certificate_ready, online}
use opentunnel.Store.Jobs.{renew}
use opentunnel.Lifecycle.World.{
  External, Tables, Cached, Result, err, ◌>>=◌, return, read_now, certificate_failed,
}
use opentunnel.Lifecycle.Renewals.{
  renew_before_ms, expiry_ms, is_active, renewal_started, start_renewal, is_renewing, renew_due,
  alarm, has_stale, on_attached, read_alarm, schedule_unless, note_connection, connected_tunnel,
  is_recent, after_attach, renewal_retry_ms,
}
use opentunnel.Lifecycle.Spec.{IsSound, IsWell, renewal_set, connected}
use opentunnel.Lifecycle.Triples.{bind, next, read_now-Triple, Ends, either}
use opentunnel.Lifecycle.Steps.{Keeps-Triple, Keeps-emit, Keeps-attempt}
use opentunnel.Lifecycle.Parts.{
  set_alarm_at-Keeps, ensure_issuance-Keeps, schedule_renewal-Keeps, read_alarm-Keeps,
  schedule_unless-Keeps,
}
use opentunnel.Lifecycle.Changes.{renewal-IsWell, expiry-certificate_ready, connected-IsWell}
use opentunnel.Lifecycle.Handlers.{
  Holding, ends, done, handler-Triple, either_Ends, save_change, live_handler-Triple,
}

module _ (x : External) (reads : (t : StoredTunnel) → x.from_json (x.json t) ≡ some t)
    (base : Tables) (id : Bytes) where
  renewal_started-Ends :
      (certificate_id : Bytes) (t : StoredTunnel) (r : Option Renewal) (result : Result (Unit {0}))
      → IsWell x id t
      → is_deleted t ≡ false
      → certificate_ready t ≡ true
      → Ends x base id
          (Holding x base id (record t { renewal = r }))
          (renewal_started x certificate_id t result)
  unfolding renewal_started is_deleted certificate_ready
  renewal_started-Ends certificate_id t r (Result.ok _) well alive is_ready = done tt
  renewal_started-Ends certificate_id t r (err e) well alive is_ready =
      next (Keeps-Triple (Keeps-emit (certificate_failed true))) (λ _.
        next
          (save_change x base id (record t { renewal = r }) t alive well
            (renewal_set t.renewal is_ready))
          (λ _.
            bind read_now-Triple
              (λ now. ends (set_alarm_at-Keeps x base id _ t.id (some (now + renewal_retry_ms))))))

  start_renewal-Ends :
      (certificate_id : Bytes) (t : StoredTunnel)
      → IsWell x id t
      → is_deleted t ≡ false
      → certificate_ready t ≡ true
      → Ends x base id (Holding x base id t) (start_renewal x certificate_id t)
  unfolding start_renewal
  start_renewal-Ends certificate_id t well alive is_ready =
      either_Ends (is_some t.certificate_csr)
        (λ csr. bind read_now-Triple (λ now.
          let r : Renewal = record { certificate_id = certificate_id; started_at = x.iso now } in
          let well' = renewal-IsWell x id t (some r) well csr in
          next
            (save_change x base id t (record t { renewal = some r }) alive well'
              (renewal_set (some r) is_ready))
            (λ _.
              bind (Keeps-Triple (Keeps-attempt (ensure_issuance-Keeps x base id _ _ renew well')))
                (λ result.
                  renewal_started-Ends certificate_id t (some r) result well alive is_ready))))
        (λ _. done tt)

  renew_due-Ends :
      (certificate_id : Bytes) (expiry now : ℕ) (s : Cached) (t : StoredTunnel)
      → IsWell x id t
      → is_deleted t ≡ false
      → certificate_ready t ≡ true
      → Ends x base id (Holding x base id t) (renew_due x certificate_id expiry now s t)
  unfolding renew_due
  renew_due-Ends certificate_id expiry now s t well alive is_ready =
      either (is_renewing x now t.renewal) (done tt) (
        either (ltb now (expiry - renew_before_ms)) (ends (schedule_renewal-Keeps x base id _ t)) (
          either (is_active x now s.attached t)
            (start_renewal-Ends certificate_id t well alive is_ready) (done tt)))

  -- The alarm keeps all in order.
  pub alarm-Ends :
      (certificate_id : Bytes) → Ends x base id (IsSound x base id) (alarm x certificate_id id)
  unfolding alarm
  alarm-Ends certificate_id =
      handler-Triple x base id reads (λ s. done tt)
        (λ s t well alive. renews s t well alive (expiry_ms x t) refl)
    where
      renews :
          (s : Cached) (t : StoredTunnel)
          → IsWell x id t
          → is_deleted t ≡ false
          → (o : Option ℕ) → expiry_ms x t ≡ o
          → Ends x base id (Holding x base id t) (elim o [
            | none ↦ return tt
            | some expiry ↦ read_now >>= λ now. renew_due x certificate_id expiry now s t
          ])
      renews s t well alive none e = done tt
      renews s t well alive (some expiry) e = bind read_now-Triple (λ now.
          renew_due-Ends certificate_id expiry now s t well alive
            (expiry-certificate_ready x id t expiry e))

  pub on_attached-Ends :
      (certificate_id : Bytes) (t : StoredTunnel) (read : Option (Option ℕ))
      → IsWell x id t
      → is_deleted t ≡ false
      → Ends x base id (Holding x base id t) (on_attached x certificate_id t read)
  unfolding on_attached
  on_attached-Ends certificate_id t read well alive = attached (expiry_ms x t) refl
    where
      attached :
          (o : Option ℕ)
          → expiry_ms x t ≡ o
          → Ends x base id (Holding x base id t) (elim o [
            | none ↦ return tt
            | some expiry ↦ read_now >>= λ now.
                elim ((not (is_some t.renewal) || has_stale x now t.renewal)
                  && leb (expiry - renew_before_ms) now) [
                    | true ↦ start_renewal x certificate_id t
                    | false ↦ read_alarm t.id read >>= λ at. schedule_unless x t at
                  ]
          ])
      attached none e = done tt
      attached (some expiry) e = bind read_now-Triple (λ now.
          either
            ((not (is_some t.renewal) || has_stale x now t.renewal)
              && leb (expiry - renew_before_ms) now)
            (start_renewal-Ends certificate_id t well alive
              (expiry-certificate_ready x id t expiry e))
            (bind (Keeps-Triple (read_alarm-Keeps x base id _ t.id read))
              (λ at. ends (schedule_unless-Keeps x base id _ t at))))

  note_connection-Ends :
      (certificate_id : Bytes) (read : Option (Option ℕ)) (now : ℕ) (t : StoredTunnel)
      → IsWell x id t
      → is_deleted t ≡ false
      → Ends x base id (Holding x base id t) (note_connection x certificate_id read now t)
  unfolding note_connection connected_tunnel is_deleted
  note_connection-Ends certificate_id read now t well alive =
      let t' = record t { state = online; last_connected_at = some (x.iso now) } in
      let well' : IsWell x id t' = connected-IsWell x id t online (some (x.iso now)) well in
      either (is_recent x now t) (on_attached-Ends certificate_id t read well alive) (
        next (save_change x base id t t' alive well' (connected online (some (x.iso now))))
          (λ _. on_attached-Ends certificate_id t' read well' alive))

  pub after_attach-Ends :
      (certificate_id : Bytes) (attached : Bool) (read : Option (Option ℕ))
      → Ends x base id (IsSound x base id) (after_attach x certificate_id attached read)
  unfolding after_attach
  after_attach-Ends certificate_id attached read =
      live_handler-Triple x base id (λ s. done tt)
        (λ s t well alive.
          either attached
            (bind read_now-Triple
              (λ now. note_connection-Ends certificate_id read now t well alive))
            (done tt))
