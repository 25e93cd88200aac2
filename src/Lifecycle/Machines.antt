-- ===== src/Lifecycle/Machines.antt =====
-- All tunnels of one machine: requests on any of them, and the sweeps over many.
use opentunnel.Lifecycle.Bound.{job_added_run}
use opentunnel.Prelude.{
  ℕ, ◌+◌, ◌==◌, ◌≡◌, inl, inr, if◌then◌else◌, some, List, [], ◌∷◌, length, Bytes, beq, beq→eq,
  Bool-cases, Option-cases,
}
use opentunnel.Record.{StoredTunnel}
use opentunnel.Lifecycle.World.{External, Tables, World, Result, ok, err, Op, Effect}
use opentunnel.Lifecycle.Issuance.{job_added}
use opentunnel.Lifecycle.Recovery.{
  FailedJob, resume_tunnel, retry_failed_job, retry_pending_job, gave_up_early, one_of,
}
use opentunnel.Lifecycle.Sweeps.{
  Entries, set_entry, at_entry, then_sweep, resume_loop, retry_failed_loop, retry_pending_loop,
  note_won, resume_orphaned_issuance, wake_runners, retry_failed_issuance,
}
use opentunnel.Lifecycle.Requests.{Request, handle, handle-IsSound}
use opentunnel.Lifecycle.Spec.{IsSound, Moves}
use opentunnel.Lifecycle.Triples.{Ends, Moves-refl, Holds-later, Advances-IsLater, IsSound-after}
use opentunnel.Lifecycle.Recovering.{
  resume_tunnel-Ends, retry_failed_job-Ends, retry_pending_job-Ends,
}

pub data Event : Type 0 where
  requested : Bytes → Request → Event
  -- With the candidates of the query.
  resumed_orphans : ℕ → List Bytes → Event
  -- With what each query returned.
  retried : List FailedJob → List FailedJob → Event

unfoldable pub request_at : External → Bytes → Request → Entries × World → Entries × World
unfolding handle set_entry
request_at x id r (entries, w) =
    let w' = handle x id r (record w { cached = entries id }) in
    (set_entry id w'.cached entries, w')

unfoldable pub run_event : External → Event → Entries × World → Entries × World
unfolding request_at resume_orphaned_issuance retry_failed_issuance
run_event x (requested id r) s = request_at x id r s
run_event x (resumed_orphans grace_ms candidates) s =
    (resume_orphaned_issuance x s.1.now grace_ms candidates s).0
run_event x (retried failed stuck) s = (retry_failed_issuance x s.1.now failed stuck s).0

unfoldable pub run_events : External → List Event → Entries × World → Entries × World
unfolding run_event
run_events x [] s = s
run_events x (e ∷ es) s = run_events x es (run_event x e s)

-- Each entry is in order.
unfoldable pub AllSound : External → Tables → Entries × World → Type 0
AllSound x base s = (id : Bytes) → IsSound x base id (record s.1 { cached = s.0 id })

module _ (x : External) (base : Tables) where
  entry-AllSound :
      (id : Bytes) (entries : Entries) (w w' : World)
      → AllSound x base (entries, w)
      → IsSound x base id w'
      → Moves x w.tables w'.tables
      → AllSound x base (set_entry id w'.cached entries, w')
  unfolding AllSound set_entry Moves
  entry-AllSound id entries w w' all new moves id' = elim (Bool-cases (beq id' id)) [
    | inl e ↦
        rw (e, set_entry, beq→eq id' id e)
          (record {
            fair = new.fair;
            stored = new.stored;
            moved = new.moved;
            holds = new.holds;
            known = new.known;
          })
    | inr e ↦
        rw (e, set_entry)
          (record {
            fair = new.fair;
            stored = new.stored;
            moved = new.moved;
            holds =
                Holds-later x (entries id') (w.tables.tunnels id') (w'.tables.tunnels id')
                  (Advances-IsLater x _ _ (moves id')) (all id').holds;
            known = (all id').known;
          })
  ]

  -- The same state, seen from its own tables.
  from_here : (id : Bytes) (w : World) → IsSound x base id w → IsSound x w.tables id w
  from_here id w h = record {
    fair = h.fair;
    stored = h.stored;
    moved = Moves-refl x w.tables;
    holds = h.holds;
    known = h.known;
  }

  at_entry-AllSound :
      {A : Type 0} (id : Bytes) (m : Op A) (s : Entries × World)
      → ((base' : Tables) → Ends x base' id (IsSound x base' id) m)
      → AllSound x base s
      → AllSound x base (at_entry id m s).0
  unfolding at_entry
  at_entry-AllSound id m (entries, w) ends all =
      let w₀ : World = record w { cached = entries id } in
      let h : IsSound x base id w₀ = unfold AllSound in all id in
      entry-AllSound id entries w (m w₀).0 all (IsSound-after (λ a w' k. k) (ends base) w₀ h)
        (IsSound-after (λ a w' k. k) (ends w.tables) w₀ (from_here id w₀ h)).moved

  then-AllSound :
      {A B : Type 0} (r : (Entries × World) × Result A)
      (f : A → Entries × World → (Entries × World) × Result B)
      → AllSound x base r.0
      → ((a : A) (s : Entries × World) → AllSound x base s → AllSound x base (f a s).0)
      → AllSound x base (then_sweep r f).0
  unfolding then_sweep
  then-AllSound (s, ok a) f h next = next a s h
  then-AllSound (s, err e) f h next = h

  module _ (reads : (t : StoredTunnel) → x.from_json (x.json t) ≡ some t) (now : ℕ) where
    resume_loop-AllSound :
        (grace_ms : ℕ) (ids : List Bytes) (resumed : ℕ) (s : Entries × World)
        → AllSound x base s
        → AllSound x base (resume_loop x now grace_ms ids resumed s).0
    unfolding resume_loop
    resume_loop-AllSound grace_ms [] resumed s h = h
    resume_loop-AllSound grace_ms (id ∷ ids) resumed s h =
        then-AllSound (at_entry id (resume_tunnel x now grace_ms id) s) _
          (at_entry-AllSound id _ s (λ b. resume_tunnel-Ends x b id reads now grace_ms) h)
          (λ more s' h'. resume_loop-AllSound grace_ms ids (resumed + more) s' h')

    retry_failed_loop-AllSound :
        (jobs : List FailedJob) (seen : List Bytes) (s : Entries × World)
        → AllSound x base s
        → AllSound x base (retry_failed_loop x now jobs seen s).0
    unfolding retry_failed_loop
    retry_failed_loop-AllSound [] seen s h = h
    retry_failed_loop-AllSound (job ∷ jobs) seen s h = elim (Bool-cases (gave_up_early job)) [
      | inl e ↦
          rw (e, retry_failed_loop)
            (elim (Option-cases job.tunnel_id) [
              | inl t ↦ rw (t, retry_failed_loop) (retry_failed_loop-AllSound jobs seen s h)
              | inr (id, t) ↦
                  rw (t, retry_failed_loop)
                    (then-AllSound (at_entry id (retry_failed_job x now job id) s) _
                      (at_entry-AllSound id _ s (λ b. retry_failed_job-Ends x b id reads now job) h)
                      (λ won s' h'.
                        retry_failed_loop-AllSound jobs (note_won x now job.certificate_id won seen)
                          s' h'))
            ])
      | inr e ↦ rw (e, retry_failed_loop) (retry_failed_loop-AllSound jobs seen s h)
    ]

    retry_pending_loop-AllSound :
        (jobs : List FailedJob) (seen : List Bytes) (requeued : ℕ) (s : Entries × World)
        → AllSound x base s
        → AllSound x base (retry_pending_loop x now jobs seen requeued s).0
    unfolding retry_pending_loop
    retry_pending_loop-AllSound [] seen requeued s h = h
    retry_pending_loop-AllSound (job ∷ jobs) seen requeued s h =
        elim (Bool-cases (one_of job.certificate_id seen)) [
          | inl e ↦ rw (e, retry_pending_loop) (retry_pending_loop-AllSound jobs seen requeued s h)
          | inr e ↦
              rw (e, retry_pending_loop)
                (elim (Option-cases job.tunnel_id) [
                  | inl t ↦
                      rw (t, retry_pending_loop)
                        (retry_pending_loop-AllSound jobs seen requeued s h)
                  | inr (id, t) ↦
                      rw (t, retry_pending_loop)
                        (then-AllSound (at_entry id (retry_pending_job x now job id) s) _
                          (at_entry-AllSound id _ s
                            (λ b. retry_pending_job-Ends x b id reads now job) h)
                          (λ won s' h'.
                            retry_pending_loop-AllSound jobs seen
                              (if won then requeued + 1 else requeued) s' h'))
                ])
        ]

    told :
        (id : Bytes) (w : World) (effects : List Effect)
        → IsSound x base id w
        → IsSound x base id (record w { effects = effects })
    told id w effects h = record {
      fair = h.fair;
      stored = h.stored;
      moved = h.moved;
      holds = h.holds;
      known = h.known;
    }

    wake_runners-AllSound :
        (requeued : ℕ) (s : Entries × World)
        → AllSound x base s
        → AllSound x base (wake_runners x now requeued s).0
    unfolding wake_runners
    wake_runners-AllSound requeued (entries, w) h = elim (Bool-cases (requeued == 0)) [
      | inl e ↦ rw e h
      | inr e ↦ rw e woken
    ]
      where
        woken : AllSound x base (entries, (job_added x w).0)
        woken =
            let (effects, e) = job_added_run x w in
            rw e
              (unfold AllSound in λ id. told id (record w { cached = entries id }) effects (h id))

  module _ (reads : (t : StoredTunnel) → x.from_json (x.json t) ≡ some t) where
    run_event-AllSound :
        (e : Event) (s : Entries × World) → AllSound x base s → AllSound x base (run_event x e s)
    unfolding run_event request_at resume_orphaned_issuance retry_failed_issuance
    run_event-AllSound (requested id r) (entries, w) h =
        let w₀ : World = record w { cached = entries id } in
        let h₀ : IsSound x base id w₀ = unfold AllSound in h id in
        entry-AllSound id entries w (handle x id r w₀) h (handle-IsSound x reads base id r w₀ h₀)
          (handle-IsSound x reads w.tables id r w₀ (from_here id w₀ h₀)).moved
    run_event-AllSound (resumed_orphans grace_ms candidates) s h =
        resume_loop-AllSound reads s.1.now grace_ms candidates 0 s h
    run_event-AllSound (retried failed stuck) s h =
        then-AllSound (retry_failed_loop x s.1.now failed [] s) _
          (retry_failed_loop-AllSound reads s.1.now failed [] s h)
          (λ seen s' h'.
            then-AllSound (retry_pending_loop x s.1.now stuck seen (length seen) s') _
              (retry_pending_loop-AllSound reads s.1.now stuck seen (length seen) s' h')
              (λ requeued s'' h''. wake_runners-AllSound reads s.1.now requeued s'' h''))

    -- Where the JSON text of a record is read as that record, any requests and sweeps keep all in order: the stored
    -- records and the cached ones are well formed, each cached one is the stored one or older, and jobs ask for
    -- names of their own tunnels; other machines keep this too.
    pub run_events-AllSound :
        (es : List Event) (s : Entries × World)
        → AllSound x base s
        → AllSound x base (run_events x es s)
    unfolding run_events
    run_events-AllSound [] s h = h
    run_events-AllSound (e ∷ es) s h =
        run_events-AllSound es (run_event x e s) (run_event-AllSound e s h)
