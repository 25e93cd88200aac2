-- ===== src/Lifecycle/Serving.antt =====
-- Lemmas on the requests of the API.
use opentunnel.Prelude.{
  ℕ, ◌≡◌, refl, inl, inr, Bool, true, false, if◌then◌else◌, Option, none, some, Bytes, Bool-cases,
}
use opentunnel.Record.{StoredTunnel, offline, is_deleted}
use opentunnel.Lifecycle.World.{
  External, Tables, Cached, World, bridges_deleted, tunnel_created, tunnel_deleted,
  deleted_published, ◌>>=◌, ◌>>◌, return, read_cached, read_now, call,
}
use opentunnel.Lifecycle.Cache.{live}
use opentunnel.Lifecycle.Issuance.{alarm_row}
use opentunnel.Lifecycle.Api.{
  found, view, seen_online, new_tunnel, create, info, certificate, certificate_of, deleted,
  delete_tunnel, remove, not_found, unauthorized, no_tunnel, wrong_token,
}
use opentunnel.Lifecycle.Saves
use opentunnel.Lifecycle.Issuance
use opentunnel.Lifecycle.Spec.{IsSound, IsWell, IsNew, removed}
use opentunnel.Lifecycle.Triples.{
  At, bind, next, read_cached-Triple, read_now-Triple, weaken, Ends, either,
}
use opentunnel.Lifecycle.Steps.{Keeps-Triple, Keeps-emit, Keeps-call}
use opentunnel.Lifecycle.Statements.{alarm_row-Kept}
use opentunnel.Lifecycle.Saving.{Allowed}
use opentunnel.Lifecycle.Written.{HasRecord, save-Triple}
use opentunnel.Lifecycle.Locks.{lock_fresh-Ends}
use opentunnel.Lifecycle.Parts.{announce-Keeps}
use opentunnel.Lifecycle.Changes.{deleted-IsWell, new_tunnel-IsWell, new_tunnel-IsNew}
use opentunnel.Lifecycle.Handlers.{Holding, done, handler-Triple, save_change}

-- A new record may be written where none is live.
new-Allowed : (o : Option StoredTunnel) (t : StoredTunnel) → live o ≡ none → IsNew t → Allowed o t
unfolding live Allowed
new-Allowed none t e new = new
new-Allowed (some old) t e new = elim (Bool-cases (is_deleted old)) [
  | inl d ↦ inl (d, new)
  | inr d ↦ absurd (cc (rw d at e))
]

module _ (x : External) (base : Tables) (id : Bytes)
    (reads : (t : StoredTunnel) → x.from_json (x.json t) ≡ some t) where
  created-Ends :
      (s : Cached) (token_hash : Bytes) (o : Option StoredTunnel)
      → live s.record_of ≡ o
      → Ends x base id (At x base id (λ s'. s' ≡ s)) (elim o [
        | some t ↦ return none
        | none ↦ read_now >>= λ now.
            (Saves.save x (new_tunnel x id token_hash now)
              >> (Issuance.announce x (tunnel_created id)
                  >> (call (alarm_row id none)
                      >> (read_cached >>= λ after.
                          return (some (view after (new_tunnel x id token_hash now)))))))
      ])
  created-Ends s token_hash (some t) e = done none
  created-Ends s token_hash none e = bind read_now-Triple (λ now.
      let new = new_tunnel x id token_hash now in
      next
        (weaken (λ w h. holding w h)
          (save-Triple x base id new (new_tunnel-IsWell x id token_hash now) s.record_of
            (new-Allowed s.record_of new e (new_tunnel-IsNew x id token_hash now))))
        (λ _. next (Keeps-Triple (announce-Keeps x base id _ (tunnel_created id))) (λ _.
          next (Keeps-Triple (Keeps-call _ (alarm_row-Kept x id none)))
            (λ _. bind (weaken (λ w p. p.sound) read_cached-Triple) (λ after. done _)))))
    where
      holding : (w : World) → At x base id (λ s'. s' ≡ s) w → At x base id (HasRecord s.record_of) w
      holding w h = record { sound = h.sound; about = rw h.about refl }

  pub create-Ends :
      (token_hash : Bytes) → Ends x base id (IsSound x base id) (create x id token_hash)
  unfolding create
  create-Ends token_hash =
      next (lock_fresh-Ends x reads base id)
        (λ _. bind read_cached-Triple (λ s. created-Ends s token_hash (live s.record_of) refl))

  delete_tunnel-Ends :
      (t : StoredTunnel)
      → IsWell x id t
      → is_deleted t ≡ false
      → Ends x base id (Holding x base id t) (delete_tunnel x id t)
  unfolding delete_tunnel deleted
  delete_tunnel-Ends t well alive = next (Keeps-Triple (Keeps-emit bridges_deleted)) (λ _.
      bind read_now-Triple (λ now.
        next (save_change x base id t _ alive (gone now) (removed offline (x.iso now))) (λ _.
          next (Keeps-Triple (announce-Keeps x base id _ (tunnel_deleted id))) (λ _.
            next (Keeps-Triple (Keeps-call _ (alarm_row-Kept x id none)))
              (λ _. next (Keeps-Triple (Keeps-emit deleted_published)) (λ _. done (found tt)))))))
    where
      gone : (now : ℕ) → IsWell x id (record t { state = offline; deleted_at = some (x.iso now) })
      gone now = unfold deleted in deleted-IsWell x id t now well

  pub remove-Ends : (token : Bytes) → Ends x base id (IsSound x base id) (remove x id token)
  unfolding remove
  remove-Ends token =
      handler-Triple x base id reads (λ s. done not_found)
        (λ s t well alive.
          either (x.token_matches token t.token_hash) (delete_tunnel-Ends t well alive)
            (done unauthorized))

  if_done :
      {A : Type 0} {C : Cached → Type 0} (b : Bool) (a a' : A)
      → Ends x base id (At x base id C) (if b then return a else return a')
  if_done true a a' = done a
  if_done false a a' = done a'

  pub info-Ends :
      (elsewhere : Bool) (token : Bytes)
      → Ends x base id (IsSound x base id) (info x elsewhere id token)
  unfolding info
  info-Ends elsewhere token =
      handler-Triple x base id reads (λ s. done not_found)
        (λ s t well alive.
          if_done (x.token_matches token t.token_hash) (found (seen_online x elsewhere (view s t)))
            unauthorized)

  pub certificate-Ends :
      (token : Bytes) → Ends x base id (IsSound x base id) (certificate x id token)
  unfolding certificate
  certificate-Ends token =
      handler-Triple x base id reads (λ s. done no_tunnel)
        (λ s t well alive.
          if_done (x.token_matches token t.token_hash) (certificate_of x t.certificate) wrong_token)
