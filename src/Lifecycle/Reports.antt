-- ===== src/Lifecycle/Reports.antt =====
-- The outcomes of issuance: `update_certificate` and `wants_certificate`.
use opentunnel.Prelude.{ℕ, ◌+◌, Bool, true, false, ◌||◌, Option, none, some, Bytes, beq}
use opentunnel.Record.{StoredTunnel, CertificateInfo, CertificateState, Renewal, ready, failed}
use opentunnel.Lifecycle.World.{
  External, Effect, certificate_changed, certificate_issued, certificate_renewed,
  certificate_failed, Op, ◌>>=◌, ◌>>◌, return, read_cached, read_now, emit,
}
use opentunnel.Lifecycle.Cache.{live, lock_fresh}
use opentunnel.Lifecycle.Saves.{save}
use opentunnel.Lifecycle.Issuance.{announce, set_alarm_at}
use opentunnel.Lifecycle.Renewals.{renewal_retry_ms, schedule_renewal}

-- `text.as_deref() == Some(id)`.
unfoldable pub is_id : Bytes → Option Bytes → Bool
is_id id none = false
is_id id (some id') = beq id' id

unfoldable pub is_renewal : Bytes → Option Renewal → Bool
is_renewal id none = false
is_renewal id (some r) = beq r.certificate_id id

unfoldable pub is_ready_state : CertificateState → Bool
is_ready_state (ready certificate chain expiry) = true
is_ready_state _ = false

unfoldable pub is_failed_state : CertificateState → Bool
is_failed_state (failed reason) = true
is_failed_state _ = false

unfoldable pub info_state : Option CertificateInfo → (CertificateState → Bool) → Bool
info_state none holds = false
info_state (some c) holds = holds c.state

-- `update_certificate` on the renewal's ID.
unfoldable pub renewed : StoredTunnel → Bytes → CertificateState → StoredTunnel
renewed t id input = record t {
  certificate_id = some id;
  certificate = some (record { id = id; state = input });
  renewal = none;
}

unfoldable pub reported : StoredTunnel → Bytes → CertificateState → StoredTunnel
reported t id input = record t { certificate = some (record { id = id; state = input }) }

-- The analytics events of a change of state.
unfoldable pub publish_change : Option CertificateInfo → CertificateState → Op (Unit {0})
unfolding info_state is_ready_state is_failed_state emit return
publish_change previous (ready certificate chain expiry) =
    elim (info_state previous is_ready_state) [ true ↦ return tt | false ↦ emit certificate_issued ]
publish_change previous (failed reason) = elim (info_state previous is_failed_state) [
  | true ↦ return tt
  | false ↦ emit (certificate_failed false)
]
publish_change previous _ = return tt

unfoldable pub wanted : Bytes → Option StoredTunnel → Bool
unfolding is_id is_renewal
wanted id none = false
wanted id (some t) = is_id id t.certificate_id || is_renewal id t.renewal

module _ (x : External) where
  unfoldable pub update_renewal :
      Bytes → StoredTunnel → Bytes → ℕ → CertificateState → Op (Unit {0})
  unfolding ◌>>=◌ ◌>>◌ save announce schedule_renewal emit set_alarm_at return renewed
  update_renewal tunnel_id t id now (ready certificate chain expiry) = do
    save x (renewed t id (ready certificate chain expiry))
    announce x (certificate_changed tunnel_id)
    schedule_renewal x (renewed t id (ready certificate chain expiry))
    emit certificate_renewed
  update_renewal tunnel_id t id now (failed reason) = do
    emit (certificate_failed true)
    save x (record t { renewal = none })
    set_alarm_at tunnel_id (some (now + renewal_retry_ms))
  update_renewal tunnel_id t id now _ = return tt

  unfoldable pub announce_if : Bool → Effect → Op (Unit {0})
  unfolding announce return
  announce_if true e = announce x e
  announce_if false e = return tt

  unfoldable pub update_current : Bytes → StoredTunnel → Bytes → CertificateState → Op (Unit {0})
  unfolding ◌>>=◌ ◌>>◌ save reported announce_if is_ready_state schedule_renewal publish_change
  update_current tunnel_id t id input = do
    save x (reported t id input)
    announce_if (is_ready_state input) (certificate_changed tunnel_id)
    schedule_renewal x (reported t id input)
    publish_change t.certificate input

  unfoldable pub update_record : Bytes → StoredTunnel → Bytes → CertificateState → Op Bool
  unfolding ◌>>=◌ ◌>>◌ read_now is_renewal is_id update_renewal update_current return
  update_record tunnel_id t id input = do
    now ← read_now
    elim (is_renewal id t.renewal) [
      | true ↦ do update_renewal tunnel_id t id now input; return true
      | false ↦ elim (is_id id t.certificate_id) [
        | false ↦ return false
        | true ↦ do update_current tunnel_id t id input; return true
      ]
    ]

  unfoldable pub update_certificate : Bytes → Bytes → CertificateState → Op Bool
  unfolding ◌>>=◌ ◌>>◌ lock_fresh read_cached live update_record return
  update_certificate tunnel_id id input = do
    lock_fresh x tunnel_id
    s ← read_cached
    elim (live s.record_of) [ none ↦ return false | some t ↦ update_record tunnel_id t id input ]

  unfoldable pub wants_certificate : Bytes → Bytes → Op Bool
  unfolding ◌>>=◌ ◌>>◌ lock_fresh read_cached live wanted return
  wants_certificate tunnel_id certificate_id = do
    lock_fresh x tunnel_id
    s ← read_cached
    return (wanted certificate_id (live s.record_of))
