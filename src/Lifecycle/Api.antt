-- ===== src/Lifecycle/Api.antt =====
-- The requests of the API: `create`, `info`, `certificate` and `remove`.
use opentunnel.Prelude.{
  ℕ, Bool, true, false, ◌&&◌, Option, none, some, ◌++◌, Bytes, codes, if◌then◌else◌,
}
use opentunnel.Record.{StoredTunnel, CertificateInfo, TunnelState, offline, online}
use opentunnel.Lifecycle.World.{
  External, Cached, tunnel_created, tunnel_deleted, bridges_deleted, deleted_published, Op, ◌>>=◌,
  ◌>>◌, return, read_cached, read_now, emit, call,
}
use opentunnel.Lifecycle.Cache.{live, lock_fresh}
use opentunnel.Lifecycle.Saves.{save}
use opentunnel.Lifecycle.Issuance.{announce, alarm_row}

pub record TunnelView : Type 0 where
  pub id : Bytes
  pub hostname : Bytes
  pub state : TunnelState
  pub certificate_id : Option Bytes

pub data Lookup (A : Type 0) : Type 0 where
  found : A → Lookup A
  not_found unauthorized : Lookup A

pub data CertificateLookup : Type 0 where
  certificate_found : CertificateInfo → CertificateLookup
  no_tunnel wrong_token no_certificate : CertificateLookup

unfoldable pub view : Cached → StoredTunnel → TunnelView
view s t = record {
  id = t.id;
  hostname = t.hostname;
  state = if s.attached then online else offline;
  certificate_id = t.certificate_id;
}

unfoldable pub is_offline : TunnelState → Bool
is_offline offline = true
is_offline online = false

module _ (x : External) where
  unfoldable pub hostname_of : Bytes → Bytes
  hostname_of id = id ++ codes "." ++ x.domain

  unfoldable pub new_tunnel : Bytes → Bytes → ℕ → StoredTunnel
  unfolding hostname_of
  new_tunnel id token_hash now = record {
    version = 1;
    id = id;
    hostname = hostname_of id;
    state = offline;
    certificate_id = none;
    token_hash = token_hash;
    created_at = x.iso now;
    deleted_at = none;
    certificate = none;
    certificate_csr = none;
    certificate_identifiers = none;
    certificate_started_at = none;
    last_connected_at = none;
    renewal = none;
  }

  unfoldable pub create : Bytes → Bytes → Op (Option TunnelView)
  unfolding ◌>>=◌ ◌>>◌ lock_fresh read_cached live return read_now new_tunnel save announce call
      alarm_row view
  create id token_hash = do
    lock_fresh x id
    before ← read_cached
    elim (live before.record_of) [
      | some t ↦ return none
      | none ↦ do
        now ← read_now
        save x (new_tunnel id token_hash now)
        announce x (tunnel_created id)
        call (alarm_row id none)
        after ← read_cached
        return (some (view after (new_tunnel id token_hash now)))
    ]

  -- `elsewhere` is `online_elsewhere(id)`.
  unfoldable pub seen_online : Bool → TunnelView → TunnelView
  unfolding is_offline
  seen_online elsewhere v =
      if is_offline v.state && (x.clustered && elsewhere) then record v { state = online } else v

  unfoldable pub info : Bool → Bytes → Bytes → Op (Lookup TunnelView)
  unfolding ◌>>=◌ ◌>>◌ lock_fresh read_cached live return seen_online view
  info elsewhere id token = do
    lock_fresh x id
    s ← read_cached
    elim (live s.record_of) [
      | none ↦ return not_found
      | some t ↦
          if x.token_matches token t.token_hash
          then return (found (seen_online elsewhere (view s t)))
          else return unauthorized
    ]

  unfoldable pub certificate_of : Option CertificateInfo → CertificateLookup
  certificate_of none = no_certificate
  certificate_of (some c) = certificate_found c

  unfoldable pub certificate : Bytes → Bytes → Op CertificateLookup
  unfolding ◌>>=◌ ◌>>◌ lock_fresh read_cached live return certificate_of
  certificate id token = do
    lock_fresh x id
    s ← read_cached
    elim (live s.record_of) [
      | none ↦ return no_tunnel
      | some t ↦
          if x.token_matches token t.token_hash
          then return (certificate_of t.certificate)
          else return wrong_token
    ]

  unfoldable pub deleted : StoredTunnel → ℕ → StoredTunnel
  deleted t now = record t { state = offline; deleted_at = some (x.iso now) }

  -- The bridges are closed before the record is written.
  unfoldable pub delete_tunnel : Bytes → StoredTunnel → Op (Lookup (Unit {0}))
  unfolding ◌>>=◌ ◌>>◌ emit read_now save deleted announce call alarm_row return
  delete_tunnel id t = do
    emit bridges_deleted
    now ← read_now
    save x (deleted t now)
    announce x (tunnel_deleted id)
    call (alarm_row id none)
    emit deleted_published
    return (found tt)

  unfoldable pub remove : Bytes → Bytes → Op (Lookup (Unit {0}))
  unfolding ◌>>=◌ ◌>>◌ lock_fresh read_cached live return delete_tunnel
  remove id token = do
    lock_fresh x id
    s ← read_cached
    elim (live s.record_of) [
      | none ↦ return not_found
      | some t ↦ elim (x.token_matches token t.token_hash) [
        | false ↦ return unauthorized
        | true ↦ delete_tunnel id t
      ]
    ]
