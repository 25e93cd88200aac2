-- ===== src/Record.antt =====
-- The stored tunnel record: crates/opentunnel-server/src/record.rs, with the certificate types of
-- crates/opentunnel/src/protocol/api.rs. Times are the ISO texts that the program stores.
use opentunnel.Prelude.{ℕ, Bool, true, false, Option, none, some, List, [], ◌∷◌, Bytes}

pub data TunnelState : Type 0 where
  offline online : TunnelState

pub data CertificateState : Type 0 where
  challenge : Bytes → Bytes → CertificateState
  issuing : CertificateState
  ready : Bytes → Bytes → Bytes → CertificateState
  failed : Bytes → CertificateState

pub record CertificateInfo : Type 0 where
  pub id : Bytes
  pub state : CertificateState

pub record Renewal : Type 0 where
  pub certificate_id : Bytes
  pub started_at : Bytes

pub record StoredTunnel : Type 0 where
  pub version : ℕ
  pub id : Bytes
  pub hostname : Bytes
  pub state : TunnelState
  pub certificate_id : Option Bytes
  pub token_hash : Bytes
  pub created_at : Bytes
  pub deleted_at : Option Bytes
  pub certificate : Option CertificateInfo
  pub certificate_csr : Option Bytes
  pub certificate_identifiers : Option (List Bytes)
  pub certificate_started_at : Option Bytes
  pub last_connected_at : Option Bytes
  pub renewal : Option Renewal

unfoldable pub is_some {ℓ} : {A : Type ℓ} → Option A → Bool
is_some none = false
is_some (some x) = true

unfoldable pub is_deleted : StoredTunnel → Bool
unfolding is_some
is_deleted t = is_some t.deleted_at

expiry_of : CertificateState → Option Bytes
expiry_of (ready certificate chain expiry) = some expiry
expiry_of _ = none

unfoldable pub ready_expiry : StoredTunnel → Option Bytes
unfolding expiry_of
ready_expiry t = elim t.certificate [ none ↦ none | some c ↦ expiry_of c.state ]

unfoldable pub certificate_ready : StoredTunnel → Bool
unfolding is_some ready_expiry
certificate_ready t = is_some (ready_expiry t)

unfoldable pub identifiers : StoredTunnel → List Bytes
identifiers t = elim t.certificate_identifiers [ none ↦ t.hostname ∷ [] | some ids ↦ ids ]
