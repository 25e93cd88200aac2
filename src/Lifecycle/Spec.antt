-- ===== src/Lifecycle/Spec.antt =====
-- What the stored records and jobs satisfy, and how a stored record may change.
use opentunnel.Prelude.{
  ℕ, suc, ◌+◌, ◌<◌, ◌≡◌, ◌⊎◌, true, false, Option, none, some, List, All, Bytes,
}
use opentunnel.Record.{
  StoredTunnel, CertificateState, TunnelState, Renewal, issuing, is_some, is_deleted, identifiers,
  certificate_ready,
}
use opentunnel.Store.Jobs.{JobRow}
use opentunnel.Store.Tunnels.{TunnelRow}
use opentunnel.Store.Revisions.{revision_of, text_of}
use opentunnel.Lifecycle.World.{External, Tables, Outside, Cached, World}
use opentunnel.Lifecycle.Issuance.{renewal_id}
use opentunnel.Lifecycle.Reports.{is_ready_state, reported, renewed}
use opentunnel.Lifecycle.Api.{hostname_of}
use opentunnel.Lifecycle.Bind.{wildcard, busy}

-- A name that the tunnel of this hostname may ask a certificate for.
unfoldable pub IsOwn : Bytes → Bytes → Type 0
IsOwn hostname name = (name ≡ hostname) ⊎ (name ≡ wildcard hostname)

-- The certificate's ID is the record's.
unfoldable pub IsPaired : StoredTunnel → Type 0
IsPaired t = elim t.certificate [
  | none ↦ t.certificate_id ≡ none
  | some c ↦ t.certificate_id ≡ some c.id
]

-- A tunnel without a certificate.
pub record IsNew (t : StoredTunnel) : Type 0 where
  pub undeleted : t.deleted_at ≡ none
  pub uncertified : t.certificate ≡ none
  pub unbound : t.certificate_id ≡ none
  pub unrenewed : t.renewal ≡ none

-- The changes of a live record.
pub data Progress (t : StoredTunnel) : StoredTunnel → Type 0 where
  bound_anew :
      (certificate_id csr started : Bytes) (names : List Bytes)
      → busy t.certificate ≡ false
      → Progress t (record t {
        certificate_id = some certificate_id;
        certificate = some (record { id = certificate_id; state = issuing });
        certificate_csr = some csr;
        certificate_identifiers = some names;
        certificate_started_at = some started;
        renewal = none;
      })
  certificate_reported :
      (certificate_id : Bytes) (state : CertificateState)
      → t.certificate_id ≡ some certificate_id
      → Progress t (reported t certificate_id state)
  renewal_issued :
      (certificate_id : Bytes) (state : CertificateState)
      → renewal_id t.renewal ≡ some certificate_id
      → is_ready_state state ≡ true
      → Progress t (renewed t certificate_id state)
  renewal_given_up : Progress t (record t { renewal = none })
  renewal_set :
      (r : Option Renewal) → certificate_ready t ≡ true → Progress t (record t { renewal = r })
  connected :
      (state : TunnelState) (at : Option Bytes)
      → Progress t (record t { state = state; last_connected_at = at })
  removed :
      (state : TunnelState) (at : Bytes)
      → Progress t (record t { state = state; deleted_at = some at })

module _ (x : External) where
  pub record IsWell (id : Bytes) (t : StoredTunnel) : Type 0 where
    pub keyed : t.id ≡ id
    pub hosted : t.hostname ≡ hostname_of x id
    pub named : All (IsOwn (hostname_of x id)) (identifiers t)
    pub paired : IsPaired t
    pub requested : is_some t.certificate_id ≡ true → is_some t.certificate_csr ≡ true
    pub renewable : is_some t.renewal ≡ true → is_some t.certificate_csr ≡ true

  -- One change of a stored text.
  pub data Change : Option Bytes → Option Bytes → Type 0 where
    created : (t : StoredTunnel) → IsNew t → Change none (some (x.json t))
    recreated :
        (old t : StoredTunnel)
        → is_deleted old ≡ true
        → IsNew t
        → Change (some (x.json old)) (some (x.json t))
    progressed :
        (old t : StoredTunnel)
        → is_deleted old ≡ false
        → Progress old t
        → Change (some (x.json old)) (some (x.json t))

  -- So many changes, one after another.
  pub data Evolves (a : Option Bytes) : ℕ → Option Bytes → Type 0 where
    unchanged : Evolves a 0 a
    changed : {n : ℕ} {b c : Option Bytes} → Evolves a n b → Change b c → Evolves a (suc n) c

  unfoldable pub RowOk : Bytes → Option TunnelRow → Type 0
  RowOk id none = Unit {0}
  RowOk id (some row) =
      (t : StoredTunnel) × (row.text ≡ x.json t) × IsWell id t × (0 < row.revision)

  -- A job asks only for names of its own tunnel.
  unfoldable pub JobOk : JobRow → Type 0
  JobOk row = elim row.tunnel_id [
    | none ↦ Unit {0}
    | some id ↦ All (IsOwn (hostname_of x id)) row.identifiers
  ]

  pub record TablesOk (tables : Tables) : Type 0 where
    pub rows : (id : Bytes) → RowOk id (tables.tunnels id)
    pub jobs : All JobOk tables.jobs

  -- The row changed as often as its revision grew, each time as a record may.
  unfoldable pub Advances : Option TunnelRow → Option TunnelRow → Type 0
  Advances old new =
      (n : ℕ) × (revision_of new ≡ revision_of old + n) × Evolves (text_of old) n (text_of new)

  unfoldable pub Moves : Tables → Tables → Type 0
  Moves old new = (id : Bytes) → Advances (old.tunnels id) (new.tunnels id)

  -- The other machines keep what this one keeps.
  unfoldable pub IsFair : Outside → Type 0
  IsFair o =
      (tables : Tables)
      → TablesOk tables
      → TablesOk (o.others tables) × Moves tables (o.others tables)

  unfoldable pub text_from : Option StoredTunnel → Option Bytes
  text_from none = none
  text_from (some t) = some (x.json t)

  -- The cached record is the row's, or the row has a later revision.
  unfoldable pub Holds : Cached → Option TunnelRow → Type 0
  Holds s row =
      ((text_of row ≡ text_from s.record_of) × (revision_of row ≡ s.revision))
      ⊎ (s.revision < revision_of row)

  unfoldable pub KnownOk : Bytes → Option StoredTunnel → Type 0
  KnownOk id none = Unit {0}
  KnownOk id (some t) = IsWell id t

  -- From the tables `base` on, for the entry of `id`.
  pub record IsSound (base : Tables) (id : Bytes) (w : World) : Type 0 where
    pub fair : All IsFair w.outside
    pub stored : TablesOk w.tables
    pub moved : Moves base w.tables
    pub holds : Holds w.cached (w.tables.tunnels id)
    pub known : KnownOk id w.cached.record_of
