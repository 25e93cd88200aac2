-- ===== src/Lifecycle/Changes.antt =====
-- Lemmas on the records that the handlers write.
use opentunnel.Prelude.{
  ℕ, ◌≡◌, refl, sym, inl, inr, true, false, All, Option, none, some, List, [], ◌∷◌, Bytes, beq,
  beq→eq, Bool-cases, Option-cases,
}
use opentunnel.Record.{
  StoredTunnel, CertificateState, Renewal, is_some, identifiers, certificate_ready, ready_expiry,
  TunnelState,
}
use opentunnel.Lifecycle.World.{External, CsrRequest}
use opentunnel.Lifecycle.Issuance.{renewal_id}
use opentunnel.Lifecycle.Renewals.{expiry_ms}
use opentunnel.Lifecycle.Reports.{is_id, is_renewal, reported, renewed}
use opentunnel.Lifecycle.Api.{hostname_of, new_tunnel, deleted}
use opentunnel.Lifecycle.Bind.{wildcard, any_foreign, issuing_tunnel}
use opentunnel.Lifecycle.Spec.{IsOwn, IsPaired, IsNew, IsWell}

pub is_id-some : (id : Bytes) (o : Option Bytes) → is_id id o ≡ true → o ≡ some id
unfolding is_id
is_id-some id none h = absurd (cc h)
is_id-some id (some id') h = rw (beq→eq id' id h) refl

pub is_renewal-some :
    (id : Bytes) (o : Option Renewal) → is_renewal id o ≡ true → renewal_id o ≡ some id
unfolding is_renewal renewal_id
is_renewal-some id none h = absurd (cc h)
is_renewal-some id (some r) h = rw (beq→eq r.certificate_id id h) refl

renewal_id-some : (id : Bytes) (o : Option Renewal) → renewal_id o ≡ some id → is_some o ≡ true
unfolding renewal_id is_some
renewal_id-some id none h = absurd (cc h)
renewal_id-some id (some r) h = refl

pub IsOwn-names :
    (hostname : Bytes) (names : List Bytes)
    → any_foreign hostname names ≡ false
    → All (IsOwn hostname) names
unfolding any_foreign IsOwn
IsOwn-names hostname [] h = tt
IsOwn-names hostname (name ∷ names) h = elim (Bool-cases (beq name hostname)) [
  | inl e ↦ (inl (beq→eq name hostname e), IsOwn-names hostname names (rw (e, any_foreign) at h))
  | inr e ↦ elim (Bool-cases (beq name (wildcard hostname))) [
    | inl e' ↦ (
      inr (beq→eq name (wildcard hostname) e'),
      IsOwn-names hostname names (rw (e, e', any_foreign) at h),
    )
    | inr e' ↦ absurd (cc (rw (e, e', any_foreign) at h))
  ]
]

module _ (x : External) (id : Bytes) where
  pub renewal-IsWell :
      (t : StoredTunnel) (r : Option Renewal)
      → IsWell x id t
      → is_some t.certificate_csr ≡ true
      → IsWell x id (record t { renewal = r })
  unfolding IsPaired identifiers
  renewal-IsWell t r w csr = record {
    keyed = w.keyed;
    hosted = w.hosted;
    named = w.named;
    paired = w.paired;
    requested = w.requested;
    renewable = λ _. csr;
  }

  pub given_up-IsWell :
      (t : StoredTunnel) → IsWell x id t → IsWell x id (record t { renewal = none })
  unfolding IsPaired identifiers is_some
  given_up-IsWell t w = record {
    keyed = w.keyed;
    hosted = w.hosted;
    named = w.named;
    paired = w.paired;
    requested = w.requested;
    renewable = λ e. absurd (cc e);
  }

  pub reported-IsWell :
      (t : StoredTunnel) (certificate_id : Bytes) (state : CertificateState)
      → IsWell x id t
      → t.certificate_id ≡ some certificate_id
      → IsWell x id (reported t certificate_id state)
  unfolding IsPaired identifiers reported
  reported-IsWell t certificate_id state w e = record {
    keyed = w.keyed;
    hosted = w.hosted;
    named = w.named;
    paired = e;
    requested = w.requested;
    renewable = w.renewable;
  }

  pub renewed-IsWell :
      (t : StoredTunnel) (certificate_id : Bytes) (state : CertificateState)
      → IsWell x id t
      → renewal_id t.renewal ≡ some certificate_id
      → IsWell x id (renewed t certificate_id state)
  unfolding IsPaired identifiers renewed is_some
  renewed-IsWell t certificate_id state w e =
      let csr = w.renewable (unfold is_some in renewal_id-some certificate_id t.renewal e) in
      record {
        keyed = w.keyed;
        hosted = w.hosted;
        named = w.named;
        paired = refl;
        requested = λ _. csr;
        renewable = λ e'. absurd (cc e');
      }

  pub deleted-IsWell : (t : StoredTunnel) (now : ℕ) → IsWell x id t → IsWell x id (deleted x t now)
  unfolding IsPaired identifiers deleted
  deleted-IsWell t now w = record {
    keyed = w.keyed;
    hosted = w.hosted;
    named = w.named;
    paired = w.paired;
    requested = w.requested;
    renewable = w.renewable;
  }

  pub connected-IsWell :
      (t : StoredTunnel) (state : TunnelState) (at : Option Bytes)
      → IsWell x id t
      → IsWell x id (record t { state = state; last_connected_at = at })
  unfolding IsPaired identifiers
  connected-IsWell t state at w = record {
    keyed = w.keyed;
    hosted = w.hosted;
    named = w.named;
    paired = w.paired;
    requested = w.requested;
    renewable = w.renewable;
  }

  pub issuing_tunnel-IsWell :
      (certificate_id csr : Bytes) (request : CsrRequest) (now : ℕ) (t : StoredTunnel)
      → IsWell x id t
      → any_foreign t.hostname request.identifiers ≡ false
      → IsWell x id (issuing_tunnel x certificate_id csr request now t)
  unfolding IsPaired identifiers issuing_tunnel is_some
  issuing_tunnel-IsWell certificate_id csr request now t w own = record {
    keyed = w.keyed;
    hosted = w.hosted;
    named = IsOwn-names (hostname_of x id) request.identifiers (rw (sym w.hosted) own);
    paired = refl;
    requested = λ _. refl;
    renewable = λ _. refl;
  }

  pub new_tunnel-IsWell :
      (token_hash : Bytes) (now : ℕ) → IsWell x id (new_tunnel x id token_hash now)
  unfolding IsPaired identifiers new_tunnel is_some IsOwn
  new_tunnel-IsWell token_hash now = record {
    keyed = refl;
    hosted = refl;
    named = (inl refl, tt);
    paired = refl;
    requested = λ e. absurd (cc e);
    renewable = λ e. absurd (cc e);
  }

  pub new_tunnel-IsNew : (token_hash : Bytes) (now : ℕ) → IsNew (new_tunnel x id token_hash now)
  unfolding new_tunnel
  new_tunnel-IsNew token_hash now = record {
    undeleted = refl;
    uncertified = refl;
    unbound = refl;
    unrenewed = refl;
  }

  pub expiry-certificate_ready :
      (t : StoredTunnel) (expiry : ℕ) → expiry_ms x t ≡ some expiry → certificate_ready t ≡ true
  unfolding expiry_ms certificate_ready is_some
  expiry-certificate_ready t expiry e = elim (Option-cases (ready_expiry t)) [
    | inl r ↦ absurd (cc (rw (r, expiry_ms) at e))
    | inr (text, r) ↦ rw r refl
  ]
