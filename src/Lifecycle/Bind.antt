-- ===== src/Lifecycle/Bind.antt =====
-- Asking for a certificate: `bind_certificate`.
use opentunnel.Prelude.{
  ℕ, Bool, true, false, not, ◌&&◌, ◌||◌, Option, none, some, List, [], ◌∷◌, ◌++◌, Bytes, codes, beq,
  if◌then◌else◌,
}
use opentunnel.Record.{StoredTunnel, CertificateInfo, CertificateState, ready, failed, issuing}
use opentunnel.Store.Jobs.{issue}
use opentunnel.Limits.{Verdict, allowed, limited}
use opentunnel.Lifecycle.World.{
  External, CsrRequest, certificate_changed, certificate_failed, Result, ok, err, Op, ◌>>=◌, ◌>>◌,
  return, attempt, from_result, read_cached, read_now, emit,
}
use opentunnel.Lifecycle.Cache.{live, lock_fresh}
use opentunnel.Lifecycle.Saves.{save}
use opentunnel.Lifecycle.Issuance.{announce, ensure_issuance}

pub data Bind : Type 0 where
  bound : CertificateInfo → Bind
  not_found unauthorized in_progress backlogged : Bind
  invalid_request unavailable : Bytes → Bind
  -- The hostname provided, and the one expected.
  invalid_hostname : Bytes → Bytes → Bind
  rate_limited : ℕ → Bind

-- The answers of `Limits` to this request: `backlogged`, and `issuance`.
pub record Gate : Type 0 where
  pub backlogged : Bool
  pub issuance : Result Verdict

unfoldable pub joined : List Bytes → Bytes
joined [] = []
joined (text ∷ []) = text
joined (text ∷ next ∷ rest) = text ++ codes "," ++ joined (next ∷ rest)

unfoldable pub wildcard : Bytes → Bytes
wildcard hostname = codes "*." ++ hostname

-- Whether a name is neither the hostname nor its wildcard.
unfoldable pub any_foreign : Bytes → List Bytes → Bool
unfolding wildcard
any_foreign hostname [] = false
any_foreign hostname (name ∷ names) =
    (not (beq name hostname) && not (beq name (wildcard hostname))) || any_foreign hostname names

unfoldable pub is_settled : CertificateState → Bool
is_settled (ready certificate chain expiry) = true
is_settled (failed reason) = true
is_settled _ = false

unfoldable pub same_csr : Bytes → Option Bytes → Bool
same_csr csr none = false
same_csr csr (some csr') = beq csr' csr

-- The certificate of an issuance that this CSR resumes.
unfoldable pub resumed : Bytes → StoredTunnel → Option CertificateInfo
unfolding same_csr
resumed csr t = elim t.certificate [
  | none ↦ none
  | some c ↦ if same_csr csr t.certificate_csr then some c else none
]

unfoldable pub busy : Option CertificateInfo → Bool
unfolding is_settled
busy none = false
busy (some c) = not (is_settled c.state)

module _ (x : External) where
  unfoldable pub issuing_tunnel : Bytes → Bytes → CsrRequest → ℕ → StoredTunnel → StoredTunnel
  issuing_tunnel certificate_id csr request now t = record t {
    certificate_id = some certificate_id;
    certificate = some (record { id = certificate_id; state = issuing });
    certificate_csr = some csr;
    certificate_identifiers = some request.identifiers;
    certificate_started_at = some (x.iso now);
    renewal = none;
  }

  unfoldable pub failed_tunnel : Bytes → Bytes → StoredTunnel → StoredTunnel
  failed_tunnel certificate_id reason t = record t {
    certificate = some (record { id = certificate_id; state = failed reason });
  }

  unfoldable pub issuance_started : Bytes → StoredTunnel → Result (Unit {0}) → Op Bind
  unfolding ◌>>=◌ ◌>>◌ emit save failed_tunnel return
  issuance_started certificate_id t (ok _) =
      return (bound (record { id = certificate_id; state = issuing }))
  issuance_started certificate_id t (err e) = do
    emit (certificate_failed false)
    save x (failed_tunnel certificate_id (x.message e) t)
    return (unavailable (x.message e))

  unfoldable pub start_issuance : Bytes → Bytes → Bytes → CsrRequest → StoredTunnel → Op Bind
  unfolding ◌>>=◌ ◌>>◌ read_now issuing_tunnel save announce attempt ensure_issuance
      issuance_started
  start_issuance certificate_id id csr request t = do
    now ← read_now
    save x (issuing_tunnel certificate_id csr request now t)
    announce x (certificate_changed id)
    started ← attempt (ensure_issuance x (issuing_tunnel certificate_id csr request now t) issue)
    issuance_started certificate_id (issuing_tunnel certificate_id csr request now t) started

  unfoldable pub if_allowed : Verdict → Op Bind → Op Bind
  unfolding return
  if_allowed allowed m = m
  if_allowed (limited retry_after_ms) m = return (rate_limited retry_after_ms)

  unfoldable pub within_limits : Option Gate → Op Bind → Op Bind
  unfolding ◌>>=◌ return from_result if_allowed
  within_limits none m = m
  within_limits (some gate) m = elim gate.backlogged [
    | true ↦ return backlogged
    | false ↦ do verdict ← from_result gate.issuance; if_allowed verdict m
  ]

  unfoldable pub resume_answer : CertificateInfo → Result (Unit {0}) → Op Bind
  unfolding return
  resume_answer c (ok _) = return (bound c)
  resume_answer c (err e) = return (unavailable (x.message e))

  unfoldable pub bind_request :
      Option Gate → Bytes → Bytes → Bytes → CsrRequest → StoredTunnel → Op Bind
  unfolding ◌>>=◌ resumed attempt ensure_issuance resume_answer busy return within_limits
      start_issuance
  bind_request gate certificate_id id csr request t = elim (resumed csr t) [
    | some c ↦ do started ← attempt (ensure_issuance x t issue); resume_answer c started
    | none ↦ elim (busy t.certificate) [
      | true ↦ return in_progress
      | false ↦ within_limits gate (start_issuance certificate_id id csr request t)
    ]
  ]

  unfoldable pub bind_names :
      Option Gate → Bytes → Bytes → Bytes → CsrRequest → StoredTunnel → Op Bind
  unfolding return any_foreign joined wildcard bind_request
  bind_names gate certificate_id id csr request t = elim (beq request.hostname t.hostname) [
    | false ↦ return (invalid_hostname request.hostname t.hostname)
    | true ↦ elim (any_foreign t.hostname request.identifiers) [
      | true ↦ return (
          invalid_hostname (joined request.identifiers)
            (t.hostname ++ codes "," ++ wildcard t.hostname))
      | false ↦ bind_request gate certificate_id id csr request t
    ]
  ]

  -- `certificate_id` is the new ID, which the program draws; `gate` is `none` where there are no limits.
  unfoldable pub bind_certificate : Option Gate → Bytes → Bytes → Bytes → Bytes → Op Bind
  unfolding ◌>>=◌ ◌>>◌ lock_fresh read_cached live return bind_names
  bind_certificate gate certificate_id id token csr = do
    lock_fresh x id
    s ← read_cached
    elim (live s.record_of) [
      | none ↦ return not_found
      | some t ↦ elim (x.token_matches token t.token_hash) [
        | false ↦ return unauthorized
        | true ↦ elim (x.parse_csr csr) [
          | none ↦ return (invalid_request (codes "Failed to parse CSR"))
          | some request ↦ bind_names gate certificate_id id csr request t
        ]
      ]
    ]
