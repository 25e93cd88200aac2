-- ===== src/Lifecycle/Tests/Codec.antt =====
-- A text for each record, as `serde_json` has one, to show that the parameter can be filled.
use opentunnel.Prelude.{
  ℕ, suc, ◌≡◌, refl, ◌==◌, if◌then◌else◌, Option, none, some, List, [], ◌∷◌, ◌++◌, length, take,
  drop, take-append_length, drop-append_length, Bytes, ◌>>=◌, zero,
}
use opentunnel.Record.{
  StoredTunnel, CertificateInfo, CertificateState, Renewal, TunnelState, offline, online, challenge,
  issuing, ready, failed,
}

record Codec (A : Type 0) : Type 0 where
  pub put : A → Bytes → Bytes
  pub get : Bytes → Option (A × Bytes)
  pub law : (a : A) (rest : Bytes) → get (put a rest) ≡ some (a, rest)

data Pair (A B : Type 0) : Type 0 where
  pair : A → B → Pair A B

abbrev get_number : Bytes → Option (ℕ × Bytes)
get_number [] = none
get_number (n ∷ rest) = some (n, rest)

number : Codec ℕ
number = record { put = λ n rest. n ∷ rest; get = get_number; law = λ n rest. refl }

abbrev get_text : Bytes → Option (Bytes × Bytes)
get_text [] = none
get_text (n ∷ rest) = some (take n rest, drop n rest)

text : Codec Bytes
text = record {
  put = λ t rest. length t ∷ (t ++ rest);
  get = get_text;
  law = λ t rest. rw (take-append_length t rest, drop-append_length t rest) refl;
}

module _ {A B : Type 0} (a : Codec A) (b : Codec B) where
  abbrev get_pair : Bytes → Option (Pair A B × Bytes)
  get_pair bytes = do (x, rest) ← a.get bytes; (y, rest') ← b.get rest; some (pair x y, rest')

  abbrev put_pair : Pair A B → Bytes → Bytes
  put_pair (pair x y) rest = a.put x (b.put y rest)

  pair_law : (p : Pair A B) (rest : Bytes) → get_pair (put_pair p rest) ≡ some (p, rest)
  pair_law (pair x y) rest = rw (a.law x (b.put y rest), b.law y rest) refl

  both : Codec (Pair A B)
  both = record { put = put_pair; get = get_pair; law = pair_law }

module _ {A B : Type 0} (a : Codec A) (f : B → A) (g : A → B) (back : (b : B) → g (f b) ≡ b) where
  converted : Codec B
  converted = record {
    put = λ b. a.put (f b);
    get = λ bytes. a.get bytes >>= λ p. some (g p.0, p.1);
    law = λ b rest. rw (a.law (f b) rest, back b) refl;
  }

module _ {A : Type 0} (a : Codec A) where
  abbrev put_option : Option A → Bytes → Bytes
  put_option none rest = 0 ∷ rest
  put_option (some x) rest = 1 ∷ a.put x rest

  abbrev get_option : Bytes → Option (Option A × Bytes)
  get_option [] = none
  get_option (n ∷ rest) =
      if n == 0 then some (none, rest) else a.get rest >>= λ p. some (some p.0, p.1)

  option_law : (o : Option A) (rest : Bytes) → get_option (put_option o rest) ≡ some (o, rest)
  option_law none rest = refl
  option_law (some x) rest = rw (a.law x rest) refl

  optional : Codec (Option A)
  optional = record { put = put_option; get = get_option; law = option_law }

abbrev put_texts : List Bytes → Bytes → Bytes
put_texts [] rest = rest
put_texts (t ∷ ts) rest = text.put t (put_texts ts rest)

abbrev get_texts : ℕ → Bytes → Option (List Bytes × Bytes)
get_texts zero bytes = some ([], bytes)
get_texts (suc n) bytes = do
  (t, rest) ← text.get bytes
  (ts, rest') ← get_texts n rest
  some (t ∷ ts, rest')

texts_law :
    (ts : List Bytes) (rest : Bytes) → get_texts (length ts) (put_texts ts rest) ≡ some (ts, rest)
texts_law [] rest = refl
texts_law (t ∷ ts) rest = rw (text.law t (put_texts ts rest), texts_law ts rest) refl

abbrev get_list : Bytes → Option (List Bytes × Bytes)
get_list [] = none
get_list (n ∷ rest) = get_texts n rest

texts : Codec (List Bytes)
texts = record { put = λ ts rest. length ts ∷ put_texts ts rest; get = get_list; law = texts_law }

abbrev from_tunnel_state : TunnelState → ℕ
from_tunnel_state offline = 0
from_tunnel_state online = 1

abbrev to_tunnel_state : ℕ → TunnelState
to_tunnel_state n = if n == 0 then offline else online

tunnel_state_back : (s : TunnelState) → to_tunnel_state (from_tunnel_state s) ≡ s
tunnel_state_back offline = refl
tunnel_state_back online = refl

abbrev States : Type 0
States = Pair ℕ (Pair Bytes (Pair Bytes Bytes))

abbrev from_state : CertificateState → States
from_state (challenge token key) = pair 0 (pair token (pair key []))
from_state issuing = pair 1 (pair [] (pair [] []))
from_state (ready certificate chain expiry) = pair 2 (pair certificate (pair chain expiry))
from_state (failed reason) = pair 3 (pair reason (pair [] []))

abbrev to_state : States → CertificateState
to_state (pair n (pair a (pair b c))) =
    if n == 0
    then challenge a b
    else if n == 1
    then issuing
    else if n == 2
    then ready a b c
    else failed a

state_back : (s : CertificateState) → to_state (from_state s) ≡ s
state_back (challenge token key) = refl
state_back issuing = refl
state_back (ready certificate chain expiry) = refl
state_back (failed reason) = refl

states : Codec CertificateState
states = converted (both number (both text (both text text))) from_state to_state state_back

abbrev from_info : CertificateInfo → Pair Bytes CertificateState
from_info c = pair c.id c.state

abbrev to_info : Pair Bytes CertificateState → CertificateInfo
to_info (pair id state) = record { id = id; state = state }

infos : Codec CertificateInfo
infos = converted (both text states) from_info to_info (λ c. refl)

abbrev from_renewal : Renewal → Pair Bytes Bytes
from_renewal r = pair r.certificate_id r.started_at

abbrev to_renewal : Pair Bytes Bytes → Renewal
to_renewal (pair id at) = record { certificate_id = id; started_at = at }

renewals : Codec Renewal
renewals = converted (both text text) from_renewal to_renewal (λ r. refl)

abbrev Fields : Type 0
Fields = Pair ℕ (
    Pair Bytes (
      Pair Bytes (
        Pair TunnelState (
          Pair (Option Bytes) (
            Pair Bytes (
              Pair Bytes (
                Pair (Option Bytes) (
                  Pair (Option CertificateInfo) (
                    Pair (Option Bytes) (
                      Pair (Option (List Bytes))
                        (Pair (Option Bytes) (Pair (Option Bytes) (Option Renewal)))))))))))))

abbrev from_tunnel : StoredTunnel → Fields
from_tunnel t = pair t.version (
    pair t.id (
      pair t.hostname (
        pair t.state (
          pair t.certificate_id (
            pair t.token_hash (
              pair t.created_at (
                pair t.deleted_at (
                  pair t.certificate (
                    pair t.certificate_csr (
                      pair t.certificate_identifiers (
                        pair t.certificate_started_at
                          (pair t.last_connected_at t.renewal))))))))))))

abbrev to_tunnel : Fields → StoredTunnel
to_tunnel
      (pair version (
        pair id (
          pair hostname (
            pair state (
              pair certificate_id (
                pair token_hash (
                  pair created_at (
                    pair deleted_at (
                      pair certificate (
                        pair csr
                          (pair identifiers (pair started (pair connected renewal))))))))))))) =
    record {
      version = version;
      id = id;
      hostname = hostname;
      state = state;
      certificate_id = certificate_id;
      token_hash = token_hash;
      created_at = created_at;
      deleted_at = deleted_at;
      certificate = certificate;
      certificate_csr = csr;
      certificate_identifiers = identifiers;
      certificate_started_at = started;
      last_connected_at = connected;
      renewal = renewal;
    }

tunnels : Codec StoredTunnel
tunnels =
    converted
      (both number (
        both text (
          both text (
            both (converted number from_tunnel_state to_tunnel_state tunnel_state_back) (
              both (optional text) (
                both text (
                  both text (
                    both (optional text) (
                      both (optional infos) (
                        both (optional text) (
                          both (optional texts) (
                            both (optional text)
                              (both (optional text) (optional renewals))))))))))))))
      from_tunnel to_tunnel (λ t. refl)

pub tunnel_text : StoredTunnel → Bytes
tunnel_text t = tunnels.put t []

pub tunnel_from : Bytes → Option StoredTunnel
tunnel_from bytes = tunnels.get bytes >>= λ p. some p.0

pub tunnel_from_text : (t : StoredTunnel) → tunnel_from (tunnel_text t) ≡ some t
unfolding tunnel_from tunnel_text
tunnel_from_text t = rw (tunnels.law t []) refl
