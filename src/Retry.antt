-- ===== src/Retry.antt =====
-- Whether a failed issuance is worth repeating, and when: crates/opentunnel-server/src/retry.rs.
--
-- An error is the list of its causes with its message. `jitter` is drawn as n / 2 ^ 32 for n below 2 ^ 32,
-- and is given by n: half a delay is below 2 ^ 21, so the product is exact in an f64, and the cast to an
-- integer rounds it down.
pub mod Bounds
pub mod Requests
mod Tests
use opentunnel.Prelude.{
  ℕ, ◌+◌, ◌-◌, ◌*◌, ◌/◌, ◌^◌, Bool, true, false, ◌&&◌, ◌||◌, Option, none, some, List, [], ◌∷◌,
  ◌++◌, leb, ◌==◌, min, max, if◌then◌else◌, Bytes, beq, codes, take, drop, ◌>>=◌,
}
use opentunnel.Names.{split}

abbrev pub retry_window_ms : ℕ
retry_window_ms = 24 * 60 * 60 * 1000

abbrev pub max_delay_ms : ℕ
max_delay_ms = 60 * 60 * 1000

abbrev pub attempts_limit : ℕ
attempts_limit = 3

pub data Class : Type 0 where
  -- With the server's Retry-After in milliseconds.
  transient : Option ℕ → Class
  permanent unknown : Class

pub record Problem : Type 0 where
  pub kind : Bytes
  pub status : ℕ
  pub retry_after : Option ℕ

pub data Cause : Type 0 where
  typed_transient : Option ℕ → Cause
  typed_problem : Problem → Cause
  -- The status of an HTTP client's error, and whether it is of the kinds that are retried.
  request : Option ℕ → Bool → Cause
  other : Cause

abbrev pub permanent_problems : List Bytes
permanent_problems =
    codes "rejectedIdentifier"
    ∷ codes "unsupportedIdentifier"
    ∷ codes "badCSR"
    ∷ codes "caa"
    ∷ codes "badSignatureAlgorithm"
    ∷ codes "badPublicKey"
    ∷ codes "externalAccountRequired"
    ∷ codes "accountDoesNotExist"
    ∷ codes "invalidContact"
    ∷ codes "unsupportedContact"
    ∷ codes "malformed"
    ∷ []

abbrev pub transient_problems : List Bytes
transient_problems = codes "badNonce" ∷ codes "rateLimited" ∷ codes "serverInternal" ∷ []

abbrev pub permanent_reasons : List Bytes
permanent_reasons =
    codes "Failed to persist certificate state"
    ∷ codes " are required"
    ∷ codes "is not a P-256 private JWK"
    ∷ codes "is not base64url"
    ∷ codes "CSR is not PEM"
    ∷ codes "did not offer dns-01"
    ∷ codes "a certificate for another key"
    ∷ []

abbrev pub transient_reasons : List Bytes
transient_reasons =
    codes "returned no nonce"
    ∷ codes "error decoding response body"
    ∷ codes "error sending request"
    ∷ codes "operation timed out"
    ∷ codes "connection closed"
    ∷ codes "connection reset"
    ∷ codes "status server error"
    ∷ codes "authorization ended in pending"
    ∷ codes "An identical record already exists"
    ∷ codes "ACME directory"
    ∷ []

-- `list.contains(&text)`.
unfoldable pub one_of : Bytes → List Bytes → Bool
one_of text [] = false
one_of text (x ∷ xs) = beq text x || one_of text xs

unfoldable pub starts_with : Bytes → Bytes → Bool
starts_with text [] = true
starts_with [] (c ∷ needle) = false
starts_with (x ∷ text) (c ∷ needle) = x == c && starts_with text needle

-- `text.find(needle)`, and `text.contains(needle)`.
unfoldable pub find : Bytes → Bytes → Option ℕ
unfolding starts_with
find needle [] = if starts_with [] needle then some 0 else none
find needle (x ∷ text) =
    let later = find needle text in
    if starts_with (x ∷ text) needle
    then some 0
    else elim later [ none ↦ none | some i ↦ some (i + 1) ]

unfoldable pub contains : Bytes → Bytes → Bool
unfolding find
contains text needle = elim (find needle text) [ none ↦ false | some i ↦ true ]

unfoldable pub contains_any : Bytes → List Bytes → Bool
unfolding contains
contains_any text [] = false
contains_any text (needle ∷ needles) = contains text needle || contains_any text needles

-- `acme:error:<problem>` for each problem.
unfoldable pub error_names : List Bytes → List Bytes
error_names [] = []
error_names (problem ∷ problems) = (codes "acme:error:" ++ problem) ∷ error_names problems

unfoldable pub last_part : List Bytes → Bytes
last_part [] = []
last_part (x ∷ []) = x
last_part (x ∷ y ∷ rest) = last_part (y ∷ rest)

unfoldable pub classify_status : ℕ → Option ℕ → Class
classify_status status after =
    if status == 429 || (leb 500 status && leb status 599)
    then transient after
    else if status == 408
    then transient none
    else unknown

unfoldable pub classify_problem : Problem → Class
unfolding one_of last_part classify_status split
classify_problem problem =
    let kind = last_part (split b':' problem.kind) in
    if one_of kind permanent_problems
    then permanent
    else if one_of kind transient_problems
    then transient problem.retry_after
    else classify_status problem.status problem.retry_after

unfoldable pub digits : ℕ → Bytes → Option ℕ
digits value [] = some value
digits value (c ∷ text) =
    let rest = digits (value * 10 + (c - b'0')) text in
    if leb b'0' c && leb c b'9' then rest else none

-- `parse::<u16>` of up to three characters, which cannot overflow.
unfoldable pub parse_status : Bytes → Option ℕ
unfolding digits
parse_status [] = none
parse_status (c ∷ []) = digits 0 (c ∷ [])
parse_status (c ∷ text) = if c == b'+' then digits 0 text else digits 0 (c ∷ text)

-- The status in `| HTTP 502 |`.
unfoldable pub reason_status : Bytes → Option ℕ
unfolding find parse_status
reason_status reason = do
  index ← find (codes "| HTTP ") reason
  parse_status (take 3 (drop (index + 7) reason))

unfoldable pub classify_reason : Bytes → Class
unfolding contains_any error_names reason_status classify_status
classify_reason reason =
    if contains_any reason permanent_reasons
    then permanent
    else if contains_any reason (error_names permanent_problems)
    then permanent
    else if contains_any reason (error_names transient_problems)
    then transient none
    else if contains_any reason transient_reasons
    then transient none
    else elim (reason_status reason) [ none ↦ unknown | some status ↦ classify_status status none ]

unfoldable pub classify : List Cause → Bytes → Class
unfolding classify_problem classify_status classify_reason
classify [] message = classify_reason message
classify (typed_transient after ∷ causes) message = transient after
classify (typed_problem problem ∷ causes) message = classify_problem problem
classify (request (some status) retried ∷ causes) message = classify_status status none
classify (request none true ∷ causes) message = transient none
classify (request none false ∷ causes) message = classify causes message
classify (other ∷ causes) message = classify causes message

-- The delay after that many failed attempts, before jitter.
unfoldable pub full_delay : ℕ → ℕ → ℕ
full_delay base_ms attempts =
    min (max (min (base_ms * 2 ^ min (attempts - 1) 32) (2 ^ 64 - 1)) 1) max_delay_ms

unfoldable pub backoff : ℕ → ℕ → ℕ → ℕ
unfolding full_delay
backoff base_ms attempts jitter =
    let half = full_delay base_ms attempts / 2 in half + half * jitter / 2 ^ 32

unfoldable pub after_ms : Option ℕ → ℕ
after_ms none = 0
after_ms (some after) = after

unfoldable pub next_attempt : Class → ℕ → ℕ → ℕ → ℕ → ℕ → Option ℕ
unfolding backoff after_ms
next_attempt permanent attempts base_ms queued_at now jitter = none
next_attempt unknown attempts base_ms queued_at now jitter =
    if leb attempts_limit attempts then none else some (now + backoff base_ms attempts jitter)
next_attempt (transient after) attempts base_ms queued_at now jitter =
    let at = now + max (backoff base_ms attempts jitter) (min (after_ms after) max_delay_ms) in
    if leb at (queued_at + retry_window_ms) then some at else none
