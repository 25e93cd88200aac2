-- ===== src/Retry/Tests.antt =====
-- The failures of the program's own tests, and the theorems applied to concrete delays.
use opentunnel.Prelude.{
  ℕ, ◌+◌, ◌*◌, ◌<◌, some, true, false, ◌/◌, ◌≤◌, ◌≡◌, refl, none, [], ◌∷◌, arith, codes,
}
use opentunnel.Retry.{
  transient, permanent, unknown, other, typed_problem, classify, classify_reason, full_delay,
  backoff, next_attempt, max_delay_ms,
}
use opentunnel.Retry.Requests.{
  retry_delay_ms, retryable_status, idempotent, once, retry_max_ms, retry_delay_ms_within,
}
use opentunnel.Retry.Bounds.{backoff_within, IsAnswer, next_attempt-IsAnswer}

reasons :
    (classify_reason (codes "ACME server returned no nonce") ≡ transient none)
    × (classify_reason (codes "ACME request failed | HTTP 502 | <html>") ≡ transient none)
    × (classify_reason (codes "urn:ietf:params:acme:error:rejectedIdentifier") ≡ permanent)
    × (classify_reason (codes "CSR is not PEM") ≡ permanent)
    × (classify_reason (codes "something else | HTTP 404 | gone") ≡ unknown)
unfolding classify_reason
reasons = (refl, refl, refl, refl, refl)

causes :
    (classify
        (other
          ∷ typed_problem (record {
            kind = codes "urn:ietf:params:acme:error:badNonce";
            status = 400;
            retry_after = some 7;
          })
          ∷ [])
        (codes "x")
      ≡ transient (some 7))
    × (classify (other ∷ []) (codes "connection reset") ≡ transient none)
unfolding classify
causes = (refl, refl)

doubling : (full_delay 1000 1 ≡ 1000) × (full_delay 1000 3 ≡ 4000) × (full_delay 1000 40 ≡ 3600000)
unfolding full_delay
doubling = (refl, refl, refl)

backoff_within_example :
    (full_delay 1000 3 / 2 ≤ backoff 1000 3 77)
    × (backoff 1000 3 77 ≤ full_delay 1000 3)
    × (backoff 1000 3 77 ≤ max_delay_ms)
backoff_within_example = backoff_within 1000 3 77 (omega arith)

next_attempt-IsAnswer_example :
    IsAnswer
      (transient (some 9000))
      3
      500
      1000
      (next_attempt (transient (some 9000)) 3 1000 500 1000 77)
next_attempt-IsAnswer_example =
    next_attempt-IsAnswer (transient (some 9000)) 3 1000 500 1000 77 (omega arith)

request_delays :
    (retry_delay_ms 0 none ≡ (125, 250))
    × (retry_delay_ms 9 none ≡ (4000, 8000))
    × (retryable_status 502 idempotent ≡ true)
    × (retryable_status 502 once ≡ false)
unfolding retry_delay_ms retryable_status
request_delays = (refl, refl, refl, refl)

retry_delay_ms_within_example :
    ((retry_delay_ms 2 none).0 ≡ (retry_delay_ms 2 none).1 / 2)
    × ((retry_delay_ms 2 none).1 ≤ retry_max_ms)
    × ((retry_delay_ms 2 none).1 ≤ (retry_delay_ms (2 + 1) none).1)
    × ((seconds : ℕ)
        → seconds * 1000 ≤ retry_max_ms
        → retry_delay_ms 2 (some seconds) ≡ (seconds * 1000, seconds * 1000))
    × ((seconds : ℕ)
        → retry_max_ms < seconds * 1000
        → retry_delay_ms 2 (some seconds) ≡ (retry_max_ms, retry_max_ms))
retry_delay_ms_within_example = retry_delay_ms_within 2
