-- ===== src/Retry/Bounds.antt =====
-- The waits of retry.rs: `backoff` and `next_attempt`.
use opentunnel.Prelude.{
  ℕ, zero, suc, ◌+◌, ◌*◌, ◌/◌, ◌^◌, ◌≤◌, ◌<◌, ◌≡◌, refl, inl, inr, Option, none, some, leb, min,
  max, arith, Bool-cases,
}
use native.Mathlib.Nat.{div-le_of_le-mul}
use opentunnel.Retry.{
  Class, transient, permanent, unknown, full_delay, backoff, after_ms, next_attempt,
  retry_window_ms, max_delay_ms, attempts_limit,
}

mul_within : (half jitter bound : ℕ) → jitter ≤ bound → half * jitter ≤ bound * half
mul_within zero jitter bound h = omega arith
mul_within (suc half) jitter bound h = grind (arith, mul_within half jitter bound h)

scaled : (half jitter : ℕ) → jitter < 2 ^ 32 → half * jitter / 2 ^ 32 ≤ half
scaled half jitter h =
    div-le_of_le-mul (2 ^ 32) (mul_within half jitter (2 ^ 32) (omega (arith, h)))

-- The wait lies between half of the delay, rounded down, and all of it, and is at most an hour.
pub backoff_within :
    (base_ms attempts jitter : ℕ)
    → jitter < 2 ^ 32
    → (full_delay base_ms attempts / 2 ≤ backoff base_ms attempts jitter)
      × (backoff base_ms attempts jitter ≤ full_delay base_ms attempts)
      × (backoff base_ms attempts jitter ≤ max_delay_ms)
unfolding backoff
backoff_within base_ms attempts jitter h =
    let s = scaled (full_delay base_ms attempts / 2) jitter h in
    let hour = full_delay_hour base_ms attempts in
    (omega (arith, s), omega (arith, s), omega (arith, s, hour))
  where
    full_delay_hour : (base_ms attempts : ℕ) → full_delay base_ms attempts ≤ max_delay_ms
    full_delay_hour base_ms attempts = unfold full_delay in omega arith

-- The answer to a failure of each class.
pub IsAnswer : Class → ℕ → ℕ → ℕ → Option ℕ → Type 0
IsAnswer permanent attempts queued_at now answer = answer ≡ none
IsAnswer unknown attempts queued_at now none = attempts_limit ≤ attempts
IsAnswer unknown attempts queued_at now (some at) =
    (attempts < attempts_limit) × (at ≤ now + max_delay_ms)
IsAnswer (transient after) attempts queued_at now none =
    queued_at + retry_window_ms < now + max_delay_ms
IsAnswer (transient after) attempts queued_at now (some at) =
    (at ≤ queued_at + retry_window_ms)
    × (now + min (after_ms after) max_delay_ms ≤ at)
    × (at ≤ now + max_delay_ms)

-- A permanent failure is not retried, an unrecognized one until there were three. A transient one is
-- retried within a day of its queueing, not before the server's Retry-After (as far as that is within an
-- hour), and given up only where less than an hour of that day is left. No wait exceeds an hour.
pub next_attempt-IsAnswer :
    (class : Class) (attempts base_ms queued_at now jitter : ℕ)
    → jitter < 2 ^ 32
    → IsAnswer class attempts queued_at now
        (next_attempt class attempts base_ms queued_at now jitter)
unfolding next_attempt IsAnswer
next_attempt-IsAnswer permanent attempts base_ms queued_at now jitter h = refl
next_attempt-IsAnswer unknown attempts base_ms queued_at now jitter h =
    elim (Bool-cases (leb attempts_limit attempts)) [
      | inl e ↦ rw e (ground arith)
      | inr e ↦ rw e (ground arith, omega (arith, (backoff_within base_ms attempts jitter h).2))
    ]
next_attempt-IsAnswer (transient after) attempts base_ms queued_at now jitter h =
    let within = (backoff_within base_ms attempts jitter h).2 in
    let at : ℕ = now + max (backoff base_ms attempts jitter) (min (after_ms after) max_delay_ms) in
    elim (Bool-cases (leb at (queued_at + retry_window_ms))) [
      | inl e ↦ rw e (ground arith, omega arith, omega (arith, within))
      | inr e ↦
          let late : queued_at + retry_window_ms < at = ground arith in
          rw e (omega (arith, within, late))
    ]
