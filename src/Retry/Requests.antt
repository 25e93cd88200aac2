-- ===== src/Retry/Requests.antt =====
-- The client's retries of API requests: crates/opentunnel/src/protocol/api.rs. A Retry-After header is
-- given by the number that its text holds, if it holds one.
use opentunnel.Prelude.{
  ℕ, suc, ◌+◌, ◌-◌, ◌*◌, ◌/◌, ◌^◌, ◌≤◌, ◌<◌, ◌≡◌, refl, ap, inl, inr, Bool, ◌&&◌, ◌||◌, Option,
  none, some, ◌==◌, leb, min, arith, Bool-cases,
}
use native.Mathlib.Nat.{pow-suc}

abbrev pub retry_base_ms : ℕ
retry_base_ms = 250

abbrev pub retry_max_ms : ℕ
retry_max_ms = 8000

pub data Repeat : Type 0 where
  idempotent once : Repeat

unfoldable pub retryable_status : ℕ → Repeat → Bool
retryable_status status idempotent = status == 429 || leb 500 status && leb status 599
retryable_status status once =
    status == 429
    || (status == 503 || (status == 521 || (status == 522 || (status == 523 || status == 525))))

-- `a.saturating_mul(b)` on 64 bits.
unfoldable pub saturating_mul : ℕ → ℕ → ℕ
saturating_mul a b = min (a * b) (2 ^ 64 - 1)

-- The range of the delay; `seconds` is what the header says, where it is a number.
unfoldable pub retry_delay_ms : ℕ → Option ℕ → ℕ × ℕ
unfolding saturating_mul
retry_delay_ms attempt (some seconds) =
    let delay = min (saturating_mul seconds 1000) retry_max_ms in (delay, delay)
retry_delay_ms attempt none =
    let delay = min (saturating_mul retry_base_ms (2 ^ min attempt 16)) retry_max_ms in
    (delay / 2, delay)

power_grows : (k : ℕ) → 2 ^ k ≤ 2 ^ (k + 1)
power_grows k =
    let next : k + 1 ≡ suc k = omega arith in
    let double : 2 ^ suc k ≡ 2 ^ k * 2 = pow-suc 2 k in rw next (omega (arith, double))

-- Without a header the delay before a retry lies between half of its maximum and all of it, never more
-- than eight seconds, and the maximum does not shrink from one retry to the next. A header is followed to
-- the letter, up to eight seconds.
pub retry_delay_ms_within :
    (attempt : ℕ)
    → ((retry_delay_ms attempt none).0 ≡ (retry_delay_ms attempt none).1 / 2)
      × ((retry_delay_ms attempt none).1 ≤ retry_max_ms)
      × ((retry_delay_ms attempt none).1 ≤ (retry_delay_ms (attempt + 1) none).1)
      × ((seconds : ℕ)
          → seconds * 1000 ≤ retry_max_ms
          → retry_delay_ms attempt (some seconds) ≡ (seconds * 1000, seconds * 1000))
      × ((seconds : ℕ)
          → retry_max_ms < seconds * 1000
          → retry_delay_ms attempt (some seconds) ≡ (retry_max_ms, retry_max_ms))
unfolding retry_delay_ms saturating_mul
retry_delay_ms_within attempt = (
  refl,
  omega arith,
  elim (Bool-cases (leb 16 attempt)) [
    | inl e ↦
        let a : min attempt 16 ≡ 16 = ground arith in
        let b : min (attempt + 1) 16 ≡ 16 = ground arith in rw (a, b) (omega arith)
    | inr e ↦
        let a : min attempt 16 ≡ attempt = ground arith in
        let b : min (attempt + 1) 16 ≡ attempt + 1 = ground arith in
        rw (a, b) (omega (arith, power_grows attempt))
  ],
  λ seconds h.
      let d : min (min (seconds * 1000) (2 ^ 64 - 1)) retry_max_ms ≡ seconds * 1000 = omega arith in
      ap (λ n. (n, n)) d,
  λ seconds h.
      let d : min (min (seconds * 1000) (2 ^ 64 - 1)) retry_max_ms ≡ retry_max_ms = omega arith in
      ap (λ n. (n, n)) d,
)
