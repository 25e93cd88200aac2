-- ===== src/Limits/Tests.antt =====
-- Runs of the rate limit, and the theorems applied to them.
use opentunnel.Limits.{
  true, prune_rate_limits, Rate, new_rate, Rates, set_tat, update_rate, insert_rate, take_rate,
  allowed, limited,
}
use opentunnel.Prelude.{ℕ, ◌+◌, ◌*◌, ◌≤◌, ◌≡◌, ◌↔◌, refl, max, none, some, arith, Bytes, codes}
use opentunnel.Limits.Budget.{starts, inserts, prunes, grants_within, granted, kept, tat_or}
use opentunnel.Limits.Verdicts.{alone, take_rate_exact}

-- Two at once, six in a minute.
abbrev rate : Rate
rate = record { interval_ms = 10000; tolerance_ms = 10000 }

rate_made : new_rate 6 60000 2 ≡ some rate
unfolding new_rate
rate_made = refl

abbrev name : Bytes
name = codes "issue:abc"

abbrev no_rows : Rates
no_rows key = none

abbrev once : Rates
once = (take_rate alone name 1000 rate no_rows).0

abbrev twice : Rates
twice = (take_rate alone name 1000 rate once).0

third_waits : (take_rate alone name 1000 rate twice).1 ≡ limited 10000
unfolding take_rate
third_waits = refl

after_another : (take_rate (λ n. set_tat name 50000) name 1000 rate no_rows).1 ≡ limited 39000
unfolding take_rate set_tat
after_another = refl

-- Two grants, of which a prune by a later clock and a late insert come in between.
grants_within_example : 1000 + 2 * 10000 ≤ 40000 + 10000 * max 2 1 + 1 * 5000
unfolding update_rate insert_rate granted kept set_tat prune_rate_limits
grants_within_example =
    grants_within name 6 60000 2 rate rate_made (omega arith) {lag = 5000} {start = 1000} (
      inserts 40000 36000 (omega arith) (omega arith) (omega arith) (omega arith) (
        prunes (λ key. true) 40000 40000 (omega arith) (omega arith)
          (inserts 1000 1000 (omega arith) (omega arith) (omega arith) (omega arith)
            (starts no_rows))))

take_rate_exact_example :
    (((take_rate alone name 1000 rate twice).1 ≡ allowed) ↔ (tat_or (twice name) ≤ 1000 + 10000))
    × ((wait later : ℕ)
        → (take_rate alone name 1000 rate twice).1 ≡ limited wait
        → 1000 ≤ later
        → ((take_rate alone name 1000 rate twice).0 ≡ twice)
          × (((take_rate alone name later rate twice).1 ≡ allowed) ↔ (1000 + wait ≤ later)))
take_rate_exact_example = take_rate_exact name 1000 rate twice
