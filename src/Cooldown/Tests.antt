-- ===== src/Cooldown/Tests.antt =====
-- The cool-down on the inputs of the tests of jobs.rs, and the theorems applied to them.
use opentunnel.Prelude.{◌≡◌, refl, inl, true, false, none, some, List, [], ◌∷◌, arith, codes}
use opentunnel.Cooldown.{Cooldown, Failure, default, failed, succeeded, merge, fail_all, ca_trouble}
use opentunnel.Cooldown.Pauses.{IsCooldown, IsNext, failed-IsNext, five_failures}

abbrev timeout : Failure
timeout = record { class = codes "timeout"; retry_after = none; now = 1000 }

abbrev failures : List Failure
failures = timeout ∷ timeout ∷ timeout ∷ timeout ∷ timeout ∷ []

abbrev paused : Cooldown
paused = (fail_all failures default).0

pauses :
    (failed (codes "rejected") none 0 default ≡ (default, false))
    × (paused ≡ record { failures = 0; cooldown_ms = 60000; until = 61000 })
    × ((failed (codes "http_429") (some 1800000) 300000 paused).0.until ≡ 2100000)
    × ((succeeded paused).1 ≡ true)
unfolding failed fail_all succeeded
pauses = (refl, refl, refl, refl)

merges :
    (merge (codes "5000 60000") default
      ≡ record { failures = 0; cooldown_ms = 60000; until = 5000 })
    × (merge (codes "garbage") paused ≡ paused)
unfolding merge fail_all
merges = (refl, refl)

default-IsCooldown : IsCooldown default
default-IsCooldown = record { few = omega arith; bounded = inl refl }

failed-IsNext_example :
    IsCooldown (failed (codes "http_429") (some 9000) 5000 default).0
    × IsNext (some 9000) 5000 default (failed (codes "http_429") (some 9000) 5000 default)
failed-IsNext_example = failed-IsNext (codes "http_429") (some 9000) 5000 default default-IsCooldown

-- A failure that does not point at the CA.
abbrev rejected : Failure
rejected = record { class = codes "rejected"; retry_after = none; now = 1000 }

five_failures_example :
    (fail_all (timeout ∷ timeout ∷ rejected ∷ timeout ∷ timeout ∷ timeout ∷ []) default).1 ≡ true
unfolding ca_trouble
five_failures_example =
    five_failures (timeout ∷ timeout ∷ rejected ∷ timeout ∷ timeout ∷ timeout ∷ []) default
      (omega arith) (omega arith)
