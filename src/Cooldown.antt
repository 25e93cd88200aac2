-- ===== src/Cooldown.antt =====
-- The pause of certificate issuance while the CA is in trouble: `Cooldown` of
-- crates/opentunnel-server/src/jobs.rs. The text that machines share is read here, not printed.
pub mod Pauses
mod Tests
use opentunnel.Prelude.{
  ℕ, zero, suc, ◌+◌, ◌*◌, ◌^◌, Bool, true, false, not, ◌&&◌, ◌||◌, Option, none, some, List, [],
  ◌∷◌, ltb, ◌==◌, min, max, if◌then◌else◌, Bytes, beq, codes,
}
use opentunnel.Names.{split}
use opentunnel.Names.Targets.{read_digits}

abbrev pub cooldown_failures : ℕ
cooldown_failures = 5

abbrev pub cooldown_min_ms : ℕ
cooldown_min_ms = 60000

abbrev pub cooldown_max_ms : ℕ
cooldown_max_ms = 3600000

abbrev pub trouble : List Bytes
trouble =
    codes "network"
    ∷ codes "timeout"
    ∷ codes "http_5xx"
    ∷ codes "http_429"
    ∷ codes "bad_body"
    ∷ codes "nonce"
    ∷ codes "bad_nonce"
    ∷ []

unfoldable pub listed : Bytes → List Bytes → Bool
listed class [] = false
listed class (c ∷ cs) = beq class c || listed class cs

unfoldable pub ca_trouble : Bytes → Bool
unfolding listed
ca_trouble class = listed class trouble

pub record Cooldown : Type 0 where
  pub failures : ℕ
  pub cooldown_ms : ℕ
  pub until : ℕ

abbrev pub default : Cooldown
default = record { failures = 0; cooldown_ms = 0; until = 0 }

unfoldable pub longer : ℕ → ℕ
longer cooldown_ms =
    if cooldown_ms == 0 then cooldown_min_ms else min (cooldown_ms * 2) cooldown_max_ms

unfoldable pub wait_ms : Option ℕ → ℕ
wait_ms none = 0
wait_ms (some after) = min after cooldown_max_ms

unfoldable pub pause : Option ℕ → ℕ → Cooldown → Cooldown
unfolding longer wait_ms
pause retry_after now c =
    let cooldown = longer c.cooldown_ms in
    record {
      failures = 0;
      cooldown_ms = cooldown;
      until = max c.until (now + max cooldown (wait_ms retry_after));
    }

-- `Cooldown::failed`, and whether a cool-down starts.
unfoldable pub failed : Bytes → Option ℕ → ℕ → Cooldown → Cooldown × Bool
unfolding ca_trouble pause
failed class retry_after now c =
    if not (ca_trouble class)
    then (c, false)
    else if not (beq class (codes "http_429")) && ltb (c.failures + 1) cooldown_failures
    then (record c { failures = c.failures + 1 }, false)
    else (pause retry_after now c, true)

-- `Cooldown::succeeded`, and whether a cool-down was in effect.
unfoldable pub succeeded : Cooldown → Cooldown × Bool
succeeded c = (default, ltb 0 c.cooldown_ms)

-- `field.parse::<u64>().unwrap_or(0)`.
unfoldable pub number_or_0 : Bytes → ℕ
unfolding read_digits
number_or_0 [] = 0
number_or_0 (c ∷ []) = elim (read_digits (2 ^ 64) 0 (c ∷ [])) [ none ↦ 0 | some n ↦ n ]
number_or_0 (c ∷ d ∷ text) =
    elim (read_digits (2 ^ 64) 0 (if c == b'+' then d ∷ text else c ∷ d ∷ text)) [
      | none ↦ 0
      | some n ↦ n
    ]

unfoldable pub two_fields : List Bytes → ℕ × ℕ
unfolding number_or_0
two_fields [] = (0, 0)
two_fields (until ∷ []) = (number_or_0 until, 0)
two_fields (until ∷ cooldown ∷ rest) = (number_or_0 until, number_or_0 cooldown)

-- `Cooldown::merge`: the later end and the longer cool-down.
unfoldable pub merge : Bytes → Cooldown → Cooldown
unfolding two_fields split
merge stored c =
    let fields = two_fields (split b' ' stored) in
    record c { until = max c.until fields.0; cooldown_ms = max c.cooldown_ms fields.1 }

-- A failed attempt: its class, the Retry-After and the time.
pub record Failure : Type 0 where
  pub class : Bytes
  pub retry_after : Option ℕ
  pub now : ℕ

-- Attempts that fail one after another, and whether one of them started a cool-down.
unfoldable pub fail_all : List Failure → Cooldown → Cooldown × Bool
unfolding failed
fail_all [] c = (c, false)
fail_all (f ∷ rest) c =
    let next = failed f.class f.retry_after f.now c in
    let last = fail_all rest next.0 in (last.0, next.1 || last.1)
