-- ===== src/Limits.antt =====
-- Rate limits: `Rate` and `Verdict` of crates/opentunnel-server/src/limits.rs, and the table that holds
-- them, `take_rate` and `prune_rate_limits` of crates/opentunnel-server/src/store.rs.
--
-- The table is a map from its primary key. A statement is atomic; between the statements of `take_rate`
-- other machines may change the table, which `others` does before the n-th one.
pub mod Budget
pub mod Verdicts
mod Tests
use opentunnel.Prelude.{
  ℕ, zero, suc, ◌+◌, ◌-◌, ◌*◌, ◌/◌, ◌%◌, ◌^◌, Bool, true, false, ◌&&◌, Option, none, some, ltb, leb,
  ◌==◌, max, if◌then◌else◌, Bytes, beq,
}

pub record Rate : Type 0 where
  pub interval_ms : ℕ
  pub tolerance_ms : ℕ

-- `Rate::new`: `None` (no limit) when `count` is 0.
unfoldable pub new_rate : ℕ → ℕ → ℕ → Option Rate
new_rate zero period_ms burst = none
new_rate (suc count) period_ms burst =
    let interval = max (period_ms / suc count) 1 in
    some (record { interval_ms = interval; tolerance_ms = (interval * (max burst 1 - 1)) % 2 ^ 64 })

pub data Verdict : Type 0 where
  allowed : Verdict
  limited : ℕ → Verdict

-- The rows of `rate_limits`: each name's `tat`.
abbrev pub Rates : Type 0
Rates = Bytes → Option ℕ

unfoldable pub set_tat : Bytes → ℕ → Rates → Rates
set_tat name tat rows name' = if beq name' name then some tat else rows name'

-- `UPDATE rate_limits SET tat = GREATEST(tat, now) + interval WHERE …`, and the rows affected.
unfoldable pub update_rate : Bytes → ℕ → Rate → Rates → Rates × ℕ
unfolding set_tat
update_rate name now rate rows = elim (rows name) [
  | none ↦ (rows, 0)
  | some tat ↦
      if leb (max tat now) (now + rate.tolerance_ms)
      then (set_tat name (max tat now + rate.interval_ms) rows, 1)
      else (rows, 0)
]

-- `INSERT INTO rate_limits`, which the primary key refuses where the name has a row.
unfoldable pub insert_rate : Bytes → ℕ → Rate → Rates → Option Rates
unfolding set_tat
insert_rate name now rate rows = elim (rows name) [
  | none ↦ some (set_tat name (now + rate.interval_ms) rows)
  | some tat ↦ none
]

-- What a refused request is told to wait.
unfoldable pub retry_after : ℕ → Rate → Option ℕ → ℕ
retry_after now rate none = 1
retry_after now rate (some tat) = max (tat - (rate.tolerance_ms + now)) 1

-- An insert ends the call, unless the name has a row meanwhile.
unfoldable pub unless_inserted : Option Rates → Rates × Verdict → Rates × Verdict
unless_inserted none rest = rest
unless_inserted (some inserted) rest = (inserted, allowed)

unfoldable pub take_loop : (ℕ → Rates → Rates) → ℕ → ℕ → Bytes → ℕ → Rate → Rates → Rates × Verdict
unfolding update_rate insert_rate retry_after unless_inserted
take_loop others zero n name now rate rows =
    let rows' = others n rows in (rows', limited (retry_after now rate (rows' name)))
take_loop others (suc tries) n name now rate rows =
    let updated = update_rate name now rate (others n rows) in
    let rows' = others (n + 1) updated.0 in
    let rest = take_loop others tries (n + 2) name now rate rows' in
    if updated.1 == 1
    then (updated.0, allowed)
    else unless_inserted (insert_rate name now rate rows') rest

unfoldable pub take_rate : (ℕ → Rates → Rates) → Bytes → ℕ → Rate → Rates → Rates × Verdict
unfolding take_loop
take_rate others name now rate rows = take_loop others 2 0 name now rate rows

-- `DELETE FROM rate_limits WHERE tat < now LIMIT …`; `reached` says which rows the limit lets it reach.
unfoldable pub prune_rate_limits : (Bytes → Bool) → ℕ → Rates → Rates
prune_rate_limits reached now rows name = elim (rows name) [
  | none ↦ none
  | some tat ↦ if reached name && ltb tat now then none else some tat
]
