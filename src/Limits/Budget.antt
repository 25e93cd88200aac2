-- ===== src/Limits/Budget.antt =====
-- The statements of all machines on `rate_limits`, in any order, and the grants of one key.
use opentunnel.Prelude.{
  ℕ, zero, suc, ◌+◌, ◌-◌, ◌*◌, ◌%◌, ◌^◌, ◌≤◌, ◌<◌, ◌≡◌, ◌≢◌, ◌⊎◌, refl, inl, inr, Bool, false, ◌&&◌,
  Option, none, some, ltb, leb, max, arith, Bytes, beq, beq_refl, beq→eq, Bool-cases, Option-cases,
}
use opentunnel.Limits.{Rate, new_rate, Rates, set_tat, update_rate, insert_rate, prune_rate_limits}

-- 1 for a statement that grants.
unfoldable pub granted : Option Rates → ℕ
granted none = 0
granted (some rows) = 1

unfoldable pub kept : Rates → Option Rates → Rates
kept rows none = rows
kept rows (some rows') = rows'

-- The time of a name's row, 0 where there is none.
unfoldable pub tat_or : Option ℕ → ℕ
tat_or none = 0
tat_or (some tat) = tat

-- The statements of all machines on the table, in any order. A call names one time in all its statements, so a
-- statement's `time` may be behind the clock, by `lag` at most: `n` statements were granted to `name` in calls
-- since `start`, and `p` prunes came in between.
pub data Run (name : Bytes) (rate : Rate) (lag start : ℕ) : ℕ → Rates → ℕ → ℕ → Type 0 where
  starts : (rows : Rates) → Run name rate lag start start rows 0 0
  updates :
      {at n p : ℕ} {rows : Rates} (now time : ℕ)
      → at ≤ now
      → start ≤ time
      → time ≤ now
      → now ≤ time + lag
      → Run name rate lag start at rows n p
      → Run name rate lag start now
          (update_rate name time rate rows).0
          (n + (update_rate name time rate rows).1)
          p
  inserts :
      {at n p : ℕ} {rows : Rates} (now time : ℕ)
      → at ≤ now
      → start ≤ time
      → time ≤ now
      → now ≤ time + lag
      → Run name rate lag start at rows n p
      → Run name rate lag start now
          (kept rows (insert_rate name time rate rows))
          (n + granted (insert_rate name time rate rows))
          p
  updates_other :
      {at n p : ℕ} {rows : Rates} (name' : Bytes) (rate' : Rate) (now time : ℕ)
      → name ≢ name'
      → at ≤ now
      → Run name rate lag start at rows n p
      → Run name rate lag start now (update_rate name' time rate' rows).0 n p
  inserts_other :
      {at n p : ℕ} {rows : Rates} (name' : Bytes) (rate' : Rate) (now time : ℕ)
      → name ≢ name'
      → at ≤ now
      → Run name rate lag start at rows n p
      → Run name rate lag start now (kept rows (insert_rate name' time rate' rows)) n p
  prunes :
      {at n p : ℕ} {rows : Rates} (reached : Bytes → Bool) (now time : ℕ)
      → at ≤ now
      → time ≤ now
      → Run name rate lag start at rows n p
      → Run name rate lag start now (prune_rate_limits reached time rows) n (p + 1)

-- Every grant moved the row's time on by an interval, beyond what the prunes cost, and the last one was within the
-- tolerance; where the row was pruned, the clock has passed its time.
IsSpent : Rate → ℕ → ℕ → ℕ → ℕ → ℕ → Option ℕ → Type 0
IsSpent rate lag start now n p (some tat) =
    (start ≤ now)
    × (start + n * rate.interval_ms ≤ max tat start + p * lag)
    × ((n ≡ 0) ⊎ (tat ≤ now + rate.tolerance_ms + rate.interval_ms))
IsSpent rate lag start now n p none =
    (start ≤ now) × ((n ≡ 0) ⊎ (start + n * rate.interval_ms + lag ≤ now + p * lag))

module _ (name : Bytes) (rate : Rate) (lag start : ℕ) where
  later :
      (at now n n' p : ℕ) (row : Option ℕ)
      → at ≤ now
      → n' ≡ n
      → IsSpent rate lag start at n p row
      → IsSpent rate lag start now n' p row
  unfolding IsSpent
  later at now n n' p none h same (since, elapsed) =
      rw same (omega arith, elim elapsed [ inl e ↦ inl e | inr e ↦ inr (omega (arith, e)) ])
  later at now n n' p (some tat) h same (since, moved, within) =
      rw same (omega arith, moved, elim within [ inl e ↦ inl e | inr e ↦ inr (omega (arith, e)) ])

  spend :
      (at now time n p tat : ℕ)
      → at ≤ now
      → start ≤ time
      → time ≤ now
      → max tat time ≤ time + rate.tolerance_ms
      → IsSpent rate lag start at n p (some tat)
      → IsSpent rate lag start now (n + 1) p (some (max tat time + rate.interval_ms))
  unfolding IsSpent
  spend at now time n p tat h began past room (since, moved, within) =
      (omega arith, grind (arith, moved, began), inr (omega arith))

  insert :
      (at now time n p : ℕ)
      → at ≤ now
      → start ≤ time
      → time ≤ now
      → now ≤ time + lag
      → IsSpent rate lag start at n p none
      → IsSpent rate lag start now (n + 1) p (some (time + rate.interval_ms))
  unfolding IsSpent
  insert at now time n p h began past late (since, elapsed) = (
    omega arith,
    elim elapsed [ inl e ↦ rw e (grind arith) | inr e ↦ grind (arith, e, h, late) ],
    inr (omega arith),
  )

  module _ (at now time n p : ℕ) (rows : Rates) (h : at ≤ now) (past : time ≤ now) where
    updated-IsSpent :
        start ≤ time
        → IsSpent rate lag start at n p (rows name)
        → IsSpent rate lag start now
            (n + (update_rate name time rate rows).1)
            p
            ((update_rate name time rate rows).0 name)
    unfolding update_rate set_tat
    updated-IsSpent began v = elim (Option-cases (rows name)) [
      | inl e ↦ rw (e, update_rate) (later at now n _ p (rows name) h (omega arith) v)
      | inr (tat, e) ↦ elim (Bool-cases (leb (max tat time) (time + rate.tolerance_ms))) [
        | inl room ↦
            rw (e, update_rate, room, beq_refl name)
              (spend at now time n p tat h began past (ground arith) (rw e at v))
        | inr full ↦ rw (e, update_rate, full) (later at now n _ p (rows name) h (omega arith) v)
      ]
    ]

    inserted-IsSpent :
        start ≤ time
        → now ≤ time + lag
        → IsSpent rate lag start at n p (rows name)
        → IsSpent rate lag start now
            (n + granted (insert_rate name time rate rows))
            p
            (kept rows (insert_rate name time rate rows) name)
    unfolding insert_rate set_tat kept granted
    inserted-IsSpent began late v = elim (Option-cases (rows name)) [
      | inl e ↦
          rw (e, insert_rate, beq_refl name, granted)
            (insert at now time n p h began past late (rw e at v))
      | inr (tat, e) ↦
          rw (e, insert_rate, granted) (later at now n _ p (rows name) h (omega arith) v)
    ]

    more_prunes :
        (row : Option ℕ)
        → IsSpent rate lag start at n p row
        → IsSpent rate lag start now n (p + 1) row
    unfolding IsSpent
    more_prunes none (since, elapsed) =
        (omega arith, elim elapsed [ inl e ↦ inl e | inr e ↦ inr (grind (arith, e)) ])
    more_prunes (some tat) (since, moved, within) = (
      omega arith,
      grind (arith, moved),
      elim within [ inl e ↦ inl e | inr e ↦ inr (omega (arith, e)) ],
    )

    pruned_away :
        (tat : ℕ)
        → tat < time
        → IsSpent rate lag start at n p (some tat)
        → IsSpent rate lag start now n (p + 1) none
    unfolding IsSpent
    pruned_away tat old (since, moved, within) =
        (omega arith, inr (grind (arith, moved, old, since)))

    pruned-IsSpent :
        (reached : Bytes → Bool)
        → IsSpent rate lag start at n p (rows name)
        → IsSpent rate lag start now n (p + 1) (prune_rate_limits reached time rows name)
    unfolding prune_rate_limits
    pruned-IsSpent reached v = elim (Option-cases (rows name)) [
      | inl e ↦ rw (e, prune_rate_limits) (more_prunes none (rw e at v))
      | inr (tat, e) ↦ elim (Bool-cases (reached name && ltb tat time)) [
        | inl gone ↦ rw (e, prune_rate_limits, gone) (pruned_away tat (ground arith) (rw e at v))
        | inr stays ↦ rw (e, prune_rate_limits, stays) (more_prunes (some tat) (rw e at v))
      ]
    ]

  other_name : (name' : Bytes) → name ≢ name' → beq name name' ≡ false
  other_name name' n = elim (Bool-cases (beq name name')) [
    | inl e ↦ absurd (n (beq→eq name name' e))
    | inr e ↦ e
  ]

  update_other :
      (name' : Bytes) (rate' : Rate) (now : ℕ) (rows : Rates)
      → name ≢ name'
      → (update_rate name' now rate' rows).0 name ≡ rows name
  unfolding update_rate set_tat
  update_other name' rate' now rows n = elim (Option-cases (rows name')) [
    | inl e ↦ rw (e, update_rate) refl
    | inr (tat, e) ↦ elim (Bool-cases (leb (max tat now) (now + rate'.tolerance_ms))) [
      | inl room ↦ rw (e, update_rate, room, other_name name' n) refl
      | inr full ↦ rw (e, update_rate, full) refl
    ]
  ]

  insert_other :
      (name' : Bytes) (rate' : Rate) (now : ℕ) (rows : Rates)
      → name ≢ name'
      → kept rows (insert_rate name' now rate' rows) name ≡ rows name
  unfolding insert_rate set_tat kept
  insert_other name' rate' now rows n = elim (Option-cases (rows name')) [
    | inl e ↦ rw (e, insert_rate, other_name name' n) refl
    | inr (tat, e) ↦ rw (e, insert_rate) refl
  ]

  Run-IsSpent :
      {now n p : ℕ} {rows : Rates}
      → Run name rate lag start now rows n p
      → IsSpent rate lag start now n p (rows name)
  unfolding IsSpent
  Run-IsSpent (starts rows) = elim (rows name) as (λ row. IsSpent rate lag start start 0 0 row) [
    | none ↦ (omega arith, inl refl)
    | some tat ↦ (omega arith, omega arith, inl refl)
  ]
  Run-IsSpent (updates {at} {n} {p} {rows} now time h began past late r) =
      updated-IsSpent at now time n p rows h past began (Run-IsSpent r)
  Run-IsSpent (inserts {at} {n} {p} {rows} now time h began past late r) =
      inserted-IsSpent at now time n p rows h past began late (Run-IsSpent r)
  Run-IsSpent (updates_other {at} {n} {p} {rows} name' rate' now time other h r) =
      rw (update_other name' rate' time rows other)
        (later at now n n p (rows name) h refl (Run-IsSpent r))
  Run-IsSpent (inserts_other {at} {n} {p} {rows} name' rate' now time other h r) =
      rw (insert_other name' rate' time rows other)
        (later at now n n p (rows name) h refl (Run-IsSpent r))
  Run-IsSpent (prunes {at} {n} {p} {rows} reached now time h past r) =
      pruned-IsSpent at now time n p rows h past reached (Run-IsSpent r)

  spent_within :
      (now n p : ℕ) (row : Option ℕ)
      → IsSpent rate lag start now n p row
      → start + n * rate.interval_ms ≤ now + rate.tolerance_ms + rate.interval_ms + p * lag
  unfolding IsSpent
  spent_within now n p none (since, elapsed) = elim elapsed [
    | inl e ↦ rw e (omega (arith, since))
    | inr e ↦ omega (arith, e)
  ]
  spent_within now n p (some tat) (since, moved, within) = elim within [
    | inl e ↦ rw e (omega (arith, since))
    | inr e ↦ omega (arith, moved, e, since)
  ]

burst_intervals : (i m : ℕ) → 1 ≤ m → i * (m - 1) + i ≡ i * m
burst_intervals i zero h = absurd (omega arith)
burst_intervals i (suc m) h = grind arith

-- Whatever the machines do and however their statements interleave, from one time to another a key is granted at
-- most a burst, one more for every interval that passed, and one more for every interval in `p` times `lag`, for
-- `p` prunes in between, where `lag` is the most by which the time that a call names is behind the clock.
-- Statements need not come in the order of their times, a call that began before `start` is not counted, and the
-- burst is below 2 ^ 64 milliseconds.
pub grants_within :
    (name : Bytes) (count period burst : ℕ) (rate : Rate)
    → new_rate count period burst ≡ some rate
    → rate.interval_ms * max burst 1 < 2 ^ 64
    → {lag start now n p : ℕ} {rows : Rates} → Run name rate lag start now rows n p
    → start + n * rate.interval_ms ≤ now + rate.interval_ms * max burst 1 + p * lag
unfolding new_rate
grants_within name zero period burst rate e fits r = absurd (cc e)
grants_within name (suc count) period burst rate e fits {lag} {start} {now} {n} {p} {rows} r =
    let within =
      spent_within name rate lag start now n p (rows name) (Run-IsSpent name rate lag start r) in
    let all = burst_intervals rate.interval_ms (max burst 1) (omega arith) in
    let tolerance : rate.tolerance_ms ≡ (rate.interval_ms * (max burst 1 - 1)) % 2 ^ 64 = cc e in
    omega (arith, within, all, tolerance, fits)
