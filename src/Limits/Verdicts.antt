-- ===== src/Limits/Verdicts.antt =====
-- When a request is allowed, and what a refused one is told.
use opentunnel.Prelude.{
  ℕ, ◌+◌, ◌-◌, ◌≤◌, ◌<◌, ◌≡◌, ◌↔◌, refl, ap, ◌∙◌, suc, inl, inr, true, false, none, some, leb, max,
  arith, Bytes, Bool-cases, Option-cases,
}
use opentunnel.Limits.{
  Rate, Rates, allowed, limited, set_tat, update_rate, insert_rate, retry_after, take_loop,
  unless_inserted, take_rate,
}
use opentunnel.Limits.Budget.{tat_or}

-- No other machine changes the table in between.
abbrev pub alone : ℕ → Rates → Rates
alone n rows = rows

module _ (name : Bytes) (now : ℕ) (rate : Rate) (rows : Rates) where
  take_loop_taken :
      (tries n : ℕ) (rows' : Rates)
      → update_rate name now rate rows ≡ (rows', 1)
      → take_loop alone (suc tries) n name now rate rows ≡ (rows', allowed)
  unfolding take_loop unless_inserted
  take_loop_taken tries n rows' e = rw (e, take_loop) refl

  take_loop_inserted :
      (tries n : ℕ) (rows' : Rates)
      → update_rate name now rate rows ≡ (rows, 0)
      → insert_rate name now rate rows ≡ some rows'
      → take_loop alone (suc tries) n name now rate rows ≡ (rows', allowed)
  unfolding take_loop unless_inserted
  take_loop_inserted tries n rows' e i = rw (e, i, take_loop) refl

  take_loop_refused :
      (tries n : ℕ)
      → update_rate name now rate rows ≡ (rows, 0)
      → insert_rate name now rate rows ≡ none
      → take_loop alone (suc tries) n name now rate rows
        ≡ take_loop alone tries (n + 2) name now rate rows
  unfolding take_loop unless_inserted
  take_loop_refused tries n e i = rw (e, i, take_loop) refl

  pub take_rate_allowed :
      tat_or (rows name) ≤ now + rate.tolerance_ms
      → (take_rate alone name now rate rows).1 ≡ allowed
  unfolding take_rate update_rate insert_rate tat_or
  take_rate_allowed h = elim (Option-cases (rows name)) [
    | inl e ↦
        ap (λ p. p.1)
          (take_loop_inserted 1 0 (set_tat name (now + rate.interval_ms) rows)
            (rw (e, update_rate) refl) (rw (e, insert_rate) refl))
    | inr (tat, e) ↦
        let room : leb (max tat now) (now + rate.tolerance_ms) ≡ true =
          let h' = rw e at h in ground arith in
        ap (λ p. p.1)
          (take_loop_taken 1 0 (set_tat name (max tat now + rate.interval_ms) rows)
            (rw (e, update_rate, room) refl))
  ]

  pub take_rate_limited :
      (tat : ℕ)
      → rows name ≡ some tat
      → now + rate.tolerance_ms < tat
      → take_rate alone name now rate rows ≡ (rows, limited (tat - (rate.tolerance_ms + now)))
  unfolding take_rate update_rate insert_rate retry_after take_loop
  take_rate_limited tat e h =
      let full : leb (max tat now) (now + rate.tolerance_ms) ≡ false = ground arith in
      let wait : max (tat - (rate.tolerance_ms + now)) 1 ≡ tat - (rate.tolerance_ms + now) =
        omega arith in
      let refused : update_rate name now rate rows ≡ (rows, 0) = rw (e, update_rate, full) refl in
      let present : insert_rate name now rate rows ≡ none = rw (e, insert_rate) refl in
      take_loop_refused 1 0 refused present
      ∙ take_loop_refused 0 2 refused present
      ∙ rw (e, retry_after, wait) refl

-- Where no other machine comes in between, a request is allowed exactly when the key's time is at most
-- the tolerance ahead. A refused one leaves the key as it is, and the wait that it is told is exact: a
-- later request, with the key unchanged, is allowed from then on and not before.
pub take_rate_exact :
    (name : Bytes) (now : ℕ) (rate : Rate) (rows : Rates)
    → (((take_rate alone name now rate rows).1 ≡ allowed)
        ↔ (tat_or (rows name) ≤ now + rate.tolerance_ms))
      × ((wait later : ℕ)
          → (take_rate alone name now rate rows).1 ≡ limited wait
          → now ≤ later
          → ((take_rate alone name now rate rows).0 ≡ rows)
            × (((take_rate alone name later rate rows).1 ≡ allowed) ↔ (now + wait ≤ later)))
unfolding tat_or
take_rate_exact name now rate rows = elim (Option-cases (rows name)) [
  | inl e ↦ open_ (rw e (omega arith))
  | inr (tat, e) ↦ elim (Bool-cases (leb tat (now + rate.tolerance_ms))) [
    | inl room ↦ open_ (rw e (ground arith))
    | inr full ↦ shut tat e (ground arith)
  ]
]
  where
    Goal : Type 0
    Goal =
        (((take_rate alone name now rate rows).1 ≡ allowed)
          ↔ (tat_or (rows name) ≤ now + rate.tolerance_ms))
        × ((wait later : ℕ)
            → (take_rate alone name now rate rows).1 ≡ limited wait
            → now ≤ later
            → ((take_rate alone name now rate rows).0 ≡ rows)
              × (((take_rate alone name later rate rows).1 ≡ allowed) ↔ (now + wait ≤ later)))

    open_ : tat_or (rows name) ≤ now + rate.tolerance_ms → Goal
    open_ h =
        let yields = take_rate_allowed name now rate rows h in
        ((λ a. h, λ h'. yields), λ wait later l late. absurd (cc (yields, l)))

    shut : (tat : ℕ) → rows name ≡ some tat → now + rate.tolerance_ms < tat → Goal
    shut tat e h =
        let refuses = take_rate_limited name now rate rows tat e h in
        (
          (
            λ a. absurd (cc (refuses, a)),
            λ h'. absurd (let h'' = rw e at h' in omega (arith, h'')),
          ),
          λ wait later l late. (
            ap (λ p. p.0) refuses,
            let waits : wait ≡ tat - (rate.tolerance_ms + now) = cc (refuses, l) in
                elim (Bool-cases (leb tat (later + rate.tolerance_ms))) [
                  | inl room ↦ (
                    λ a. ground arith,
                    λ h'. take_rate_allowed name later rate rows (rw e (ground arith)),
                  )
                  | inr full ↦
                      let refuses' = take_rate_limited name later rate rows tat e (ground arith) in
                      (λ a. absurd (cc (refuses', a)), λ h'. absurd (ground arith))
                ],
          ),
        )
