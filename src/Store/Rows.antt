-- ===== src/Store/Rows.antt =====
-- What an update does to the row of one certificate.
use opentunnel.Prelude.{
  arith, ◌≡◌, refl, inl, inr, Bool, true, Option, none, some, List, [], ◌∷◌, if◌then◌else◌, Bytes,
  beq, beq→eq, Bool-cases,
}
use opentunnel.Store.Jobs.{JobRow, update, affected, find_job, find_owned, is_owner, job_from_row}

-- No two rows have one certificate ID (the primary key).
unfoldable pub Distinct : List JobRow → Type 0
Distinct [] = Unit
Distinct (row ∷ rows) = (find_job row.certificate_id rows ≡ none) × Distinct rows

-- The row that an update leaves.
unfoldable pub after : (JobRow → Bool) → (JobRow → JobRow) → Option JobRow → Option JobRow
after holds set none = none
after holds set (some row) = some (if holds row then set row else row)

module _ (holds : JobRow → Bool) (set : JobRow → JobRow)
    (keeps : (row : JobRow) → (set row).certificate_id ≡ row.certificate_id) where
  updated-certificate_id :
      (row : JobRow) → (if holds row then set row else row).certificate_id ≡ row.certificate_id
  updated-certificate_id row = elim (Bool-cases (holds row)) [
    | inl e ↦ rw e (keeps row)
    | inr e ↦ rw e refl
  ]

  pub find_job-update :
      (id : Bytes) (jobs : List JobRow)
      → find_job id (update holds set jobs) ≡ after holds set (find_job id jobs)
  unfolding find_job update after
  find_job-update id [] = refl
  find_job-update id (row ∷ jobs) =
      rw (updated-certificate_id row) (elim (Bool-cases (beq row.certificate_id id)) [
        | inl e ↦ rw e refl
        | inr e ↦ rw e (find_job-update id jobs)
      ])

  pub update-Distinct : (jobs : List JobRow) → Distinct jobs → Distinct (update holds set jobs)
  unfolding Distinct update after
  update-Distinct [] d = tt
  update-Distinct (row ∷ jobs) d = (
    rw (updated-certificate_id row, find_job-update row.certificate_id jobs, d.0) none_after,
    update-Distinct jobs d.1,
  )
    where
      none_after : after holds set none ≡ none
      none_after = refl

-- An update of a certificate's row finds no other row.
module _ (holds : JobRow → Bool) (id : Bytes)
    (keyed : (row : JobRow) → holds row ≡ true → beq row.certificate_id id ≡ true) where
  pub affected-none : (jobs : List JobRow) → find_job id jobs ≡ none → affected holds jobs ≡ 0
  unfolding affected find_job
  affected-none [] f = refl
  affected-none (row ∷ jobs) f = elim (Bool-cases (beq row.certificate_id id)) [
    | inl e ↦ absurd (cc (rw e at f))
    | inr e ↦ elim (Bool-cases (holds row)) [
      | inl h ↦ absurd (cc (keyed row h, e))
      | inr h ↦ rw h (omega (arith, affected-none jobs (rw e at f)))
    ]
  ]

  pub affected_found :
      (jobs : List JobRow) (row : JobRow)
      → Distinct jobs
      → find_job id jobs ≡ some row
      → affected holds jobs ≡ (if holds row then 1 else 0)
  unfolding affected find_job Distinct
  affected_found [] row d f = absurd (cc f)
  affected_found (r ∷ jobs) row d f = elim (Bool-cases (beq r.certificate_id id)) [
    | inl e ↦ first e
    | inr e ↦ elim (Bool-cases (holds r)) [
      | inl h ↦ absurd (cc (keyed r h, e))
      | inr h ↦ rw h (omega (arith, affected_found jobs row d.1 (rw e at f)))
    ]
  ]
    where
      first :
          beq r.certificate_id id ≡ true → affected holds (r ∷ jobs) ≡ (if holds row then 1 else 0)
      first e =
          let same : r ≡ row = cc (rw e at f) in
          let rest = affected-none jobs (rw (beq→eq r.certificate_id id e) at d.0) in
          rw (same, rest) (elim (Bool-cases (holds row)) [ inl h ↦ rw h refl | inr h ↦ rw h refl ])

-- The row that a claim reads back is the certificate's, where it is owned.
pub find_owned_found :
    (id owner : Bytes) (jobs : List JobRow) (row : JobRow)
    → find_job id jobs ≡ some row
    → is_owner owner row ≡ true
    → find_owned id owner jobs ≡ some (job_from_row row)
unfolding find_owned find_job
find_owned_found id owner [] row f o = absurd (cc f)
find_owned_found id owner (r ∷ jobs) row f o = elim (Bool-cases (beq r.certificate_id id)) [
  | inl e ↦ let same : r ≡ row = cc (rw e at f) in rw (same, o, (rw same at e)) refl
  | inr e ↦ rw e (find_owned_found id owner jobs row (rw e at f) o)
]
