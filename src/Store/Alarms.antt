-- ===== src/Store/Alarms.antt =====
-- The alarms that `take_due_alarms_and_next` takes.
use opentunnel.Prelude.{
  ==_refl, true, some, Bool, sym, ap, ◌∙◌, ℕ, zero, suc, ◌≤◌, ◌≡◌, refl, inl, inr, false, none,
  List, [], ◌∷◌, ltb, min, arith, ◌⊎◌, if◌then◌else◌, Bytes, beq, beq_refl, beq→eq, Bool-cases,
  Option-cases, take, All, length,
}
use opentunnel.Store.Tunnels.{
  Tunnels, set_row, alarm, is_alarm, set_alarm, clear_alarm, due_count, clear_all,
  take_due_alarms_and_next, alarm_limit,
}

-- The tunnel's alarm is not the one at this time.
pub IsOver : Tunnels → Bytes × ℕ → Type 0
IsOver rows due = is_alarm due.1 (alarm due.0 rows) ≡ false

-- A change of the table that sets no alarm.
unfoldable pub IsQuiet : (Tunnels → Tunnels) → Type 0
IsQuiet change = (due : Bytes × ℕ) (rows : Tunnels) → IsOver rows due → IsOver (change rows) due

alarm-set_alarm :
    (id id' : Bytes) (rows : Tunnels)
    → alarm id' (set_alarm id none rows) ≡ (if beq id' id then none else alarm id' rows)
unfolding alarm set_alarm set_row
alarm-set_alarm id id' rows = elim (Bool-cases (beq id' id)) [
  | inl e ↦ elim (Option-cases (rows id)) [
    | inl n ↦ rw (n, set_alarm, e, beq→eq id' id e, alarm, n) refl
    | inr (row, s) ↦ rw (s, set_alarm, alarm, e) refl
  ]
  | inr e ↦ elim (Option-cases (rows id)) [
    | inl n ↦ rw (n, set_alarm, e) refl
    | inr (row, s) ↦ rw (s, set_alarm, alarm, e) refl
  ]
]

clear_alarm-IsQuiet : (id : Bytes) (at : ℕ) → IsQuiet (λ rows. (clear_alarm id at rows).0)
unfolding IsQuiet IsOver clear_alarm is_alarm
clear_alarm-IsQuiet id at (id', at') rows h = elim (Bool-cases (is_alarm at (alarm id rows))) [
  | inr e ↦ rw e h
  | inl e ↦
      rw (e, alarm-set_alarm id id' rows)
        (elim (Bool-cases (beq id' id)) [ inl s ↦ rw s refl | inr s ↦ rw s h ])
]

clear_alarm-IsOver :
    (id : Bytes) (at : ℕ) (rows : Tunnels) → IsOver (clear_alarm id at rows).0 (id, at)
unfolding IsOver clear_alarm is_alarm
clear_alarm-IsOver id at rows = elim (Bool-cases (is_alarm at (alarm id rows))) [
  | inr e ↦ rw e e
  | inl e ↦ rw (e, alarm-set_alarm id id rows, beq_refl id) refl
]

All-IsQuiet :
    (change : Tunnels → Tunnels) (due : List (Bytes × ℕ)) (rows : Tunnels)
    → IsQuiet change
    → All (IsOver rows) due
    → All (IsOver (change rows)) due
unfolding IsQuiet
All-IsQuiet change [] rows q h = tt
All-IsQuiet change (d ∷ due) rows q h = (q d rows h.0, All-IsQuiet change due rows q h.1)

clear_alarm_nothing :
    (id : Bytes) (at : ℕ) (rows : Tunnels)
    → IsOver rows (id, at)
    → clear_alarm id at rows ≡ (rows, false)
unfolding IsOver clear_alarm
clear_alarm_nothing id at rows h = rw h refl

module _ (others : ℕ → Tunnels → Tunnels) (quiet : (n : ℕ) → IsQuiet (others n)) where
  clear_all-IsQuiet : (due : List (Bytes × ℕ)) → IsQuiet (λ rows. (clear_all others due rows).0)
  unfolding IsQuiet clear_all
  clear_all-IsQuiet [] d rows h = h
  clear_all-IsQuiet ((id, at) ∷ due) d rows h =
      clear_all-IsQuiet due d _ (clear_alarm-IsQuiet id at d _ (quiet (length due) d rows h))

  clear_all-IsOver :
      (due : List (Bytes × ℕ)) (rows : Tunnels) → All (IsOver (clear_all others due rows).0) due
  unfolding clear_all IsQuiet
  clear_all-IsOver [] rows = tt
  clear_all-IsOver ((id, at) ∷ due) rows = (
    clear_all-IsQuiet due (id, at) _ (clear_alarm-IsOver id at (others (length due) rows)),
    clear_all-IsOver due (clear_alarm id at (others (length due) rows)).0,
  )

  clear_all_nothing :
      (due : List (Bytes × ℕ)) (rows : Tunnels)
      → All (IsOver rows) due
      → (clear_all others due rows).1 ≡ []
  unfolding clear_all
  clear_all_nothing [] rows h = refl
  clear_all_nothing ((id, at) ∷ due) rows h =
      let calm = All-IsQuiet (others (length due)) ((id, at) ∷ due) rows (quiet (length due)) h in
      rw (clear_alarm_nothing id at (others (length due) rows) calm.0)
        (clear_all_nothing due (others (length due) rows) calm.1)

-- A change of the table that leaves all alarms as they are.
unfoldable pub KeepsAlarms : (Tunnels → Tunnels) → Type 0
KeepsAlarms change = (id : Bytes) (rows : Tunnels) → alarm id (change rows) ≡ alarm id rows

-- A tunnel is among those of which a caller took the alarm.
abbrev pub Taken : Bytes → List Bytes → Type 0
Taken id [] = ⊥
Taken id (id' ∷ ids) = (id' ≡ id) ⊎ Taken id ids

-- Each of these alarms that stands in the table is taken.
abbrev pub AllTaken : List (Bytes × ℕ) → Tunnels → List Bytes → Type 0
AllTaken due rows ids = All (λ d. alarm d.0 rows ≡ some d.1 → Taken d.0 ids) due

clear_alarm_other :
    (id id' : Bytes) (at : ℕ) (rows : Tunnels)
    → beq id' id ≡ false
    → alarm id' (clear_alarm id at rows).0 ≡ alarm id' rows
unfolding clear_alarm is_alarm
clear_alarm_other id id' at rows n = elim (Bool-cases (is_alarm at (alarm id rows))) [
  | inr e ↦ rw e refl
  | inl e ↦ rw (e, alarm-set_alarm id id' rows, n) refl
]

clear_alarm_taken :
    (id : Bytes) (at : ℕ) (rows : Tunnels)
    → alarm id rows ≡ some at
    → (clear_alarm id at rows).1 ≡ true
unfolding clear_alarm is_alarm
clear_alarm_taken id at rows e =
    let standing : is_alarm at (alarm id rows) ≡ true = rw (e, is_alarm) (==_refl at) in
    rw standing refl

Taken-if :
    (id id' : Bytes) (taken : Bool) (ids : List Bytes)
    → Taken id ids
    → Taken id (if taken then id' ∷ ids else ids)
Taken-if id id' true ids h = inr h
Taken-if id id' false ids h = h

clear_alarm_untaken :
    (id : Bytes) (at : ℕ) (rows : Tunnels)
    → (clear_alarm id at rows).1 ≡ false
    → (clear_alarm id at rows).0 ≡ rows
unfolding clear_alarm
clear_alarm_untaken id at rows h = elim (Bool-cases (is_alarm at (alarm id rows))) [
  | inl e ↦ absurd (cc (rw (e, clear_alarm) at h))
  | inr e ↦ rw (e, clear_alarm) refl
]

-- After one alarm is cleared, the others that stand are taken or it was theirs.
Taken-clear_alarm :
    (id : Bytes) (at : ℕ) (rows : Tunnels) (more : List Bytes) (d : Bytes × ℕ)
    → (alarm d.0 (clear_alarm id at rows).0 ≡ some d.1 → Taken d.0 more)
    → alarm d.0 rows ≡ some d.1
    → Taken d.0 (if (clear_alarm id at rows).1 then id ∷ more else more)
Taken-clear_alarm id at rows more d later e = elim (Bool-cases (beq d.0 id)) [
  | inr n ↦ Taken-if d.0 id _ more (later (clear_alarm_other id d.0 at rows n ∙ e))
  | inl same ↦ elim (Bool-cases (clear_alarm id at rows).1) [
    | inl t ↦ rw t (inl (sym (beq→eq d.0 id same)))
    | inr t ↦ rw t (later (ap (λ rows. alarm d.0 rows) (clear_alarm_untaken id at rows t) ∙ e))
  ]
]

AllTaken-clear_alarm :
    (id : Bytes) (at : ℕ) (rows rows' : Tunnels) (more : List Bytes) (due : List (Bytes × ℕ))
    → ((id' : Bytes) → alarm id' rows' ≡ alarm id' rows)
    → AllTaken due (clear_alarm id at rows').0 more
    → AllTaken due rows (if (clear_alarm id at rows').1 then id ∷ more else more)
AllTaken-clear_alarm id at rows rows' more [] same h = tt
AllTaken-clear_alarm id at rows rows' more (d ∷ due) same (h, hs) = (
  λ e. Taken-clear_alarm id at rows' more d h (same d.0 ∙ e),
  AllTaken-clear_alarm id at rows rows' more due same hs,
)

module _ (others : ℕ → Tunnels → Tunnels) (keeps : (n : ℕ) → KeepsAlarms (others n)) where
  clear_all-AllTaken :
      (due : List (Bytes × ℕ)) (rows : Tunnels) → AllTaken due rows (clear_all others due rows).1
  unfolding clear_all KeepsAlarms
  clear_all-AllTaken [] rows = tt
  clear_all-AllTaken ((id, at) ∷ due) rows =
      let same : (id' : Bytes) → alarm id' (others (length due) rows) ≡ alarm id' rows =
        λ id'. keeps (length due) id' rows in
      (
        λ e. rw (clear_alarm_taken id at (others (length due) rows) (same id ∙ e)) (inl refl),
        AllTaken-clear_alarm id at rows (others (length due) rows) _ due same
            (clear_all-AllTaken due (clear_alarm id at (others (length due) rows)).0),
      )

-- Of the callers that read the same alarms, one takes each: however other machines' statements come in between, as
-- long as they set no alarm, a later caller takes none of them again; and a caller in whose time no other
-- statement touches an alarm takes each that stands.
pub clear_all_once :
    (others others' calm : ℕ → Tunnels → Tunnels) (between : Tunnels → Tunnels)
    → ((n : ℕ) → IsQuiet (others n))
    → ((n : ℕ) → IsQuiet (others' n))
    → ((n : ℕ) → KeepsAlarms (calm n))
    → IsQuiet between
    → (due : List (Bytes × ℕ)) (rows : Tunnels)
    → ((clear_all others' due (between (clear_all others due rows).0)).1 ≡ [])
      × AllTaken due rows (clear_all calm due rows).1
clear_all_once others others' calm between quiet quiet' keeps silent due rows = (
  clear_all_nothing others' quiet' due (between (clear_all others due rows).0)
      (All-IsQuiet between due _ silent (clear_all-IsOver others quiet due rows)),
  clear_all-AllTaken calm keeps due rows,
)

-- What a caller takes: alarms that it read, and none before its time.
pub IsDue : ℕ → List (Bytes × ℕ) → Bytes → Type 0
IsDue now [] id = ⊥
IsDue now (d ∷ due) id = ((d.0 ≡ id) × (d.1 ≤ now)) ⊎ IsDue now due id

All-IsDue :
    (now : ℕ) (d : Bytes × ℕ) (due : List (Bytes × ℕ)) (ids : List Bytes)
    → All (IsDue now due) ids
    → All (IsDue now (d ∷ due)) ids
unfolding IsDue
All-IsDue now d due [] h = tt
All-IsDue now d due (id ∷ ids) h = (inr h.0, All-IsDue now d due ids h.1)

clear_all-IsDue :
    (others : ℕ → Tunnels → Tunnels) (now : ℕ) (due : List (Bytes × ℕ)) (rows : Tunnels)
    → All (λ d. d.1 ≤ now) due
    → All (IsDue now due) (clear_all others due rows).1
unfolding clear_all IsDue
clear_all-IsDue others now [] rows h = tt
clear_all-IsDue others now ((id, at) ∷ due) rows h =
    let cleared = clear_alarm id at (others (length due) rows) in
    let more = All-IsDue now (id, at) due _ (clear_all-IsDue others now due cleared.0 h.1) in
    elim (Bool-cases cleared.1) [ inl e ↦ rw e (inl (refl, h.0), more) | inr e ↦ rw e more ]

take-due_count :
    (now n : ℕ) (due : List (Bytes × ℕ)) → n ≤ due_count now due → All (λ d. d.1 ≤ now) (take n due)
unfolding due_count
take-due_count now zero due h = tt
take-due_count now (suc n) [] h = tt
take-due_count now (suc n) ((id, at) ∷ due) h = elim (Bool-cases (ltb now at)) [
  | inl e ↦ absurd (let h' = rw e at h in omega (arith, h'))
  | inr e ↦ (ground arith, take-due_count now n due (let h' = rw e at h in omega (arith, h')))
]

-- Every alarm that a call takes is one that its query returned, is due, and is within the
-- limit.
pub take_alarms_timely :
    (others : ℕ → Tunnels → Tunnels) (now : ℕ) (due : List (Bytes × ℕ)) (rows : Tunnels)
    → All
        (IsDue now (take (min (due_count now due) alarm_limit) due))
        (take_due_alarms_and_next others now due rows).1
unfolding take_due_alarms_and_next
take_alarms_timely others now due rows =
    clear_all-IsDue others now (take (min (due_count now due) alarm_limit) due) rows
      (take-due_count now (min (due_count now due) alarm_limit) due (omega arith))
