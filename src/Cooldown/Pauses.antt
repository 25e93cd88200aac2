-- ===== src/Cooldown/Pauses.antt =====
-- When failures start a cool-down, and how long it is.
use opentunnel.Prelude.{
  ℕ, ◌+◌, ◌≤◌, ◌<◌, ◌≡◌, ◌⊎◌, refl, inl, inr, Bool, true, false, not, ◌&&◌, Option, none, some,
  List, [], ◌∷◌, if◌then◌else◌, ltb, ◌==◌, max, arith, Bytes, beq, codes, Bool-cases, &&_true,
}
use opentunnel.Cooldown.{
  Cooldown, Failure, cooldown_failures, cooldown_min_ms, cooldown_max_ms, ca_trouble, longer,
  wait_ms, pause, failed, fail_all,
}

-- Fewer failures counted than start a cool-down, and a length within its bounds.
pub record IsCooldown (c : Cooldown) : Type 0 where
  pub few : c.failures < cooldown_failures
  pub bounded :
      (c.cooldown_ms ≡ 0) ⊎ ((cooldown_min_ms ≤ c.cooldown_ms) × (c.cooldown_ms ≤ cooldown_max_ms))

-- What a failure leaves, by whether it started a cool-down.
pub IsNext : Option ℕ → ℕ → Cooldown → Cooldown × Bool → Type 0
IsNext retry_after now c (next, false) =
    (next.until ≡ c.until) × (next.cooldown_ms ≡ c.cooldown_ms) × (c.failures ≤ next.failures)
IsNext retry_after now c (next, true) =
    (next.failures ≡ 0)
    × (c.until ≤ next.until)
    × (now + next.cooldown_ms ≤ next.until)
    × (now + wait_ms retry_after ≤ next.until)
    × (next.until ≤ max c.until (now + cooldown_max_ms))
    × (c.cooldown_ms ≤ next.cooldown_ms)

longer_bounded :
    (c : Cooldown)
    → IsCooldown c
    → (cooldown_min_ms ≤ longer c.cooldown_ms)
      × (longer c.cooldown_ms ≤ cooldown_max_ms)
      × (c.cooldown_ms ≤ longer c.cooldown_ms)
unfolding longer
longer_bounded c v = elim (Bool-cases (c.cooldown_ms == 0)) [
  | inl e ↦
      let z : c.cooldown_ms ≡ 0 = ground arith in rw e (omega arith, omega arith, omega (arith, z))
  | inr e ↦ elim v.bounded [
    | inl z ↦ absurd (ground arith)
    | inr (low, high) ↦
        rw e (omega (arith, low, high), omega (arith, low, high), omega (arith, low, high))
  ]
]

wait_ms_bounded : (after : Option ℕ) → wait_ms after ≤ cooldown_max_ms
unfolding wait_ms
wait_ms_bounded none = omega arith
wait_ms_bounded (some after) = omega arith

pause-IsNext :
    (retry_after : Option ℕ) (now : ℕ) (c : Cooldown)
    → IsCooldown c
    → IsCooldown (pause retry_after now c)
      × IsNext retry_after now c (pause retry_after now c, true)
unfolding pause IsNext
pause-IsNext retry_after now c v =
    let (low, high, grows) = longer_bounded c v in
    let hour = wait_ms_bounded retry_after in
    (
      record { few = omega arith; bounded = inr (low, high) },
      (refl, omega arith, omega arith, omega arith, omega (arith, high, hour), grows),
    )

-- A failure keeps the bounds of the cool-down. One that starts it pauses issuance for the cool-down and the
-- Retry-After, for an hour at most, and shortens neither the pause nor the cool-down before; any other
-- changes neither.
pub failed-IsNext :
    (class : Bytes) (retry_after : Option ℕ) (now : ℕ) (c : Cooldown)
    → IsCooldown c
    → IsCooldown (failed class retry_after now c).0
      × IsNext retry_after now c (failed class retry_after now c)
unfolding failed IsNext
failed-IsNext class retry_after now c v = elim (Bool-cases (ca_trouble class)) [
  | inr e ↦ rw e (v, (refl, refl, omega arith))
  | inl e ↦
      elim (Bool-cases
        (not (beq class (codes "http_429")) && ltb (c.failures + 1) cooldown_failures)) [
          | inr g ↦ rw (e, g) (pause-IsNext retry_after now c v)
          | inl g ↦
              let few =
                (&&_true (not (beq class (codes "http_429")))
                  (ltb (c.failures + 1) cooldown_failures) g).1 in
              rw (e, g)
                (record { few = ground arith; bounded = v.bounded }, (refl, refl, omega arith))
        ]
]

-- The failures that point at the CA.
abbrev pub troubles : List Failure → ℕ
troubles [] = 0
troubles (f ∷ fs) = (if ca_trouble f.class then 1 else 0) + troubles fs

-- Five failures that point at the CA start a cool-down, wherever the count stood, whatever other failures come
-- in between, as long as no attempt succeeds in between.
pub five_failures :
    (fs : List Failure) (c : Cooldown)
    → cooldown_failures ≤ c.failures + troubles fs
    → c.failures < cooldown_failures
    → (fail_all fs c).1 ≡ true
unfolding fail_all failed
five_failures [] c h few = absurd (omega (arith, h, few))
five_failures (f ∷ fs) c h few = elim (Bool-cases (ca_trouble f.class)) [
  | inr t ↦ let h' = rw t at h in rw t (five_failures fs c (omega (arith, h')) few)
  | inl t ↦
      elim (Bool-cases
        (not (beq f.class (codes "http_429")) && ltb (c.failures + 1) cooldown_failures)) [
          | inr g ↦ rw (t, g) refl
          | inl g ↦
              let left : c.failures + 1 < cooldown_failures =
                let l =
                  (&&_true (not (beq f.class (codes "http_429")))
                    (ltb (c.failures + 1) cooldown_failures) g).1 in
                ground arith in
              let h' = rw t at h in
              rw (t, g)
                (five_failures fs (record c { failures = c.failures + 1 }) (omega (arith, h')) left)
        ]
]
