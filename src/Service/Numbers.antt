-- ===== src/Service/Numbers.antt =====
-- The numbering of connections: the loop of `route`.
use opentunnel.Prelude.{
  ℕ, zero, suc, ◌+◌, ◌%◌, ◌^◌, ◌≤◌, ◌<◌, ◌≡◌, ◌≢◌, refl, ap, inl, inr, Bool, true, false, not, ◌&&◌,
  ◌||◌, Option, some, List, [], ◌∷◌, ◌++◌, arith, length, length-append, ◌==◌, if◌then◌else◌,
  Bool-cases,
}
use opentunnel.Service.Bridge.{Bridge, Channel, has_channel}
use opentunnel.Service.Route.{in_use, total_channels, number_conn}

contains : ℕ → List ℕ → Bool
contains n [] = false
contains n (x ∷ xs) = x == n || contains n xs

without : ℕ → List ℕ → List ℕ
without n [] = []
without n (x ∷ xs) = let rest = without n xs in if x == n then rest else x ∷ rest

contains-append :
    (n : ℕ) (xs ys : List ℕ) → contains n (xs ++ ys) ≡ (contains n xs || contains n ys)
unfolding contains
contains-append n [] ys = refl
contains-append n (x ∷ xs) ys = ground (arith, contains-append n xs ys)

contains-without :
    (n m : ℕ) (xs : List ℕ) → m ≢ n → contains m xs ≡ true → contains m (without n xs) ≡ true
unfolding contains without
contains-without n m [] d h = h
contains-without n m (x ∷ xs) d h = ground (arith, contains-without n m xs d)

length-without_le : (n : ℕ) (xs : List ℕ) → length (without n xs) ≤ length xs
unfolding without
length-without_le n [] = omega arith
length-without_le n (x ∷ xs) = ground (arith, length-without_le n xs)

length-without : (n : ℕ) (xs : List ℕ) → contains n xs ≡ true → length (without n xs) < length xs
unfolding contains without
length-without n [] h = cc
length-without n (x ∷ xs) h = ground (arith, length-without n xs, length-without_le n xs)

-- The numbers in use.
numbers : List (ℕ × Channel) → List ℕ
numbers [] = []
numbers ((n, channel) ∷ rest) = n ∷ numbers rest

all_numbers : List Bridge → List ℕ
unfolding numbers
all_numbers [] = []
all_numbers (b ∷ rest) = numbers b.channels ++ all_numbers rest

contains-numbers : (n : ℕ) (cs : List (ℕ × Channel)) → has_channel n cs ≡ contains n (numbers cs)
unfolding has_channel contains numbers
contains-numbers n [] = refl
contains-numbers n ((c, channel) ∷ rest) = ground (arith, contains-numbers n rest)

in_use-contains : (n : ℕ) (bs : List Bridge) → in_use n bs ≡ contains n (all_numbers bs)
unfolding in_use all_numbers contains
in_use-contains n [] = refl
in_use-contains n (b ∷ rest) =
    rw (contains-append n (numbers b.channels) (all_numbers rest))
      (ground (arith, contains-numbers n b.channels, in_use-contains n rest))

length-numbers : (cs : List (ℕ × Channel)) → length (numbers cs) ≡ length cs
unfolding numbers
length-numbers [] = refl
length-numbers ((n, channel) ∷ rest) = ap suc (length-numbers rest)

length-all_numbers : (bs : List Bridge) → length (all_numbers bs) ≡ total_channels bs
unfolding all_numbers total_channels
length-all_numbers [] = refl
length-all_numbers (b ∷ rest) = omega (
  arith,
  length-append (numbers b.channels) (all_numbers rest),
  length-numbers b.channels,
  length-all_numbers rest,
)

-- What the loop tests.
abbrev is_free : ℕ → List Bridge → Bool
is_free n bs = not (n == 0) && not (in_use n bs)

is_free_sound : (n : ℕ) (bs : List Bridge) → is_free n bs ≡ true → (n ≢ 0) × (in_use n bs ≡ false)
is_free_sound n bs h = ground arith

is_free-refused :
    (n : ℕ) (bs : List Bridge) → is_free n bs ≡ false → contains n (0 ∷ all_numbers bs) ≡ true
unfolding contains
is_free-refused n bs h = ground (arith, in_use-contains n bs)

some_pair : (a b c d : ℕ) → ◌≡◌ {A = Option (ℕ × ℕ)} (some (a, b)) (some (c, d)) → (a ≡ c) × (b ≡ d)
some_pair a b c d h = ground arith

-- Of more candidates than there are refused numbers one is free: each refused candidate leaves the
-- list of refused numbers, and does not come back within 2 ^ 32 rounds.
finds :
    (fuel sequence : ℕ) (bs : List Bridge) (refused : List ℕ)
    → sequence < 2 ^ 32
    → length refused < fuel
    → fuel ≤ 2 ^ 32
    → ((k : ℕ)
        → k < fuel
        → is_free ((sequence + k) % 2 ^ 32) bs ≡ false
        → contains ((sequence + k) % 2 ^ 32) refused ≡ true)
    → (r : ℕ × ℕ) × (number_conn fuel sequence bs ≡ some r)
unfolding number_conn
finds zero sequence bs refused lt room cap covers = absurd (omega arith)
finds (suc fuel) sequence bs refused lt room cap covers = elim (Bool-cases (is_free sequence bs)) [
  | inl free ↦ ((sequence, (sequence + 1) % 2 ^ 32), rw free)
  | inr busy ↦
      let now : (sequence + 0) % 2 ^ 32 ≡ sequence = omega arith in
      let here : contains sequence refused ≡ true =
        rw now at (covers 0 (omega arith) (rw now busy)) in
      let shorter = length-without sequence refused here in
      let later =
        finds fuel ((sequence + 1) % 2 ^ 32) bs (without sequence refused) (omega arith)
          (omega arith) (omega arith) (next_covers here) in
      (later.0, rw busy later.1)
]
  where
    next_covers :
        contains sequence refused ≡ true
        → (k : ℕ) → k < fuel
        → is_free (((sequence + 1) % 2 ^ 32 + k) % 2 ^ 32) bs ≡ false
        → contains (((sequence + 1) % 2 ^ 32 + k) % 2 ^ 32) (without sequence refused) ≡ true
    next_covers here k lt' busy' =
        let same : ((sequence + 1) % 2 ^ 32 + k) % 2 ^ 32 ≡ (sequence + suc k) % 2 ^ 32 =
          omega arith in
        let other : (sequence + suc k) % 2 ^ 32 ≢ sequence = omega arith in
        rw same (
          contains-without sequence ((sequence + suc k) % 2 ^ 32) refused other
            (covers (suc k) (omega arith) (rw same at busy')))

-- A number that the loop returns is not 0, is used by no bridge, and fits 32 bits.
pub number_conn_sound :
    (fuel sequence : ℕ) (bs : List Bridge) (n next : ℕ)
    → sequence < 2 ^ 32
    → number_conn fuel sequence bs ≡ some (n, next)
    → (n ≢ 0) × (in_use n bs ≡ false) × (n < 2 ^ 32) × (next < 2 ^ 32)
unfolding number_conn
number_conn_sound zero sequence bs n next lt h = cc
number_conn_sound (suc fuel) sequence bs n next lt h = elim (Bool-cases (is_free sequence bs)) [
  | inl free ↦
      let (at, after) = some_pair sequence ((sequence + 1) % 2 ^ 32) n next (rw free at h) in
      let (nonzero, unused) = is_free_sound sequence bs free in
      (rw (← at) nonzero, rw (← at) unused, omega arith, omega arith)
  | inr busy ↦
      number_conn_sound fuel ((sequence + 1) % 2 ^ 32) bs n next (omega arith) (rw busy at h)
]

-- With fewer than 2 ^ 32 - 1 connections open, the search ends.
pub number_conn_total :
    (sequence : ℕ) (bs : List Bridge)
    → sequence < 2 ^ 32
    → total_channels bs + 2 ≤ 2 ^ 32
    → (r : ℕ × ℕ) × (number_conn (total_channels bs + 2) sequence bs ≡ some r)
number_conn_total sequence bs lt room =
    finds (total_channels bs + 2) sequence bs (0 ∷ all_numbers bs) lt
      (omega (arith, length-all_numbers bs)) room
      λ k _ busy. is_free-refused ((sequence + k) % 2 ^ 32) bs busy
